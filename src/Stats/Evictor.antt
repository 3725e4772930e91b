-- ===== src/Stats/Evictor.antt =====
-- `statsEvictorInner`, and which feeders it deletes.
use bordercontrol.Prelude.{
  ap, ◌∙◌, ℕ, ◌≡◌, refl, List, [], ◌∷◌, Bool, true, false, ◌==◌, if◌then◌else◌, arith, length,
  ==_iff, ==_refl,
}
use bordercontrol.GoMap.{Map, lookup}
use bordercontrol.FeedProtocol.{beast, is_valid}
use bordercontrol.Stats.State.{ProtocolDetail, FeederStats, Statistics}
use bordercontrol.Stats.Feeders.{stale_feeders, delete_all, stats_evictor_inner}
use bordercontrol.Stats.Invariant.{IsFeeder, IsFeeders, IsValid}

is_in : ℕ → List ℕ → Bool
is_in k [] = false
is_in k (j ∷ js) = if j == k then true else is_in k js

IsFeeder-length : (m : Map ProtocolDetail) → IsFeeder m → (length m == 0) ≡ false
unfolding lookup is_valid
IsFeeder-length [] v = let (d, h) = v.complete beast refl in cc
IsFeeder-length (x ∷ m) v = ground arith

no_stale_feeders : (now : ℕ) (m : Map FeederStats) → IsFeeders m → stale_feeders now m ≡ []
unfolding stale_feeders lookup
no_stale_feeders now [] v = refl
no_stale_feeders now ((k, f) ∷ m) v =
    rw (IsFeeder-length f.connections (v.each k f (rw (==_refl k)))) (
      no_stale_feeders now m (record {
        distinct = v.distinct.1;
        each = λ j g h. v.each j g (ground (arith, v.distinct.0, ==_iff k j));
      }))

-- On a valid state, where every feeder has an entry for each protocol, the evictor deletes nothing,
-- however long a feeder has been without a connection.
pub stats_evictor_inner_lem : (now : ℕ) (s : Statistics) → IsValid s → stats_evictor_inner now s ≡ s
unfolding stats_evictor_inner delete_all
stats_evictor_inner_lem now s v = rw (no_stale_feeders now s.feeders v.feeders)

-- `statsEvictor`, with the times of the rounds until the context is done.
unfoldable pub stats_evictor : List ℕ → Statistics → Statistics
stats_evictor [] s = s
stats_evictor (now ∷ nows) s = stats_evictor nows (stats_evictor_inner now s)

-- On a valid state it does nothing at all.
pub stats_evictor_lem : (nows : List ℕ) (s : Statistics) → IsValid s → stats_evictor nows s ≡ s
unfolding stats_evictor
stats_evictor_lem [] s v = refl
stats_evictor_lem (now ∷ nows) s v =
    ap (stats_evictor nows) (stats_evictor_inner_lem now s v) ∙ stats_evictor_lem nows s v
