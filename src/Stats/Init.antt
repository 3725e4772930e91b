-- ===== src/Stats/Init.antt =====
-- The first states that satisfy the invariant, and `initFeederStats`.
use bordercontrol.Prelude.{ℕ, ◌≡◌, refl, true, some, arith, Option-cases, inl, inr}
use bordercontrol.GoMap.{lookup}
use bordercontrol.GoMap.Laws.{lookup-insert}
use bordercontrol.FeedProtocol.{is_valid}
use bordercontrol.Stats.State.{ProtocolDetail, FeederStats, Statistics, zero_protocol_detail, fresh}
use bordercontrol.Stats.Feeders.{new_feeder_stats, init_feeder_stats}
use bordercontrol.Stats.Invariant.{IsDetail, IsFeeder, IsValid, IsFeeders-insert}

pub fresh-IsValid : IsValid fresh
unfolding lookup
fresh-IsValid = record {
  feeders = record { distinct = tt; each = λ k f h. cc };
  beast = omega arith;
  mlat = omega arith;
}

pub zero-IsDetail : IsDetail zero_protocol_detail
unfolding lookup
zero-IsDetail = record { distinct = tt; count = refl; live = refl; counted = λ n c h. cc }

new_feeder_complete :
    (p : ℕ)
    → is_valid p ≡ true
    → (d : ProtocolDetail) × (lookup p new_feeder_stats.connections ≡ some d)
unfolding is_valid lookup
new_feeder_complete p h = (zero_protocol_detail, ground arith)

new_feeder_details :
    (p : ℕ) (d : ProtocolDetail)
    → lookup p new_feeder_stats.connections ≡ some d
    → d ≡ zero_protocol_detail
unfolding lookup
new_feeder_details p d h = ground arith

added-IsFeeder : IsFeeder new_feeder_stats.connections
unfolding is_valid lookup
added-IsFeeder = record {
  complete = new_feeder_complete;
  only = λ p d h. ground arith;
  details = λ p d h. rw (new_feeder_details p d h) zero-IsDetail;
}

pub init_feeder_stats-IsValid :
    (k : ℕ) (s : Statistics) → IsValid s → IsValid (init_feeder_stats k s)
unfolding init_feeder_stats
init_feeder_stats-IsValid k s v = elim (Option-cases (lookup k s.feeders)) [
  | inl e ↦
      rw (e, init_feeder_stats)
        (record {
          feeders = IsFeeders-insert k new_feeder_stats s.feeders added-IsFeeder v.feeders;
          beast = v.beast;
          mlat = v.mlat;
        })
  | inr (f, e) ↦ rw (e, init_feeder_stats) v
]

-- After `initFeederStats` the feeder is there.
pub init_feeder_stats-lookup :
    (k : ℕ) (s : Statistics)
    → (f : FeederStats) × (lookup k (init_feeder_stats k s).feeders ≡ some f)
unfolding init_feeder_stats
init_feeder_stats-lookup k s = elim (Option-cases (lookup k s.feeders)) [
  | inl e ↦ (new_feeder_stats, ground (arith, lookup-insert k k new_feeder_stats s.feeders))
  | inr (f, e) ↦ (f, ground arith)
]
