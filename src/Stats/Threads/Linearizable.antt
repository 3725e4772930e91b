-- ===== src/Stats/Threads/Linearizable.antt =====
-- Calls from several goroutines have the effect of the calls one after the other.
use bordercontrol.Prelude.{
  ℕ, ◌≡◌, ◌≢◌, refl, sym, ap, ◌∙◌, subst, Bool, true, List, [], ◌∷◌, Option, none, some, Outcome,
  returns, panics, inl, inr, arith, ◌==◌, ==_iff, Option-cases, Bool-cases,
}
use bordercontrol.GoMap.{lookup}
use bordercontrol.Stats.State.{Statistics}
use bordercontrol.Stats.Feeders.{init_feeder_stats}
use bordercontrol.Stats.Cases.{Reply}
use bordercontrol.Stats.Connected.{table-init_feeder_stats}
use bordercontrol.Stats.Counting.{init_feeder_stats-initialised}
use bordercontrol.Stats.Init.{fresh-IsValid, init_feeder_stats-IsValid, init_feeder_stats-lookup}
use bordercontrol.Stats.Invariant.{IsValid}
use bordercontrol.Stats.Preserves.{IsValidAfter}
use bordercontrol.Stats.Histories.{Call, reply, reply-IsValid}
use bordercontrol.Stats.Refinement.{Connections, no_connections, succeeds, after, view}
use bordercontrol.Stats.Refinement.Calls.{Refines}
use bordercontrol.Stats.Refinement.Simulation.{reply-Refines, view-after, view-fresh}
use bordercontrol.Stats.Threads.{
  feeder_of, locks_twice, finish, System, update, after_call, Step, begins, finishes, at_once,
  IsAlone, IsCalm, first, Reach, start, later,
}
use bordercontrol.Stats.Threads.Calls.{
  init_feeder_stats_present, reply-finish, IsPresent, init_feeder_stats-IsPresent, Spares,
  reply-Spares, IsPresentAfter, reply-IsPresent,
}

-- The specification's connections after calls, of which the newest is the first.
unfoldable pub connections_after : List (Call × Bool) → Connections
connections_after [] = no_connections
connections_after ((c, fine) ∷ cs) = after c (connections_after cs)

-- Those calls returned no error that the specification says succeed.
abbrev pub IsExplained : List (Call × Bool) → Type 0
IsExplained [] = Unit
IsExplained ((c, fine) ∷ cs) = (fine ≡ succeeds c (connections_after cs)) × IsExplained cs

pub record IsLinear (s : System) : Type 0 where
  pub valid : IsValid s.statistics
  pub up : s.statistics.initialised ≡ true
  pub held :
      (i : ℕ) (c : Call)
      → s.half_done i ≡ some c
      → (locks_twice c ≡ true) × IsPresent (feeder_of c) s.statistics
  pub shown : view s.statistics ≡ connections_after s.finished
  pub explained : IsExplained s.finished

first-IsLinear : IsLinear first
unfolding connections_after
first-IsLinear = record {
  valid = fresh-IsValid;
  up = refl;
  held = λ i c h. cc;
  shown = view-fresh;
  explained = tt;
}

-- The second half of a call that is half done is the call.
finish-reply :
    (s : System) (i : ℕ) (c : Call)
    → IsLinear s
    → s.half_done i ≡ some c
    → reply c s.statistics ≡ finish c s.statistics
finish-reply s i c v half =
    let (twice, (f, there)) = v.held i c half in
    reply-finish c s.statistics twice v.up
    ∙ ap (finish c) (init_feeder_stats_present (feeder_of c) s.statistics there)

-- What a whole call leaves.
module _ (s : System) (c : Call) (r : Reply) (v : IsLinear s)
    (e : reply c s.statistics ≡ returns r) where
  refined : Refines c s.statistics (returns r)
  refined = subst (Refines c s.statistics) e (reply-Refines c s.statistics v.valid v.up)

  after_call-IsLinear :
      (half : ℕ → Option Call)
      → ((i : ℕ) (d : Call)
          → half i ≡ some d
          → (locks_twice d ≡ true) × IsPresent (feeder_of d) r.1)
      → IsLinear (after_call c r half s)
  unfolding connections_after
  after_call-IsLinear half kept = record {
    valid = subst IsValidAfter e (reply-IsValid c s.statistics v.valid);
    up = refined.1;
    held = kept;
    shown = view-after c s.statistics r refined ∙ ap (after c) v.shown;
    explained = (refined.0 ∙ ap (succeeds c) v.shown, v.explained);
  }

update-some :
    (f : ℕ → Option Call) (i j : ℕ) (d : Call)
    → update f i none j ≡ some d
    → (j ≢ i) × (f j ≡ some d)
update-some f i j d h = elim (Bool-cases (j == i)) [
  | inl same ↦ absurd (ground arith)
  | inr other ↦ (λ e. ground (arith, ==_iff j i), ground arith)
]

-- The calls of the others that are half done still find their feeders.
finishes-held :
    (s : System) (i : ℕ) (c : Call) (r : Reply)
    → IsLinear s
    → reply c s.statistics ≡ returns r
    → (lookup (feeder_of c) r.1.feeders ≡ none → IsAlone s i (feeder_of c))
    → (j : ℕ) (d : Call) → update s.half_done i none j ≡ some d
    → (locks_twice d ≡ true) × IsPresent (feeder_of d) r.1
finishes-held s i c r v e calm j d h =
    let (other, half) = update-some s.half_done i j d h in
    let (twice, (f, there)) = v.held j d half in
    (
      twice,
      elim (Bool-cases (feeder_of c == feeder_of d)) [
        | inl same ↦
            let key = (==_iff (feeder_of c) (feeder_of d)).0 same in
            elim (Option-cases (lookup (feeder_of c) r.1.feeders)) [
              | inl gone ↦ absurd (calm gone j d half other (sym key))
              | inr (g, here) ↦ subst (λ k. IsPresent k r.1) key (g, here)
            ]
        | inr differ ↦
            let spared : Spares (feeder_of d) s.statistics (returns r) =
              subst (Spares (feeder_of d) s.statistics) e (
                reply-Spares (feeder_of d) c s.statistics v.valid
                  (λ same. ground (arith, ==_iff (feeder_of c) (feeder_of d)))) in
            (f, spared ∙ there)
      ],
    )

begins-held :
    (s : System) (i : ℕ) (c : Call)
    → IsLinear s
    → locks_twice c ≡ true
    → (j : ℕ) (d : Call) → update s.half_done i (some c) j ≡ some d
    → (locks_twice d ≡ true)
      × IsPresent (feeder_of d) (init_feeder_stats (feeder_of c) s.statistics)
begins-held s i c v twice j d h = elim (Bool-cases (j == i)) [
  | inl same ↦
      let here : c ≡ d = ground arith in
      subst
        (λ x.
          (locks_twice x ≡ true)
          × IsPresent (feeder_of x) (init_feeder_stats (feeder_of c) s.statistics))
        here (twice, init_feeder_stats-lookup (feeder_of c) s.statistics)
  | inr other ↦
      let (t, p) = v.held j d (ground arith) in
      (t, init_feeder_stats-IsPresent (feeder_of d) (feeder_of c) s.statistics p)
]

view-init_feeder_stats : (k : ℕ) (s : Statistics) → view (init_feeder_stats k s) ≡ view s
view-init_feeder_stats k s =
    λ i j p n. lookup n (table-init_feeder_stats k j p s i).connection_details

Step-IsLinear : {s t : System} (step : Step s t) → IsCalm step → IsLinear s → IsLinear t
Step-IsLinear {s} (begins i c twice free) calm v = record {
  valid = init_feeder_stats-IsValid (feeder_of c) s.statistics v.valid;
  up = init_feeder_stats-initialised (feeder_of c) s.statistics ∙ v.up;
  held = begins-held s i c v twice;
  shown = view-init_feeder_stats (feeder_of c) s.statistics ∙ v.shown;
  explained = v.explained;
}
Step-IsLinear {s} (finishes i c r half done) calm v =
    let e = finish-reply s i c v half ∙ done in
    after_call-IsLinear s c r v e (update s.half_done i none) (finishes-held s i c r v e calm)
Step-IsLinear {s} (at_once c r once done) calm v =
    after_call-IsLinear s c r v done s.half_done (λ j d half.
      let (twice, p) = v.held j d half in
      (
        twice,
        subst (IsPresentAfter (feeder_of d)) done
            (reply-IsPresent (feeder_of d) c s.statistics v.valid once p),
      ))

Reach-IsLinear : {s : System} → Reach s → IsLinear s
Reach-IsLinear start = first-IsLinear
Reach-IsLinear (later reach step calm) = Step-IsLinear step calm (Reach-IsLinear reach)

abbrev pub IsReturned : Outcome Reply → Type 0
IsReturned (returns r) = Unit
IsReturned panics = ⊥

-- What is left of a call returns.
abbrev pub GoesOn : System → Option Call → Type 0
GoesOn s none = Unit
GoesOn s (some c) = IsReturned (finish c s.statistics)

IsValidAfter-IsReturned : (o : Outcome Reply) → IsValidAfter o → IsReturned o
IsValidAfter-IsReturned (returns r) v = tt
IsValidAfter-IsReturned panics v = absurd v

IsLinear-GoesOn :
    (s : System) (i : ℕ) (half : Option Call) → IsLinear s → s.half_done i ≡ half → GoesOn s half
IsLinear-GoesOn s i none v h = tt
IsLinear-GoesOn s i (some c) v h =
    subst IsReturned (finish-reply s i c v h)
      (IsValidAfter-IsReturned (reply c s.statistics) (reply-IsValid c s.statistics v.valid))

-- What all goroutines see of the statistics.
pub record IsLinearizable (s : System) : Type 0 where
  pub shown : view s.statistics ≡ connections_after s.finished
  pub explained : IsExplained s.finished
  pub goes_on : (i : ℕ) → GoesOn s (s.half_done i)
  pub returned : (c : Call) → IsReturned (reply c s.statistics)

-- Goroutines make calls in any interleaving of their holds of the lock, from the state that `Init`
-- leaves, but so that no call deletes its feeder while another has half done one for that feeder.
-- Then at any time the registered connections are those of the specification after the calls that
-- are done, in the order in which they were done; just those calls returned no error that the
-- specification says succeed; and no call panics, whether it is half done or begins.
pub Reach-IsLinearizable : {s : System} → Reach s → IsLinearizable s
Reach-IsLinearizable {s} reach =
    let v = Reach-IsLinear reach in
    record {
      shown = v.shown;
      explained = v.explained;
      goes_on = λ i. IsLinear-GoesOn s i (s.half_done i) v refl;
      returned = λ c.
          IsValidAfter-IsReturned (reply c s.statistics) (reply-IsValid c s.statistics v.valid);
    }
