-- ===== src/FeedProxy/Starting/Threads/Bound.antt =====
-- How many connections of a feeder and a protocol are registered at once, at most.
use bordercontrol.Prelude.{
  ℕ, ◌+◌, ◌≤◌, ◌≡◌, refl, true, false, Bool-cases, inl, inr, ==_iff, ◌∷◌, ◌++◌, ok, returns, arith,
  subst,
}
use bordercontrol.GoMap.{get_or, lookup}
use bordercontrol.Stats.State.{Statistics}
use bordercontrol.Stats.Feeders.{get_num_connections}
use bordercontrol.Stats.Connections.{Connection}
use bordercontrol.Stats.Cases.{Reply}
use bordercontrol.Stats.Connected.{table}
use bordercontrol.Stats.Counting.{is_table}
use bordercontrol.Stats.Growing.{count_ok, new_in, Counts, reply-Counts, count_after-le}
use bordercontrol.Stats.Init.{fresh-IsValid}
use bordercontrol.Stats.Invariant.{IsValid}
use bordercontrol.Stats.Preserves.{IsValidAfter}
use bordercontrol.Stats.Refinement.Calls.{Refines}
use bordercontrol.Stats.Refinement.Simulation.{reply-Refines}
use bordercontrol.Stats.Histories.{
  Call, registers_feeder, increments, registers, unregisters, evicts, reply, reply-IsValid,
}
use bordercontrol.FeedProxy.Starting.{exceeds_limit}
use bordercontrol.FeedProxy.Starting.Serving.Lists.{between-split}
use bordercontrol.FeedProxy.Starting.Threads.{
  Passing, Step, passes, is_registered, gives_up, calls, IsOther, between, Reach, start, later,
}

-- The statistics are valid, and there are few enough connections, registered or about to be.
record IsBounded (g k p : ℕ) (s : Passing) : Type 0 where
  valid : IsValid s.statistics
  initialised : s.statistics.initialised ≡ true
  few : (table s.statistics k p).connection_count + between k p s.passed ≤ g

-- After a call the statistics are valid, and have as many connections as it says.
after_call :
    (c : Call) (s : Statistics) (r : Reply)
    → IsValid s
    → s.initialised ≡ true
    → reply c s ≡ returns r
    → IsValid r.1 × (r.1.initialised ≡ true) × Counts c s (returns r)
after_call c s r v init e = (
  subst IsValidAfter e (reply-IsValid c s v),
  (subst (Refines c s) e (reply-Refines c s v init)).1,
  subst (Counts c s) e (reply-Counts c s v init),
)

none_new : (c : Call) (k p : ℕ) → IsOther c → new_in c k p ≡ 0
none_new (registers conn connected now) k p other = absurd other
none_new (registers_feeder d now) k p other = refl
none_new (increments i now) k p other = refl
none_new (unregisters conn now) k p other = refl
none_new (evicts now) k p other = refl

-- Within the limit nothing is registered.
passes-few :
    (g k p : ℕ) (conn : Connection) (n : ℕ) (s : Passing)
    → get_num_connections s.statistics conn.api_key conn.proto ≡ ok n
    → exceeds_limit n ≡ false
    → between k p (conn ∷ s.passed) ≤ g
    → (table s.statistics k p).connection_count + between k p s.passed ≤ g
    → (table s.statistics k p).connection_count + between k p (conn ∷ s.passed) ≤ g
unfolding between
passes-few g k p conn n s e within few before = elim (Bool-cases (is_table conn k p)) [
  | inl here ↦
      let (ke, pe) : (conn.api_key ≡ k) × (conn.proto ≡ p) =
        ground (arith, ==_iff conn.api_key k, ==_iff conn.proto p) in
      let none_yet : (table s.statistics k p).connection_count ≡ 0 =
        subst (λ q. (table s.statistics k q).connection_count ≡ 0) pe
          (subst (λ j. (table s.statistics j conn.proto).connection_count ≡ 0) ke
            (ground (arith, count_ok s.statistics conn.api_key conn.proto n e))) in
      ground (arith, none_yet)
  | inr elsewhere ↦ rw elsewhere before
]

Step-IsBounded :
    (g k p : ℕ) {s t : Passing}
    → Step s t
    → between k p t.passed ≤ g
    → IsBounded g k p s
    → IsBounded g k p t
Step-IsBounded g k p {s} (passes conn n e within) few b = record {
  valid = b.valid;
  initialised = b.initialised;
  few = passes-few g k p conn n s e within few b.few;
}
Step-IsBounded g k p {s} (is_registered xs ys conn connected now r e done) few b =
    let (valid, init, counts) =
      after_call (registers conn connected now) s.statistics r b.valid b.initialised done in
    let before : (table s.statistics k p).connection_count + between k p (xs ++ conn ∷ ys) ≤ g =
      rw (← e) b.few in
    record {
      valid = valid;
      initialised = init;
      few = omega (
        arith,
        counts k p,
        count_after-le (registers conn connected now) s.statistics k p
            (table s.statistics k p).connection_count,
        between-split k p xs ys conn,
      );
    }
Step-IsBounded g k p {s} (gives_up xs ys conn e) few b =
    let before : (table s.statistics k p).connection_count + between k p (xs ++ conn ∷ ys) ≤ g =
      rw (← e) b.few in
    record {
      valid = b.valid;
      initialised = b.initialised;
      few = omega (arith, between-split k p xs ys conn);
    }
Step-IsBounded g k p {s} (calls c r other done) few b =
    let (valid, init, counts) = after_call c s.statistics r b.valid b.initialised done in
    record {
      valid = valid;
      initialised = init;
      few = omega (
        arith,
        counts k p,
        count_after-le c s.statistics k p (table s.statistics k p).connection_count,
        none_new c k p other,
      );
    }

Reach-IsBounded : {g k p : ℕ} {s : Passing} → Reach g k p s → IsBounded g k p s
unfolding between get_or lookup
Reach-IsBounded start = record { valid = fresh-IsValid; initialised = refl; few = omega arith }
Reach-IsBounded (later r step few) = Step-IsBounded _ _ _ step few (Reach-IsBounded r)

-- From the state that `Init` leaves, and as long as at most `g` connections of a feeder and a
-- protocol are between the test of the limit and their registration, at most `g` are registered at
-- once, whatever other connections and calls do.
pub Reach-num_connections :
    {g k p : ℕ} {s : Passing} (n : ℕ)
    → Reach g k p s
    → get_num_connections s.statistics k p ≡ ok n
    → n ≤ g
Reach-num_connections {g} {k} {p} {s} n r e =
    let b = Reach-IsBounded r in omega (arith, b.few, count_ok s.statistics k p n e)
