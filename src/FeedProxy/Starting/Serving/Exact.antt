-- ===== src/FeedProxy/Starting/Serving/Exact.antt =====
-- What the statistics say of the connections that are served, and what a call leaves of it.
use bordercontrol.Prelude.{
  ℕ, ◌≡◌, refl, sym, ◌∙◌, subst, ap, true, false, Option, none, some, returns, arith, if_elim,
}
use bordercontrol.FeedProtocol.{is_valid}
use bordercontrol.Stats.State.{ConnectionDetail, Statistics}
use bordercontrol.Stats.Feeders.{Increment}
use bordercontrol.Stats.Cases.{Reply}
use bordercontrol.Stats.Connected.{table, connection_of}
use bordercontrol.Stats.Gauges.{connections_gauge}
use bordercontrol.Stats.Gauges.Moves.{MovesWith, MovesAfter, api_key_of, reply-MovesAfter}
use bordercontrol.Stats.Growing.{Counts, count_after, reply-Counts}
use bordercontrol.Stats.Histories.{
  Call, registers_feeder, increments, registers, unregisters, evicts, reply, reply-IsValid,
}
use bordercontrol.Stats.Invariant.{IsValid}
use bordercontrol.Stats.Preserves.{IsValidAfter}
use bordercontrol.Stats.Refinement.{after, view, counts_bytes, is_counted}
use bordercontrol.Stats.Refinement.Calls.{Refines}
use bordercontrol.Stats.Refinement.Simulation.{reply-Refines}
use bordercontrol.FeedProxy.Starting.Threads.{between}
use bordercontrol.FeedProxy.Starting.Serving.{Serving, times, in_protocol, IsQuiet}

abbrev pub number_of : Option ConnectionDetail → ℕ
number_of none = 0
number_of (some c) = 1

-- What a served connection is in the statistics.
pub record IsExact (s : Serving) : Type 0 where
  pub valid : IsValid s.statistics
  pub initialised : s.statistics.initialised ≡ true
  -- only valid protocols are served
  pub known : (k p : ℕ) → is_valid p ≡ false → between k p s.served ≡ 0
  -- each once, and no other is registered
  pub shown : (k p n : ℕ) → times k p n s.served ≡ number_of (connection_of s.statistics k p n)
  -- `GetNumConnections`, and the gauge
  pub counted : (k p : ℕ) → (table s.statistics k p).connection_count ≡ between k p s.served
  pub gauged : (p : ℕ) → connections_gauge p s.statistics ≡ in_protocol p s.served

-- What a call leaves.
pub record IsAfter (c : Call) (s : Statistics) (r : Reply) : Type 0 where
  pub valid : IsValid r.1
  pub refines : Refines c s (returns r)
  pub counts : Counts c s (returns r)
  pub moves : MovesWith (api_key_of c) s r.1

pub reply-IsAfter :
    (c : Call) (s : Statistics) (r : Reply)
    → IsValid s
    → s.initialised ≡ true
    → reply c s ≡ returns r
    → IsAfter c s r
reply-IsAfter c s r v init e = record {
  valid = subst IsValidAfter e (reply-IsValid c s v);
  refines = subst (Refines c s) e (reply-Refines c s v init);
  counts = subst (Counts c s) e (reply-Counts c s v init);
  moves = subst (MovesAfter (api_key_of c) s) e (reply-MovesAfter c s v);
}

number_of-counts_bytes :
    (i : Increment) (o : Option ConnectionDetail) → number_of (counts_bytes i o) ≡ number_of o
number_of-counts_bytes i none = refl
number_of-counts_bytes i (some c) = refl

-- Quiet calls change no number.
number_of-after :
    (c : Call) (s : Statistics) (k p n : ℕ)
    → IsQuiet c
    → number_of (after c (view s) k p n) ≡ number_of (connection_of s k p n)
unfolding after
number_of-after (registers_feeder d now) s k p n q = refl
number_of-after (increments i now) s k p n q =
    if_elim (λ o. number_of o ≡ number_of (connection_of s k p n)) (is_counted i k p n)
      (λ _. number_of-counts_bytes i (connection_of s k p n)) (λ _. refl)
number_of-after (registers conn connected now) s k p n q = absurd q
number_of-after (unregisters conn now) s k p n q = absurd q
number_of-after (evicts now) s k p n q = refl

count_after-quiet : (c : Call) (s : Statistics) (k p m : ℕ) → IsQuiet c → count_after c s k p m ≡ m
count_after-quiet (registers_feeder d now) s k p m q = refl
count_after-quiet (increments i now) s k p m q = refl
count_after-quiet (registers conn connected now) s k p m q = absurd q
count_after-quiet (unregisters conn now) s k p m q = absurd q
count_after-quiet (evicts now) s k p m q = refl

pub calls-IsExact :
    (c : Call) (s : Serving) (r : Reply)
    → IsQuiet c
    → IsExact s
    → IsAfter c s.statistics r
    → IsExact (record s { statistics = r.1 })
calls-IsExact c s r q x a =
    let same : (k p : ℕ)
        → (table r.1 k p).connection_count ≡ (table s.statistics k p).connection_count =
      λ k p. a.counts k p ∙ count_after-quiet c s.statistics k p _ q in
    record {
      valid = a.valid;
      initialised = a.refines.1;
      known = x.known;
      shown = λ k p n.
          x.shown k p n
          ∙ sym (number_of-after c s.statistics k p n q)
          ∙ ap number_of (sym (a.refines.2 k p n));
      counted = λ k p. same k p ∙ x.counted k p;
      gauged = λ p. omega (arith, a.moves p, same (api_key_of c) p, x.gauged p);
    }
