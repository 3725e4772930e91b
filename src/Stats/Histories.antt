-- ===== src/Stats/Histories.antt =====
-- Sequences of calls of the statistics subsystem, one after the other.
use bordercontrol.Prelude.{ℕ, ◌≡◌, refl, ◌∙◌, List, [], ◌∷◌, none, Outcome, returns, panics}
use bordercontrol.Stats.State.{Statistics, fresh}
use bordercontrol.Stats.Feeders.{
  FeederDetails, register_feeder, Increment, increment_byte_counters, stats_evictor_inner,
}
use bordercontrol.Stats.Connections.{Connection, register_connection, unregister_connection}
use bordercontrol.Stats.Cases.{Reply}
use bordercontrol.Stats.Init.{fresh-IsValid}
use bordercontrol.Stats.Invariant.{IsValid}
use bordercontrol.Stats.Preserves.{
  IsValidAfter, register_feeder-IsValid, increment_byte_counters-IsValid,
  register_connection-IsValid, unregister_connection-IsValid,
}
use bordercontrol.Stats.Evictor.{stats_evictor_inner_lem}

-- A call with its arguments and the times that it reads; the addresses of a connection are not nil.
pub data Call : Type 0 where
  registers_feeder : FeederDetails → ℕ → Call
  increments : Increment → ℕ → Call
  registers : Connection → ℕ → ℕ → Call
  unregisters : Connection → ℕ → Call
  evicts : ℕ → Call

unfoldable pub reply : Call → Statistics → Outcome Reply
reply (registers_feeder d now) s = returns (register_feeder d now s)
reply (increments i now) s = increment_byte_counters i now s
reply (registers conn connected now) s = register_connection conn connected now s
reply (unregisters conn now) s = returns (unregister_connection conn now s)
reply (evicts now) s = returns (none, stats_evictor_inner now s)

-- A panic ends the program.
unfoldable pub run : List Call → Statistics → Outcome Statistics
run [] s = returns s
run (c ∷ cs) s = elim (reply c s) [ returns r ↦ run cs r.1 | panics ↦ panics ]

pub reply-IsValid : (c : Call) (s : Statistics) → IsValid s → IsValidAfter (reply c s)
unfolding reply
reply-IsValid (registers_feeder d now) s v = register_feeder-IsValid d now s v
reply-IsValid (increments i now) s v = increment_byte_counters-IsValid i now s v
reply-IsValid (registers conn connected now) s v =
    register_connection-IsValid conn connected now s v
reply-IsValid (unregisters conn now) s v = unregister_connection-IsValid conn now s v
reply-IsValid (evicts now) s v = rw (stats_evictor_inner_lem now s v) v

pub Outcome-cases :
    (o : Outcome Reply) → IsValidAfter o → (r : Reply) × (o ≡ returns r) × IsValid r.1
Outcome-cases (returns r) v = (r, refl, v)
Outcome-cases panics v = absurd v

pub run-cons :
    (c : Call) (cs : List Call) (s : Statistics) (r : Reply)
    → reply c s ≡ returns r
    → run (c ∷ cs) s ≡ run cs r.1
unfolding run
run-cons c cs s r e = rw (e, run)

-- No sequence of calls panics, and each ends in a valid state.
run-IsValid :
    (cs : List Call) (s : Statistics)
    → IsValid s
    → (t : Statistics) × (run cs s ≡ returns t) × IsValid t
unfolding run
run-IsValid [] s v = (s, refl, v)
run-IsValid (c ∷ cs) s v =
    let (r, e, vr) = Outcome-cases (reply c s) (reply-IsValid c s v) in
    let (t, h, vt) = run-IsValid cs r.1 vr in (t, run-cons c cs s r e ∙ h, vt)

-- From the state that `Init` leaves, no sequence of calls on connections whose two addresses are
-- not nil panics, whatever their other arguments and in whatever order, and it ends in a valid
-- state.
pub run-fresh-IsValid : (cs : List Call) → (t : Statistics) × (run cs fresh ≡ returns t) × IsValid t
run-fresh-IsValid cs = run-IsValid cs fresh fresh-IsValid
