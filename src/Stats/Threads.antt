-- ===== src/Stats/Threads.antt =====
-- bordercontrol/lib/stats/stats.go: calls from several goroutines. `RegisterFeeder`,
-- `RegisterConnection` and `UnregisterConnection` hold `stats.mu` twice, and other calls may run in
-- between; what is done under one hold is one step, and so is the deletion of the counters of
-- Prometheus just before the second hold.
pub mod Calls
pub mod Linearizable
use bordercontrol.Prelude.{
  ℕ, ◌≡◌, ◌≢◌, Bool, true, false, List, [], ◌∷◌, Option, none, some, ok, err, Outcome, returns,
  panics, ◌==◌, if◌then◌else◌,
}
use bordercontrol.GoMap.{lookup}
use bordercontrol.FeedProtocol.{is_valid, get_name, UnknownProtocol}
use bordercontrol.Stats.State.{Statistics, StatsError, unknown_protocol, fresh}
use bordercontrol.Stats.Feeders.{init_feeder_stats, set_feeder_details, FeederDetails, Increment}
use bordercontrol.Stats.Connections.{Connection, add_connection, remove_connection, delete_counters}
use bordercontrol.Stats.Cases.{Reply}
use bordercontrol.Stats.Histories.{
  Call, registers_feeder, increments, registers, unregisters, evicts, reply,
}
use bordercontrol.Stats.Refinement.{is_ok}

-- The feeder that a call is for.
abbrev pub feeder_of : Call → ℕ
feeder_of (registers_feeder d now) = d.api_key
feeder_of (increments i now) = i.api_key
feeder_of (registers conn connected now) = conn.api_key
feeder_of (unregisters conn now) = conn.api_key
feeder_of (evicts now) = 0

-- Whether a call gets to its second hold of `stats.mu`, in an initialised package.
abbrev pub locks_twice : Call → Bool
locks_twice (registers_feeder d now) = true
locks_twice (registers conn connected now) = is_valid conn.proto
locks_twice (unregisters conn now) = is_valid conn.proto
locks_twice (increments i now) = false
locks_twice (evicts now) = false

abbrev pub added : Outcome Statistics → Outcome Reply
added (returns s) = returns (none, s)
added panics = panics

-- What a call does after `initFeederStats`.
unfoldable pub finish : Call → Statistics → Outcome Reply
finish (registers_feeder d now) s = returns (none, set_feeder_details d now s)
finish (registers conn connected now) s = added (add_connection conn connected now s)
finish (unregisters conn now) s = elim (get_name conn.proto) [
  | err e ↦ returns (some (unknown_protocol e), s)
  | ok name ↦ returns (remove_connection conn now (delete_counters conn name s))
]
finish (increments i now) s = reply (increments i now) s
finish (evicts now) s = reply (evicts now) s

-- The statistics, the call that each goroutine has half done, and the calls that are done, with
-- whether they returned no error, newest first.
pub record System : Type 0 where
  pub statistics : Statistics
  pub half_done : ℕ → Option Call
  pub finished : List (Call × Bool)

abbrev pub update : (ℕ → Option Call) → ℕ → Option Call → ℕ → Option Call
update f i c j = if j == i then c else f j

abbrev pub after_call : Call → Reply → (ℕ → Option Call) → System → System
after_call c r half s = record {
  statistics = r.1;
  half_done = half;
  finished = (c, is_ok r.0) ∷ s.finished;
}

-- A goroutine runs `initFeederStats`; it goes on to its end; or it makes a call with one hold.
pub data Step (s : System) : System → Type 0 where
  begins :
      (i : ℕ) (c : Call)
      → locks_twice c ≡ true
      → s.half_done i ≡ none
      → Step s (record s {
        statistics = init_feeder_stats (feeder_of c) s.statistics;
        half_done = update s.half_done i (some c);
      })
  finishes :
      (i : ℕ) (c : Call) (r : Reply)
      → s.half_done i ≡ some c
      → finish c s.statistics ≡ returns r
      → Step s (after_call c r (update s.half_done i none) s)
  at_once :
      (c : Call) (r : Reply)
      → locks_twice c ≡ false
      → reply c s.statistics ≡ returns r
      → Step s (after_call c r s.half_done s)

-- No goroutine but `i` has half done a call for a feeder.
abbrev pub IsAlone : System → ℕ → ℕ → Type 0
IsAlone s i k = (j : ℕ) (c : Call) → s.half_done j ≡ some c → j ≢ i → feeder_of c ≢ k

-- A call that deletes its feeder ends while no other has half done one for it.
abbrev pub IsCalm : {s t : System} → Step s t → Type 0
IsCalm {s} (begins i c twice free) = Unit
IsCalm {s} (finishes i c r half done) =
    lookup (feeder_of c) r.1.feeders ≡ none → IsAlone s i (feeder_of c)
IsCalm {s} (at_once c r once done) = Unit

abbrev pub first : System
first = record { statistics = fresh; half_done = λ i. none; finished = [] }

-- The states that calm steps lead to.
pub data Reach : System → Type 0 where
  start : Reach first
  later : {s t : System} → Reach s → (step : Step s t) → IsCalm step → Reach t
