-- ===== src/FeedProxy/Starting/Threads.antt =====
-- bordercontrol/lib/feedproxy/feedproxy_connections.go: connections of several goroutines, between
-- the test of the limit for a feeder and a protocol, and their registration. A call of the
-- statistics is one step, though some hold `stats.mu` twice; Stats.Threads has the holds.
pub mod Bound
pub mod Tight
use bordercontrol.Prelude.{
  ℕ, suc, ◌≤◌, ◌≡◌, Bool, false, List, [], ◌∷◌, ◌++◌, Option, none, Result, ok, Outcome, returns,
  if◌then◌else◌,
}
use bordercontrol.Stats.State.{Statistics, StatsError, fresh}
use bordercontrol.Stats.Feeders.{get_num_connections}
use bordercontrol.Stats.Connections.{Connection}
use bordercontrol.Stats.Cases.{Reply}
use bordercontrol.Stats.Counting.{is_table}
use bordercontrol.Stats.Histories.{
  Call, registers_feeder, increments, registers, unregisters, evicts, reply,
}
use bordercontrol.FeedProxy.Starting.{exceeds_limit}

-- The statistics, and the connections that are within the limit and not yet registered, the latest
-- first.
pub record Passing : Type 0 where
  pub statistics : Statistics
  pub passed : List Connection

-- A call that registers no connection.
abbrev pub IsOther : Call → Type 0
IsOther (registers conn connected now) = ⊥
IsOther _ = Unit

-- A connection asks for the number of connections and is within the limit; it is registered; or its
-- container cannot be dialled, or its first bytes not written. Any other call is made.
pub data Step (s : Passing) : Passing → Type 0 where
  passes :
      (conn : Connection) (k : ℕ)
      → get_num_connections s.statistics conn.api_key conn.proto ≡ ok k
      → exceeds_limit k ≡ false
      → Step s (record s { passed = conn ∷ s.passed })
  is_registered :
      (xs ys : List Connection) (conn : Connection) (connected now : ℕ) (r : Reply)
      → s.passed ≡ xs ++ conn ∷ ys
      → reply (registers conn connected now) s.statistics ≡ returns r
      → Step s (record { statistics = r.1; passed = xs ++ ys })
  gives_up :
      (xs ys : List Connection) (conn : Connection)
      → s.passed ≡ xs ++ conn ∷ ys
      → Step s (record s { passed = xs ++ ys })
  calls :
      (c : Call) (r : Reply)
      → IsOther c
      → reply c s.statistics ≡ returns r
      → Step s (record s { statistics = r.1 })

-- How many connections of a feeder and a protocol are within the limit and not yet registered.
unfoldable pub between : ℕ → ℕ → List Connection → ℕ
between k p [] = 0
between k p (c ∷ cs) = if is_table c k p then suc (between k p cs) else between k p cs

abbrev pub first : Passing
first = record { statistics = fresh; passed = [] }

-- The states that steps lead to while at most `g` connections of a feeder and a protocol are
-- between the test and their registration.
pub data Reach (g k p : ℕ) : Passing → Type 0 where
  start : Reach g k p first
  later : {s t : Passing} → Reach g k p s → Step s t → between k p t.passed ≤ g → Reach g k p t
