-- ===== src/FeedProxy/Starting/Numbered.antt =====
-- bordercontrol/lib/feedproxy/feedproxy_connections.go and bordercontrol/lib/listener/listener.go:
-- connections of several goroutines, from the number that a connection is given to its end. A call of
-- the statistics is one step, though some hold `stats.mu` twice; Stats.Threads has the holds.
pub mod Free
pub mod Agreement
use bordercontrol.Prelude.{
  ℕ, suc, ◌+◌, ◌<◌, ◌≡◌, List, [], ◌∷◌, ◌++◌, Option, some, Outcome, returns, ◌==◌, length,
  if◌then◌else◌,
}
use bordercontrol.Stats.Connections.{Connection}
use bordercontrol.Stats.Cases.{Reply}
use bordercontrol.Stats.Histories.{
  Call, registers_feeder, increments, registers, unregisters, evicts, reply,
}
use bordercontrol.FeedProxy.Tracker.{
  IncomingConnection, IncomingConnectionTracker, get_num, uint_mod,
}
use bordercontrol.FeedProxy.Starting.Serving.{Serving, serves, IsQuiet}
use bordercontrol.FeedProxy.Starting.Serving as Serve

-- The tracker, the numbers of the connections that are not registered yet, and those that are
-- served.
pub record Numbered : Type 0 where
  pub tracker : IncomingConnectionTracker
  pub pending : List ℕ
  pub serving : Serving

abbrev pub with_tracked :
    List IncomingConnection → IncomingConnectionTracker → IncomingConnectionTracker
with_tracked cs t = record t { connections = cs }

-- A connection is accepted and gets a number; `check` and `evict` change the connections that are
-- tracked; one is refused or fails before it is registered; one is registered, ends, or any other
-- call of the statistics is made.
pub data Step (s : Numbered) : Numbered → Type 0 where
  accepts :
      (n : ℕ) (t : IncomingConnectionTracker)
      → s.tracker.connection_number + suc (length s.tracker.connections) < uint_mod
      → get_num s.tracker ≡ some (n, t)
      → Step s (record s { tracker = t; pending = n ∷ s.pending })
  tracks :
      (cs : List IncomingConnection) → Step s (record s { tracker = with_tracked cs s.tracker })
  drops :
      (xs ys : List ℕ) (n : ℕ) → s.pending ≡ xs ++ n ∷ ys → Step s (record s { pending = xs ++ ys })
  begins :
      (xs ys : List ℕ) (conn : Connection) (connected now : ℕ) (r : Reply)
      → s.pending ≡ xs ++ conn.conn_num ∷ ys
      → reply (registers conn connected now) s.serving.statistics ≡ returns r
      → Step s (record s {
        pending = xs ++ ys;
        serving = record { statistics = r.1; served = serves r.0 conn s.serving.served };
      })
  ends :
      (xs ys : List Connection) (conn : Connection) (now : ℕ) (r : Reply)
      → s.serving.served ≡ xs ++ conn ∷ ys
      → reply (unregisters conn now) s.serving.statistics ≡ returns r
      → Step s (record s { serving = record { statistics = r.1; served = xs ++ ys } })
  calls :
      (c : Call) (r : Reply)
      → IsQuiet c
      → reply c s.serving.statistics ≡ returns r
      → Step s (record s { serving = record s.serving { statistics = r.1 } })

abbrev pub first : Numbered
first = record {
  tracker = record { connections = []; connection_number = 0 };
  pending = [];
  serving = Serve.first;
}

-- The states that steps lead to, while the numbers fit a uint.
pub data Reach : Numbered → Type 0 where
  start : Reach first
  later : {s t : Numbered} → Reach s → Step s t → Reach t
