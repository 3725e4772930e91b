-- ===== src/FeedProxy/Starting/Serving.antt =====
-- bordercontrol/lib/feedproxy/feedproxy_connections.go: the connections that several goroutines
-- serve, from their registration to the end of `ProxyConnection.Start`. A call of the statistics is
-- one step, though some hold `stats.mu` twice; Stats.Threads has the holds.
pub mod Lists
pub mod Exact
pub mod Begins
pub mod Ends
pub mod Agreement
use bordercontrol.Prelude.{
  ℕ, suc, ◌≡◌, List, [], ◌∷◌, ◌++◌, Option, none, some, Outcome, returns, ◌==◌, if◌then◌else◌,
}
use bordercontrol.Stats.State.{Statistics, StatsError, fresh}
use bordercontrol.Stats.Connections.{Connection}
use bordercontrol.Stats.Cases.{Reply}
use bordercontrol.Stats.Histories.{
  Call, registers_feeder, increments, registers, unregisters, evicts, reply,
}
use bordercontrol.Stats.Registering.{is_same}

-- The statistics, and the connections that are being served, the latest first.
pub record Serving : Type 0 where
  pub statistics : Statistics
  pub served : List Connection

-- How many of some connections have a feeder, a protocol and a number.
unfoldable pub times : ℕ → ℕ → ℕ → List Connection → ℕ
times k p n [] = 0
times k p n (c ∷ cs) = if is_same c k p n then suc (times k p n cs) else times k p n cs

-- How many have a protocol.
unfoldable pub in_protocol : ℕ → List Connection → ℕ
in_protocol p [] = 0
in_protocol p (c ∷ cs) = if c.proto == p then suc (in_protocol p cs) else in_protocol p cs

-- A connection that is not registered is not served.
abbrev pub serves : Option StatsError → Connection → List Connection → List Connection
serves none c cs = c ∷ cs
serves (some e) c cs = cs

-- A call that neither registers nor unregisters a connection.
abbrev pub IsQuiet : Call → Type 0
IsQuiet (registers conn connected now) = ⊥
IsQuiet (unregisters conn now) = ⊥
IsQuiet _ = Unit

-- A connection is registered, with a number that no other of its feeder and protocol has that is
-- served; one that is served ends and is unregistered; or any other call is made.
pub data Step (s : Serving) : Serving → Type 0 where
  begins :
      (conn : Connection) (connected now : ℕ) (r : Reply)
      → times conn.api_key conn.proto conn.conn_num s.served ≡ 0
      → reply (registers conn connected now) s.statistics ≡ returns r
      → Step s (record { statistics = r.1; served = serves r.0 conn s.served })
  ends :
      (xs ys : List Connection) (conn : Connection) (now : ℕ) (r : Reply)
      → s.served ≡ xs ++ conn ∷ ys
      → reply (unregisters conn now) s.statistics ≡ returns r
      → Step s (record { statistics = r.1; served = xs ++ ys })
  calls :
      (c : Call) (r : Reply)
      → IsQuiet c
      → reply c s.statistics ≡ returns r
      → Step s (record s { statistics = r.1 })

abbrev pub first : Serving
first = record { statistics = fresh; served = [] }

pub data Reach : Serving → Type 0 where
  start : Reach first
  later : {s t : Serving} → Reach s → Step s t → Reach t
