-- ===== src/Stats/Registering.antt =====
-- What `RegisterConnection` does to the registered connections.
use bordercontrol.Prelude.{
  ℕ, ◌≡◌, refl, true, none, some, ◌==◌, ◌&&◌, if◌then◌else◌, arith, Bool, returns, panics, Outcome,
}
use bordercontrol.GoMap.{lookup}
use bordercontrol.GoMap.Laws.{get_or-lookup, lookup-insert}
use bordercontrol.FeedProtocol.{is_valid}
use bordercontrol.Stats.State.{
  ProtocolDetail, FeederStats, Statistics, zero_protocol_detail, zero_feeder_stats,
}
use bordercontrol.Stats.Feeders.{init_feeder_stats}
use bordercontrol.Stats.Connections.{
  Connection, new_connection, connected_detail, register_connection,
}
use bordercontrol.Stats.Cases.{Reply, register_cases, connected_feeder}
use bordercontrol.Stats.Invariant.{IsValid}
use bordercontrol.Stats.Connected.{table, connection_of, table-init_feeder_stats, table-put_feeder}

-- Whether a connection has this key, protocol and number.
abbrev pub is_same : Connection → ℕ → ℕ → ℕ → Bool
is_same conn k p n = (conn.api_key == k && conn.proto == p) && conn.conn_num == n

-- The registered connections after one has been written over whatever was under its number.
abbrev pub Registered : Connection → ℕ → Statistics → Outcome Reply → Type 0
Registered conn connected s (returns (e, t)) =
    (e ≡ none)
    × ((k p n : ℕ)
        → connection_of t k p n ≡ (
            if is_same conn k p n
            then some (new_connection conn connected)
            else connection_of s k p n))
Registered conn connected s panics = ⊥

-- The table that is found after `initFeederStats` is the one that was there, or empty.
pub table-found :
    (k p : ℕ) (s : Statistics) {f : FeederStats} {d : ProtocolDetail}
    → lookup k (init_feeder_stats k s).feeders ≡ some f
    → lookup p f.connections ≡ some d
    → table s k p ≡ d
table-found k p s {f} {d} hf hd = rw (← table-init_feeder_stats k k p s) (
    rw (get_or-lookup zero_feeder_stats k (init_feeder_stats k s).feeders hf)
      (get_or-lookup zero_protocol_detail p f.connections hd))

lookup-connected_detail :
    (d : ProtocolDetail) (conn : Connection) (connected n : ℕ)
    → lookup n (connected_detail d conn connected).connection_details ≡ (
        if conn.conn_num == n
        then some (new_connection conn connected)
        else lookup n d.connection_details)
lookup-connected_detail d conn connected n =
    ground
      (arith, lookup-insert conn.conn_num n (new_connection conn connected) d.connection_details)

-- On a valid, initialised state a connection with a valid protocol is registered: the call returns
-- no error, the connection has its addresses, its time and zero counters, and every other
-- connection is as before.
pub register-connection_of :
    (conn : Connection) (connected now : ℕ) (s : Statistics)
    → IsValid s
    → s.initialised ≡ true
    → is_valid conn.proto ≡ true
    → Registered conn connected s (register_connection conn connected now s)
register-connection_of conn connected now s v init known =
    register_cases (Registered conn connected s) conn connected now s v
      (λ e refused. absurd (refused init known))
      λ f d _ found. (
        refl,
        λ k p n.
            rw
              (table-put_feeder conn.api_key conn.proto f (connected_feeder f d conn connected now)
                (connected_detail d conn connected) (init_feeder_stats conn.api_key s) k p found.1
                refl)
              (ground (
                arith,
                lookup-connected_detail d conn connected n,
                table-init_feeder_stats conn.api_key k p s,
                table-found conn.api_key conn.proto s found.1 found.2,
              )),
      )
