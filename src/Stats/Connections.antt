-- ===== src/Stats/Connections.antt =====
-- bordercontrol/lib/stats/stats.go: a connection is registered and unregistered.
use bordercontrol.Prelude.{
  ℕ, ltb, String, true, List, ◌∷◌, Option, none, some, ok, err, Outcome, returns, panics, ◌==◌,
  if◌then◌else◌, length,
}
use bordercontrol.GoMap.{lookup, insert, delete}
use bordercontrol.FeedProtocol.{beast, mlat, number, get_name, is_valid}
use bordercontrol.Stats.State.{
  FeederStats, ConnectionDetail, ProtocolDetail, delete_in, delete_out, Statistics, StatsError,
  not_initialised, conn_num_not_found, unknown_protocol, feeder_at, protocol_at,
}
use bordercontrol.Stats.Feeders.{init_feeder_stats, prom_labels, with_connection}

-- The addresses are the texts of two `net.Addr`. `UnregisterConnection` panics on one that is nil,
-- which is left out: the program passes those of open connections, which have an address.
pub record Connection : Type 0 where
  pub api_key : ℕ
  pub src_addr : String
  pub dst_addr : String
  pub proto : ℕ
  pub feeder_code : String
  pub conn_num : ℕ

-- `c` of `RegisterConnection`
abbrev pub new_connection : Connection → ℕ → ConnectionDetail
new_connection conn now = record {
  src = conn.src_addr;
  dst = conn.dst_addr;
  time_connected = now;
  bytes_in = 0;
  bytes_out = 0;
}

-- `pd`, after the connection has been written. The test that the map is not empty is the source's.
abbrev pub connected_detail : ProtocolDetail → Connection → ℕ → ProtocolDetail
connected_detail d conn connected =
    let details = insert conn.conn_num (new_connection conn connected) d.connection_details in
    let written = record d { connection_details = details } in
    if ltb 0 (length details)
    then record written {
      status = true;
      most_recent_connection = connected;
      connection_count = length details;
    }
    else written

-- `RegisterConnection` from its own `stats.mu.Lock()` on. Without the feeder or its protocol the
-- write goes to a nil map, which panics.
unfoldable pub add_connection : Connection → ℕ → ℕ → Statistics → Outcome Statistics
add_connection conn connected now s = elim (lookup conn.api_key s.feeders) [
  | none ↦ panics
  | some f ↦ elim (lookup conn.proto f.connections) [
    | none ↦ panics
    | some d ↦
        let f' = record (with_connection f conn.proto (connected_detail d conn connected)) {
          time_updated = now;
        } in
        returns (record s { feeders = insert conn.api_key f' s.feeders })
  ]
]

abbrev succeeded : Outcome Statistics → Outcome (Option StatsError × Statistics)
succeeded (returns s) = returns (none, s)
succeeded panics = panics

unfoldable pub register_connection :
    Connection → ℕ → ℕ → Statistics → Outcome (Option StatsError × Statistics)
register_connection conn connected now s =
    if s.initialised
    then (if is_valid conn.proto
        then succeeded (add_connection conn connected now (init_feeder_stats conn.api_key s))
        else returns (some (unknown_protocol (number conn.proto)), s))
    else returns (some not_initialised, s)

-- `c`, after the connection has been deleted.
abbrev pub disconnected_detail : ProtocolDetail → ℕ → ProtocolDetail
disconnected_detail d n =
    let details = delete n d.connection_details in
    record d {
      connection_details = details;
      connection_count = length details;
      status = ltb 0 (length details);
    }

-- The end of `UnregisterConnection`: a feeder with no connection is deleted.
abbrev pub drop_idle_feeder : ℕ → Statistics → Statistics
drop_idle_feeder k s =
    if (protocol_at (feeder_at s k) beast).connection_count == 0
    then (if (protocol_at (feeder_at s k) mlat).connection_count == 0
        then record s { feeders = delete k s.feeders }
        else s)
    else s

-- `UnregisterConnection` from its own `stats.mu.Lock()` on, with `f` the feeder and `d` the protocol
-- that its reads find.
unfoldable pub remove_from :
    Connection → ℕ → Statistics → FeederStats → ProtocolDetail → Option StatsError × Statistics
remove_from conn now s f d = elim (lookup conn.conn_num d.connection_details) [
  | none ↦ (some conn_num_not_found, s)
  | some c ↦
      let f' = record (with_connection f conn.proto (disconnected_detail d conn.conn_num)) {
        time_updated = now;
      } in
      (
        none,
        drop_idle_feeder conn.api_key (record s { feeders = insert conn.api_key f' s.feeders }),
      )
]

-- A missing feeder or protocol has no connection numbers.
unfoldable pub remove_connection : Connection → ℕ → Statistics → Option StatsError × Statistics
remove_connection conn now s =
    let f = feeder_at s conn.api_key in remove_from conn now s f (protocol_at f conn.proto)

-- The counters of the connection are deleted before it is looked for.
abbrev pub delete_counters : Connection → List ℕ → Statistics → Statistics
delete_counters conn name s =
    let labels = prom_labels conn.api_key conn.conn_num conn.feeder_code name in
    record s { prom_calls = delete_out labels ∷ delete_in labels ∷ s.prom_calls }

unfoldable pub unregister_connection : Connection → ℕ → Statistics → Option StatsError × Statistics
unregister_connection conn now s =
    if s.initialised
    then elim (get_name conn.proto) [
      | err e ↦ (some (unknown_protocol e), s)
      | ok name ↦
          remove_connection conn now (delete_counters conn name (init_feeder_stats conn.api_key s))
    ]
    else (some not_initialised, s)
