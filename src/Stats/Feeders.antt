-- ===== src/Stats/Feeders.antt =====
-- bordercontrol/lib/stats/stats.go: the operations on feeders, and the byte counters. What a
-- function does under one hold of `stats.mu` is a function of its own, so that two calls can be
-- interleaved.
use bordercontrol.Prelude.{
  ℕ, ◌+◌, ◌-◌, ◌*◌, ◌%◌, String, List, [], ◌∷◌, Option, none, some, Result, ok, err, Outcome,
  returns, panics, map, ◌==◌, ltb, if◌then◌else◌, length,
}
use bordercontrol.GoMap.{Map, lookup, get_or, insert, delete}
use bordercontrol.FeedProtocol.{beast, mlat, get_name, to_lower}
use bordercontrol.Stats.State.{
  ConnectionDetail, ProtocolDetail, FeederStats, PromLabels, add_in, add_out, Statistics,
  StatsError, api_key_not_found, not_initialised, proto_not_found, conn_num_not_found,
  zero_protocol_detail, zero_feeder_stats, feeder_at, protocol_at, uint64_mod, second,
}

unfoldable pub get_num_connections : Statistics → ℕ → ℕ → Result StatsError ℕ
unfolding get_or
get_num_connections s k p =
    if s.initialised
    then ok (protocol_at (feeder_at s k) p).connection_count
    else err not_initialised

-- A new feeder has an entry for each protocol, with no connection.
abbrev pub new_feeder_stats : FeederStats
new_feeder_stats = record zero_feeder_stats {
  connections = (beast, zero_protocol_detail) ∷ (mlat, zero_protocol_detail) ∷ [];
}

unfoldable pub init_feeder_stats : ℕ → Statistics → Statistics
init_feeder_stats k s = elim (lookup k s.feeders) [
  | none ↦ record s { feeders = insert k new_feeder_stats s.feeders }
  | some f ↦ s
]

pub record FeederDetails : Type 0 where
  pub label : String
  pub feeder_code : String
  pub api_key : ℕ

-- `RegisterFeeder` from its own `stats.mu.Lock()` on.
unfoldable pub set_feeder_details : FeederDetails → ℕ → Statistics → Statistics
unfolding get_or
set_feeder_details d now s =
    let y = record (feeder_at s d.api_key) {
      label = d.label;
      code = d.feeder_code;
      time_updated = now;
    } in
    record s { feeders = insert d.api_key y s.feeders }

unfoldable pub register_feeder : FeederDetails → ℕ → Statistics → Option StatsError × Statistics
register_feeder d now s =
    if s.initialised
    then (none, set_feeder_details d now (init_feeder_stats d.api_key s))
    else (some not_initialised, s)

-- The switch on the protocol at the end of `IncrementByteCounters`.
unfoldable pub add_global_bytes : ℕ → ℕ → ℕ → Statistics → Statistics
add_global_bytes p i o s =
    if p == beast
    then record s {
      bytes_in_beast = (s.bytes_in_beast + i) % uint64_mod;
      bytes_out_beast = (s.bytes_out_beast + o) % uint64_mod;
    }
    else if p == mlat
    then record s {
      bytes_in_mlat = (s.bytes_in_mlat + i) % uint64_mod;
      bytes_out_mlat = (s.bytes_out_mlat + o) % uint64_mod;
    }
    else s

abbrev pub prom_labels : ℕ → ℕ → String → List ℕ → PromLabels
prom_labels k n c name = record {
  protocol = map to_lower name;
  uuid = k;
  connnum = n;
  feeder_code = c;
}

-- One call of `IncrementByteCounters`: the feeder, the connection, and the bytes.
pub record Increment : Type 0 where
  pub api_key : ℕ
  pub conn_num : ℕ
  pub proto : ℕ
  pub bytes_in : ℕ
  pub bytes_out : ℕ

-- The counters of a connection that was found.
abbrev pub add_bytes : Increment → ConnectionDetail → ConnectionDetail
add_bytes i c = record c {
  bytes_in = (c.bytes_in + i.bytes_in) % uint64_mod;
  bytes_out = (c.bytes_out + i.bytes_out) % uint64_mod;
}

abbrev pub with_connection : FeederStats → ℕ → ProtocolDetail → FeederStats
with_connection f p d = record f { connections = insert p d f.connections }

-- The rest of `IncrementByteCounters`, once feeder `y`, protocol `d` and connection `c` are found.
-- `proto.Name()` panics for a number that is no protocol.
unfoldable pub increment_found :
    Increment
    → ℕ
    → Statistics
    → FeederStats
    → ProtocolDetail
    → ConnectionDetail
    → Outcome (Option StatsError × Statistics)
increment_found i now s y d c =
    let d' = record d {
      connection_details = insert i.conn_num (add_bytes i c) d.connection_details;
    } in
    let y' = record y { connections = insert i.proto d' y.connections; time_updated = now } in
    elim (get_name i.proto) [
      | err e ↦ panics
      | ok name ↦
          let labels = prom_labels i.api_key i.conn_num y.code name in
          let counted = add_global_bytes i.proto i.bytes_in i.bytes_out s in
          returns (
            none,
            record counted {
              feeders = insert i.api_key y' s.feeders;
              prom_calls = add_out labels i.bytes_out ∷ add_in labels i.bytes_in ∷ s.prom_calls;
            },
          )
    ]

unfoldable pub increment_byte_counters :
    Increment → ℕ → Statistics → Outcome (Option StatsError × Statistics)
increment_byte_counters i now s = elim (lookup i.api_key s.feeders) [
  | none ↦ returns (some api_key_not_found, s)
  | some y ↦ elim (lookup i.proto y.connections) [
    | none ↦ returns (some proto_not_found, s)
    | some d ↦ elim (lookup i.conn_num d.connection_details) [
      | none ↦ returns (some conn_num_not_found, s)
      | some c ↦ increment_found i now s y d c
    ]
  ]
]

-- The feeders that `statsEvictorInner` collects in `toEvict`, in the order of the map.
unfoldable pub stale_feeders : ℕ → Map FeederStats → List ℕ
stale_feeders now [] = []
stale_feeders now ((k, f) ∷ m) =
    let rest = stale_feeders now m in
    if length f.connections == 0
    then (if ltb (60 * second) (now - f.time_updated) then k ∷ rest else rest)
    else rest

unfoldable pub delete_all : List ℕ → Map FeederStats → Map FeederStats
delete_all [] m = m
delete_all (k ∷ ks) m = delete_all ks (delete k m)

unfoldable pub stats_evictor_inner : ℕ → Statistics → Statistics
unfolding stale_feeders delete_all
stats_evictor_inner now s = record s {
  feeders = delete_all (stale_feeders now s.feeders) s.feeders;
}
