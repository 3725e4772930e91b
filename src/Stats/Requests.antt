-- ===== src/Stats/Requests.antt =====
-- bordercontrol/lib/stats/stats_nats.go: the answers to requests for the statistics. An answer is
-- the structure that is marshalled into JSON; that a request is not answered is `none`.
pub mod Routing
pub mod Latest
pub mod Loops
pub mod Answers
pub mod Agreement
use bordercontrol.Prelude.{
  ℕ, String, Bool, true, false, List, [], ◌∷◌, ◌++◌, Option, none, some, Result, ok, err, map, ◌==◌,
  ◌||◌, ltb, if◌then◌else◌, codes,
}
use bordercontrol.GoMap.{Map, lookup}
use bordercontrol.FeedProtocol.{
  beast, mlat, protocol_name_beast, protocol_name_mlat, UnknownProtocol, number, to_upper, text_eq,
}
use bordercontrol.Stats.State.{ConnectionDetail, ProtocolDetail, FeederStats, Statistics}

-- What a metrics structure says of one protocol; `connected` is `send` of
-- `perFeederPerProtocolMetrics`.
pub record Newest : Type 0 where
  pub connected : Bool
  pub bytes_in : ℕ
  pub bytes_out : ℕ
  pub connection_time : ℕ

abbrev pub no_connection : Newest
no_connection = record { connected = false; bytes_in = 0; bytes_out = 0; connection_time = 0 }

-- `perFeederAllProtocolMetrics`
pub record AllProtocolMetrics : Type 0 where
  pub feeder_code : String
  pub label : String
  pub beast_metrics : Newest
  pub mlat_metrics : Newest
  pub send : Bool

abbrev pub feeders_prepared : FeederStats → AllProtocolMetrics
feeders_prepared f = record {
  feeder_code = f.code;
  label = f.label;
  beast_metrics = no_connection;
  mlat_metrics = no_connection;
  send = false;
}

-- The loops of `natsSubjFeedersMetricsHandler` over the BEAST connections of a feeder and over the MLAT
-- connections, each of which keeps the connection with the latest time.
unfoldable pub feeders_beast_loop : Map ConnectionDetail → AllProtocolMetrics → AllProtocolMetrics
feeders_beast_loop [] m = m
feeders_beast_loop ((n, c) ∷ cs) m =
    let taken = feeders_beast_loop cs (record m {
      beast_metrics = record {
        connected = true;
        bytes_in = c.bytes_in;
        bytes_out = c.bytes_out;
        connection_time = c.time_connected;
      };
      send = true;
    }) in
    let passed = feeders_beast_loop cs m in
    if ltb m.beast_metrics.connection_time c.time_connected then taken else passed

unfoldable pub feeders_mlat_loop : Map ConnectionDetail → AllProtocolMetrics → AllProtocolMetrics
feeders_mlat_loop [] m = m
feeders_mlat_loop ((n, c) ∷ cs) m =
    let taken = feeders_mlat_loop cs (record m {
      mlat_metrics = record {
        connected = true;
        bytes_in = c.bytes_in;
        bytes_out = c.bytes_out;
        connection_time = c.time_connected;
      };
      send = true;
    }) in
    let passed = feeders_mlat_loop cs m in
    if ltb m.mlat_metrics.connection_time c.time_connected then taken else passed

-- What it says of one feeder; a protocol may have no entry.
abbrev pub feeders_beast : Option ProtocolDetail → AllProtocolMetrics → AllProtocolMetrics
feeders_beast none m = m
feeders_beast (some d) m = feeders_beast_loop d.connection_details m

abbrev pub feeders_mlat : Option ProtocolDetail → AllProtocolMetrics → AllProtocolMetrics
feeders_mlat none m = m
feeders_mlat (some d) m = feeders_mlat_loop d.connection_details m

unfoldable pub feeders_feeder : FeederStats → AllProtocolMetrics
feeders_feeder f =
    feeders_mlat (lookup mlat f.connections)
      (feeders_beast (lookup beast f.connections) (feeders_prepared f))

-- `natsSubjFeedersMetricsHandler`
unfoldable pub feeders_metrics : Map FeederStats → Map AllProtocolMetrics
feeders_metrics [] = []
feeders_metrics ((k, f) ∷ fs) =
    let rest = feeders_metrics fs in
    let m = feeders_feeder f in if m.send then (k, m) ∷ rest else rest

-- The same loops of `natsSubjFeederMetricsAllProtocolsHandler`, which writes them out again.
unfoldable pub all_protocols_beast_loop :
    Map ConnectionDetail → AllProtocolMetrics → AllProtocolMetrics
all_protocols_beast_loop [] m = m
all_protocols_beast_loop ((n, c) ∷ cs) m =
    let taken = all_protocols_beast_loop cs (record m {
      beast_metrics = record {
        connected = true;
        bytes_in = c.bytes_in;
        bytes_out = c.bytes_out;
        connection_time = c.time_connected;
      };
      send = true;
    }) in
    let passed = all_protocols_beast_loop cs m in
    if ltb m.beast_metrics.connection_time c.time_connected then taken else passed

unfoldable pub all_protocols_mlat_loop :
    Map ConnectionDetail → AllProtocolMetrics → AllProtocolMetrics
all_protocols_mlat_loop [] m = m
all_protocols_mlat_loop ((n, c) ∷ cs) m =
    let taken = all_protocols_mlat_loop cs (record m {
      mlat_metrics = record {
        connected = true;
        bytes_in = c.bytes_in;
        bytes_out = c.bytes_out;
        connection_time = c.time_connected;
      };
      send = true;
    }) in
    let passed = all_protocols_mlat_loop cs m in
    if ltb m.mlat_metrics.connection_time c.time_connected then taken else passed

abbrev pub all_protocols_beast : Option ProtocolDetail → AllProtocolMetrics → AllProtocolMetrics
all_protocols_beast none m = m
all_protocols_beast (some d) m = all_protocols_beast_loop d.connection_details m

abbrev pub all_protocols_mlat : Option ProtocolDetail → AllProtocolMetrics → AllProtocolMetrics
all_protocols_mlat none m = m
all_protocols_mlat (some d) m = all_protocols_mlat_loop d.connection_details m

abbrev pub all_protocols_prepared : FeederStats → AllProtocolMetrics
all_protocols_prepared f = record {
  feeder_code = f.code;
  label = f.label;
  beast_metrics = no_connection;
  mlat_metrics = no_connection;
  send = false;
}

unfoldable pub all_protocols_feeder : FeederStats → AllProtocolMetrics
all_protocols_feeder f =
    all_protocols_mlat (lookup mlat f.connections)
      (all_protocols_beast (lookup beast f.connections) (all_protocols_prepared f))

-- `natsSubjFeederMetricsAllProtocolsHandler`
unfoldable pub feeder_metrics_all_protocols : Statistics → ℕ → Option AllProtocolMetrics
feeder_metrics_all_protocols s k = elim (lookup k s.feeders) [
  | none ↦ none
  | some f ↦ let m = all_protocols_feeder f in if m.send then some m else none
]

-- `perFeederPerProtocolMetrics`
pub record ProtocolMetrics : Type 0 where
  pub feeder_code : String
  pub label : String
  pub metrics : Newest

-- The loop of `natsSubjFeederMetricsHandler`, which also sets the code and the label.
unfoldable pub per_protocol_loop :
    FeederStats → Map ConnectionDetail → ProtocolMetrics → ProtocolMetrics
per_protocol_loop f [] m = m
per_protocol_loop f ((n, c) ∷ cs) m =
    let taken = per_protocol_loop f cs (record {
      feeder_code = f.code;
      label = f.label;
      metrics = record {
        connected = true;
        bytes_in = c.bytes_in;
        bytes_out = c.bytes_out;
        connection_time = c.time_connected;
      };
    }) in
    let passed = per_protocol_loop f cs m in
    if ltb m.metrics.connection_time c.time_connected then taken else passed

abbrev pub no_metrics : ProtocolMetrics
no_metrics = record { feeder_code = ""; label = ""; metrics = no_connection }

-- `natsSubjFeederMetricsHandler`
unfoldable pub feeder_metrics : Statistics → ℕ → ℕ → Option ProtocolMetrics
feeder_metrics s k p = elim (lookup k s.feeders) [
  | none ↦ none
  | some f ↦ elim (lookup p f.connections) [
    | none ↦ none
    | some d ↦
        let m = per_protocol_loop f d.connection_details no_metrics in
        if m.metrics.connected then some m else none
  ]
]

-- `natsSubjFeederConnectedHandler`: whether it answers "true". It has no other answer.
unfoldable pub feeder_connected : Statistics → ℕ → ℕ → Bool
feeder_connected s k p = elim (lookup k s.feeders) [
  | none ↦ false
  | some f ↦ elim (lookup p f.connections) [ none ↦ false | some d ↦ d.status ]
]
