-- ===== src/Stats/State.antt =====
-- bordercontrol/lib/stats/stats.go: the data of the statistics subsystem. Times are nanoseconds
-- since Go's zero time, addresses and labels are opaque texts, API keys are the UUIDs as numbers.
use bordercontrol.Prelude.{ℕ, ◌^◌, String, Bool, true, false, List, []}
use bordercontrol.GoMap.{Map, get_or}
use bordercontrol.FeedProtocol.{UnknownProtocol}

-- `uint64` arithmetic is modulo this.
abbrev pub uint64_mod : ℕ
uint64_mod = 2 ^ 64

-- `time.Second`
abbrev pub second : ℕ
second = 1_000_000_000

pub record ConnectionDetail : Type 0 where
  pub src : String
  pub dst : String
  pub time_connected : ℕ
  pub bytes_in : ℕ
  pub bytes_out : ℕ

pub record ProtocolDetail : Type 0 where
  pub status : Bool
  pub connection_count : ℕ
  pub most_recent_connection : ℕ
  pub connection_details : Map ConnectionDetail

pub record FeederStats : Type 0 where
  pub label : String
  pub code : String
  pub connections : Map ProtocolDetail
  pub time_updated : ℕ

-- The labels of the per-feeder counters; the protocol is in small letters.
pub record PromLabels : Type 0 where
  pub protocol : List ℕ
  pub uuid : ℕ
  pub connnum : ℕ
  pub feeder_code : String

-- The calls made to `promFeederDataInBytesTotal` and `promFeederDataOutBytesTotal`.
pub data PromCall : Type 0 where
  add_in add_out : PromLabels → ℕ → PromCall
  delete_in delete_out : PromLabels → PromCall

-- `Statistics`, with the package's `initialised` and the calls made to the counters, newest first.
pub record Statistics : Type 0 where
  pub initialised : Bool
  pub feeders : Map FeederStats
  pub bytes_in_beast : ℕ
  pub bytes_out_beast : ℕ
  pub bytes_in_mlat : ℕ
  pub bytes_out_mlat : ℕ
  pub prom_calls : List PromCall

pub data StatsError : Type 0 where
  api_key_not_found not_initialised already_initialised proto_not_found : StatsError
  conn_num_not_found : StatsError
  unknown_protocol : UnknownProtocol → StatsError

-- Go's zero values.
abbrev pub zero_protocol_detail : ProtocolDetail
zero_protocol_detail = record {
  status = false;
  connection_count = 0;
  most_recent_connection = 0;
  connection_details = [];
}

abbrev pub zero_feeder_stats : FeederStats
zero_feeder_stats = record { label = ""; code = ""; connections = []; time_updated = 0 }

-- `stats.Feeders[k]` and `stats.Feeders[k].Connections[p]`
abbrev pub feeder_at : Statistics → ℕ → FeederStats
feeder_at s k = get_or zero_feeder_stats k s.feeders

abbrev pub protocol_at : FeederStats → ℕ → ProtocolDetail
protocol_at f p = get_or zero_protocol_detail p f.connections

-- `stats` when `Init` has run.
abbrev pub fresh : Statistics
fresh = record {
  initialised = true;
  feeders = [];
  bytes_in_beast = 0;
  bytes_out_beast = 0;
  bytes_in_mlat = 0;
  bytes_out_mlat = 0;
  prom_calls = [];
}
