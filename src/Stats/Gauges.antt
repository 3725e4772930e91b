-- ===== src/Stats/Gauges.antt =====
-- bordercontrol/lib/stats/stats_prom.go: the functions of the global gauges and counters. They sum
-- over the feeders as `float64`, which counts up to 2^53 one by one; here they are numbers.
pub mod Moves
use bordercontrol.Prelude.{ℕ, ◌+◌, suc, ◌==◌, List, [], ◌∷◌, if◌then◌else◌}
use bordercontrol.GoMap.{Map}
use bordercontrol.FeedProtocol.{beast, mlat}
use bordercontrol.Stats.State.{FeederStats, Statistics, protocol_at}

-- "connections", for a protocol.
unfoldable pub sum_connections : ℕ → Map FeederStats → ℕ
sum_connections p [] = 0
sum_connections p ((k, f) ∷ m) = (protocol_at f p).connection_count + sum_connections p m

unfoldable pub connections_gauge : ℕ → Statistics → ℕ
unfolding sum_connections
connections_gauge p s = sum_connections p s.feeders

-- "feeders_active", for a protocol.
unfoldable pub count_active : ℕ → Map FeederStats → ℕ
count_active p [] = 0
count_active p ((k, f) ∷ m) =
    let rest = count_active p m in if (protocol_at f p).status then suc rest else rest

unfoldable pub feeders_active_gauge : ℕ → Statistics → ℕ
unfolding count_active
feeders_active_gauge p s = count_active p s.feeders

-- "data_in_bytes_total" and "data_out_bytes_total", for the two protocols.
unfoldable pub data_in_counter : ℕ → Statistics → ℕ
data_in_counter p s = if p == beast then s.bytes_in_beast else s.bytes_in_mlat

unfoldable pub data_out_counter : ℕ → Statistics → ℕ
data_out_counter p s = if p == beast then s.bytes_out_beast else s.bytes_out_mlat
