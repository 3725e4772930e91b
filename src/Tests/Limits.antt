-- ===== src/Tests/Limits.antt =====
-- Connections that pass the limit for a feeder and a protocol.
use bordercontrol.Prelude.{◌≡◌, ◌≤◌, refl, [], ok, arith}
use bordercontrol.GoMap.{lookup, insert, get_or}
use bordercontrol.FeedProtocol.{is_valid, beast, mlat}
use bordercontrol.Stats.Feeders.{init_feeder_stats, get_num_connections}
use bordercontrol.Stats.Connections.{add_connection, register_connection}
use bordercontrol.Stats.Histories.{reply}
use bordercontrol.FeedProxy.Starting.Threads.{
  Passing, passes, is_registered, between, Reach, start, later,
}
use bordercontrol.FeedProxy.Starting.Threads.Bound.{Reach-num_connections}
use bordercontrol.FeedProxy.Starting.Threads.Tight.{Reach-num_connections-IsTight}
use bordercontrol.Tests.Stats.{conn}

-- One connection is within the limit, and is then registered.
one_connected :
    (s : Passing) × Reach 1 7 beast s × (get_num_connections s.statistics 7 beast ≡ ok 1)
unfolding reply register_connection is_valid init_feeder_stats add_connection lookup insert get_or
    get_num_connections between
one_connected = (
  _,
  later (later start (passes conn 0 refl refl) (omega arith))
      (is_registered [] [] conn 20 30 _ refl refl) (omega arith),
  refl,
)

Reach-num_connections_example : 1 ≤ 1
Reach-num_connections_example = Reach-num_connections 1 one_connected.1 one_connected.2

Reach-num_connections-IsTight_example :
    (s : Passing) × Reach 3 7 mlat s × (get_num_connections s.statistics 7 mlat ≡ ok 3)
unfolding is_valid
Reach-num_connections-IsTight_example = Reach-num_connections-IsTight 3 7 mlat refl
