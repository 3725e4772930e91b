-- ===== src/Tests/Races.antt =====
-- The interleavings of the calls of the statistics, on the feeder with one connection.
use bordercontrol.Prelude.{◌≡◌, refl, panics, true}
use bordercontrol.GoMap.{lookup, get_or}
use bordercontrol.FeedProtocol.{beast, is_valid}
use bordercontrol.Stats.Feeders.{set_feeder_details}
use bordercontrol.Stats.Connections.{add_connection, register_connection}
use bordercontrol.Stats.Forgetting.{IsLast}
use bordercontrol.Stats.Races.{interleaved, register_connection_race, register_feeder_race}
use bordercontrol.Tests.Stats.{busy, busy-IsValid, conn, conn2, feeder}

beast-is_valid : is_valid beast ≡ true
unfolding is_valid
beast-is_valid = refl

conn-IsLast : IsLast conn busy
unfolding get_or lookup
conn-IsLast = record { detail = _; there = refl; alone = refl }

register_connection_race_example : add_connection conn2 80 90 (interleaved conn 70 busy) ≡ panics
register_connection_race_example =
    register_connection_race conn 70 busy busy-IsValid refl beast-is_valid conn-IsLast conn2 80 90
      refl

register_feeder_race_example :
    register_connection conn2 80 90 (set_feeder_details feeder 75 (interleaved conn 70 busy))
    ≡ panics
register_feeder_race_example =
    register_feeder_race conn 70 busy busy-IsValid refl beast-is_valid conn-IsLast feeder 75 conn2
      80 90 refl refl beast-is_valid
