-- ===== src/Tests/Serving.antt =====
-- Two connections are accepted and served, and one of them ends.
use bordercontrol.Prelude.{◌≡◌, refl, [], ◌∷◌, ok, arith}
use bordercontrol.GoMap.{lookup, insert, get_or, delete}
use bordercontrol.FeedProtocol.{is_valid, beast, get_name}
use bordercontrol.Stats.Feeders.{init_feeder_stats, get_num_connections}
use bordercontrol.Stats.Connections.{
  add_connection, register_connection, unregister_connection, remove_connection, remove_from,
}
use bordercontrol.Stats.Connected.{connection_of}
use bordercontrol.Stats.Gauges.{connections_gauge}
use bordercontrol.Stats.Histories.{reply}
use bordercontrol.FeedProxy.Tracker.{get_num, get_num_loop, next_num, is_dupe}
use bordercontrol.FeedProxy.Starting.Threads.{between}
use bordercontrol.FeedProxy.Starting.Serving.{times, in_protocol}
use bordercontrol.FeedProxy.Starting.Serving.Exact.{number_of}
use bordercontrol.FeedProxy.Starting.Numbered.{Numbered, accepts, begins, ends, Reach, start, later}
use bordercontrol.FeedProxy.Starting.Numbered.Agreement.{Reach-numbered_agrees}
use bordercontrol.Tests.Stats.{conn, conn2}

one_left : (s : Numbered) × Reach s × (s.serving.served ≡ conn2 ∷ [])
unfolding reply register_connection unregister_connection is_valid get_name init_feeder_stats
    add_connection remove_connection remove_from lookup insert get_or delete get_num get_num_loop
    next_num is_dupe
one_left = (
  _,
  later
      (later
        (later
          (later (later start (accepts 1 _ (omega arith) refl)) (accepts 2 _ (omega arith) refl))
          (begins (2 ∷ []) [] conn 20 30 _ refl refl))
        (begins [] [] conn2 40 50 _ refl refl))
      (ends (conn2 ∷ []) [] conn 60 _ refl refl),
  refl,
)

Reach-numbered_agrees_example :
    let s = one_left.0.serving in
    (times 7 beast 1 s.served ≡ number_of (connection_of s.statistics 7 beast 1))
    × (get_num_connections s.statistics 7 beast ≡ ok (between 7 beast s.served))
    × (connections_gauge beast s.statistics ≡ in_protocol beast s.served)
Reach-numbered_agrees_example = Reach-numbered_agrees 7 beast 1 one_left.1
