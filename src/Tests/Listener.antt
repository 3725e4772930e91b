-- ===== src/Tests/Listener.antt =====
-- A listener on port 12345, two connections, and the close of the listener.
use bordercontrol.Prelude.{
  false, ℕ, ◌+◌, ◌≡◌, refl, true, List, [], ◌∷◌, Option, none, ok, codes, arith,
}
use bordercontrol.FeedProtocol.{beast}
use bordercontrol.FeedProxy.Tracker.{
  v4, IncomingConnectionTracker, next_num, is_dupe, get_num_loop, get_num,
}
use bordercontrol.Listener.{Listener, pos, read_digits, atoi}
use bordercontrol.Listener.Address.{value}
use bordercontrol.Listener.Loop.{
  Round, closed, failed, accepted, get_connection_number, accept_loop,
}
use bordercontrol.Listener.Loop.Numbers.{IsServed, connections_of, accept_loop-IsServed}
use bordercontrol.Server.Listening.{Turn}

abbrev no_address : List ℕ → Option ℕ
no_address cs = none

abbrev prefix : List ℕ
prefix = codes "feed-in-"

port_value : value (codes "12345") ≡ 12345
unfolding value
port_value = refl

signed_port : atoi (codes "+80") ≡ ok (pos 80)
unfolding atoi read_digits
signed_port = refl

abbrev on_12345 : Listener
on_12345 = record {
  protocol = beast;
  ip = 0;
  port = pos 12345;
  feed_in_container_prefix = prefix;
  inner_connection_port = 12345;
}

-- The other listener takes a number, and its connection is tracked.
abbrev other_connection : IncomingConnectionTracker → IncomingConnectionTracker
other_connection t = record {
  connections = (record { src_ip = v4 1; conn_time = 5; conn_num = t.connection_number + 1 }) ∷ [];
  connection_number = t.connection_number + 1;
}

abbrev rounds : List Round
rounds =
    (record { meanwhile = λ t. t; answer = accepted 71 })
    ∷ (record { meanwhile = other_connection; answer = failed 4 })
    ∷ (record { meanwhile = λ t. t; answer = accepted 72 })
    ∷ (record { meanwhile = λ t. t; answer = closed })
    ∷ []

abbrev no_connections_yet : IncomingConnectionTracker
no_connections_yet = record { connections = []; connection_number = 0 }

served_connections :
    connections_of (accept_loop on_12345 true rounds no_connections_yet).started ≡ 71 ∷ 72 ∷ []
unfolding accept_loop get_connection_number get_num get_num_loop next_num is_dupe
served_connections = refl

accept_loop-IsServed_example :
    IsServed on_12345 0 rounds (accept_loop on_12345 true rounds no_connections_yet)
unfolding get_num get_num_loop next_num is_dupe
accept_loop-IsServed_example =
    accept_loop-IsServed on_12345 1 1 rounds no_connections_yet (omega arith) (omega arith)

abbrev turns : List Turn
turns =
    record { listening = none; rounds = rounds; tracker = no_connections_yet; done = false }
    ∷ record { listening = none; rounds = rounds; tracker = no_connections_yet; done = true }
    ∷ []
