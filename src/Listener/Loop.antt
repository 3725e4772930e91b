-- ===== src/Listener/Loop.antt =====
-- bordercontrol/lib/listener/listener.go: the loop of `Run`. Each accepted connection is started in
-- a goroutine of its own, and what the others do to the tracker until then is part of a round.
pub mod Numbers
use bordercontrol.Prelude.{
  ℕ, ◌*◌, Bool, true, false, List, [], ◌∷◌, Option, none, some, Result, ok, err, if◌then◌else◌,
}
use bordercontrol.FeedProtocol.{UnknownProtocol, get_name}
use bordercontrol.FeedProxy.Tracker.{IncomingConnectionTracker, get_num}
use bordercontrol.Stats.State.{second}
use bordercontrol.Listener.{Listener}

-- What `Accept` answers: the listener is closed, another error, or a connection.
pub data Accepted : Type 0 where
  closed : Accepted
  failed accepted : ℕ → Accepted

-- A round: what the rest of the program has done to the tracker, and the answer.
pub record Round : Type 0 where
  pub meanwhile : IncomingConnectionTracker → IncomingConnectionTracker
  pub answer : Accepted

-- `feedproxy.ProxyConnection`
pub record ProxyConnection : Type 0 where
  pub connection : ℕ
  pub connection_protocol : ℕ
  pub connection_number : ℕ
  pub feed_in_container_prefix : List ℕ
  pub feeder_validity_check_interval : ℕ
  pub inner_connection_port : ℕ

abbrev pub proxy_connection : Listener → ℕ → ℕ → ProxyConnection
proxy_connection l conn num = record {
  connection = conn;
  connection_protocol = l.protocol;
  connection_number = num;
  feed_in_container_prefix = l.feed_in_container_prefix;
  feeder_validity_check_interval = 60 * second;
  inner_connection_port = l.inner_connection_port;
}

-- What the loop has done: whether it ended, the connections that it started, in their order, and
-- those that it accepted and neither started nor closed.
pub record Served : Type 0 where
  pub ended : Bool
  pub started : List ProxyConnection
  pub unserved : List ℕ

abbrev pub starts : ProxyConnection → Served → Served
starts c s = record s { started = c ∷ s.started }

abbrev pub skips : ℕ → Served → Served
skips conn s = record s { unserved = conn ∷ s.unserved }

-- `feedproxy.GetConnectionNumber`: the number and the tracker after it. There is none if the package
-- is not initialised; `getNum` has one unless all 2^64 - 1 numbers are taken, where it would not end.
unfoldable pub get_connection_number :
    Bool → IncomingConnectionTracker → Option (ℕ × IncomingConnectionTracker)
get_connection_number initialised t = if initialised then get_num t else none

-- The loop, for as many rounds as there are.
unfoldable pub accept_loop : Listener → Bool → List Round → IncomingConnectionTracker → Served
accept_loop l initialised [] t = record { ended = false; started = []; unserved = [] }
accept_loop l initialised (r ∷ rs) t = elim r.answer [
  | closed ↦ record { ended = true; started = []; unserved = [] }
  | failed e ↦ accept_loop l initialised rs (r.meanwhile t)
  | accepted conn ↦ elim (get_connection_number initialised (r.meanwhile t)) [
    | none ↦ skips conn (accept_loop l initialised rs (r.meanwhile t))
    | some (num, t') ↦ starts (proxy_connection l conn num) (accept_loop l initialised rs t')
  ]
]

pub data RunError : Type 0 where
  unknown_protocol : UnknownProtocol → RunError
  not_listening : ℕ → RunError

abbrev nothing_served : Served
nothing_served = record { ended = true; started = []; unserved = [] }

-- After the TLS listener was asked for, with the error of that.
abbrev pub after_listen :
    Listener → Bool → List Round → IncomingConnectionTracker → Option ℕ → Option RunError × Served
after_listen l initialised rounds t (some e) = (some (not_listening e), nothing_served)
after_listen l initialised rounds t none = (none, accept_loop l initialised rounds t)

-- `Run`
unfoldable pub run :
    Listener → Option ℕ → Bool → List Round → IncomingConnectionTracker → Option RunError × Served
run l listening initialised rounds t = elim (get_name l.protocol) [
  | err e ↦ (some (unknown_protocol e), nothing_served)
  | ok name ↦ after_listen l initialised rounds t listening
]
