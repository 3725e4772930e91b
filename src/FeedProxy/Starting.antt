-- ===== src/FeedProxy/Starting.antt =====
-- bordercontrol/lib/feedproxy/feedproxy_connections.go: `ProxyConnection.Start`, from the first
-- bytes of a client to the end of its connection.
pub mod Stages
pub mod Order
pub mod Admission
pub mod LimitRace
pub mod Threads
pub mod Serving
pub mod Numbered
use bordercontrol.Prelude.{
  ℕ, String, Bool, List, [], ◌∷◌, Option, none, some, Result, ok, err, true, Outcome, returns,
  panics, ◌==◌, leb, codes, if◌then◌else◌,
}
use bordercontrol.FeedProtocol.{beast, mlat}
use bordercontrol.Listener.{split}
use bordercontrol.Stats.State.{Statistics, StatsError}
use bordercontrol.Stats.Feeders.{get_num_connections}
use bordercontrol.Stats.Connections.{Connection, register_connection, unregister_connection}
use bordercontrol.FeedProxy.Tracker.{Ip, IncomingConnectionTracker, TooFrequent, check}
use bordercontrol.FeedProxy.Feeders.{FeederClient}
use bordercontrol.FeedProxy.Auth.{AuthError, AuthEnv, authenticate_feeder}

abbrev pub max_connections_per_proto : ℕ
max_connections_per_proto = 1

pub data StartError : Type 0 where
  not_initialised deadline_exceeded connection_limit_exceeded unsupported_protocol : StartError
  too_frequent : TooFrequent → StartError
  auth_error : AuthError → StartError
  stats_error : StatsError → StartError
  -- of the dial, of the two settings of the connection, and of the write
  dial_error keep_alive_error write_error : ℕ → StartError

-- Where a connection goes: the feed-in container of a key, or a multiplexer.
pub data Target : Type 0 where
  feed_in : ℕ → Target
  mux : String → Target

-- What is done to the surroundings.
pub data Effect : Type 0 where
  starts_container : FeederClient → Effect
  -- a dial that connects, which opens the connection to the server, and one that does not
  dials fails_to_dial : Target → Effect
  -- the bytes that were read before the client was known
  writes : ℕ → Effect
  registers unregisters : Connection → Effect
  proxies_to_server proxies_to_client closes_server closes_client : Effect

-- `incomingConnTracker`, the statistics, whether `readFromClient` has closed the connection of the
-- client already, and what `Start` has done, newest first.
pub record World : Type 0 where
  pub tracker : IncomingConnectionTracker
  pub stats : Statistics
  pub closed_by_read : Bool
  pub effects : List Effect

-- What `readFromClient` returns: the number of bytes, with or without an error that is ignored, or
-- the error that is not.
pub data FirstRead : Type 0 where
  bytes : ℕ → FirstRead
  failed : ℕ → ℕ → FirstRead
  timed_out : ℕ → FirstRead

-- The connection, and the answers of its surroundings: the errors of the calls, the times that are
-- read, and what other connections do to the statistics while this one is proxied. `parse_ip` is
-- `net.ParseIP`.
pub record StartEnv : Type 0 where
  pub initialised : Bool
  pub proto : ℕ
  pub conn_num : ℕ
  pub parse_ip : List ℕ → Ip
  pub remote_addr : String
  pub server_addr : String
  pub checked_at : ℕ
  pub first_read : FirstRead
  pub auth : AuthEnv
  pub start_container : Option ℕ
  pub dial : Option ℕ
  pub keep_alive : Option ℕ
  pub keep_alive_period : Option ℕ
  pub write : Option ℕ
  pub connected : ℕ
  pub registered_at : ℕ
  pub meanwhile : Statistics → Statistics
  pub unregistered_at : ℕ

-- The address of the client: what stands before the first colon.
abbrev pub remote_ip : StartEnv → Ip
remote_ip env = env.parse_ip (split b':' (codes env.remote_addr)).0

abbrev pub Started : Type 0
Started = Outcome (Option StartError × World)

abbrev pub with_effect : Effect → World → World
with_effect e w = record w { effects = e ∷ w.effects }

-- A deferred call.
unfoldable pub deferred : Effect → Started → Started
deferred e (returns (x, w)) = returns (x, with_effect e w)
deferred e panics = panics

abbrev pub connection : StartEnv → FeederClient → Connection
connection env c = record {
  api_key = c.client_api_key;
  src_addr = env.remote_addr;
  dst_addr = env.server_addr;
  proto = env.proto;
  feeder_code = c.feeder_code;
  conn_num = env.conn_num;
}

-- The second direction is proxied for MLAT only.
abbrev pub proxying : StartEnv → World → World
proxying env w =
    if env.proto == mlat
    then with_effect proxies_to_client (with_effect proxies_to_server w)
    else with_effect proxies_to_server w

-- The rest, with what `RegisterConnection` returned: the connection is proxied until it ends, and
-- unregistered; an error of the last is ignored.
abbrev pub proxy_reply :
    StartEnv → FeederClient → World → Outcome (Option StatsError × Statistics) → Started
proxy_reply env c w panics = panics
proxy_reply env c w (returns (some e, s)) = returns (some (stats_error e), record w { stats = s })
proxy_reply env c w (returns (none, s)) =
    let conn = connection env c in
    let proxied = proxying env (with_effect (registers conn) (record w { stats = s })) in
    let s' = (unregister_connection conn env.unregistered_at (env.meanwhile s)).1 in
    returns (none, with_effect (unregisters conn) (record proxied { stats = s' }))

unfoldable pub proxy_registered : StartEnv → FeederClient → World → Started
proxy_registered env c w =
    proxy_reply env c w
      (register_connection (connection env c) env.connected env.registered_at w.stats)

-- From a server that was dialled on.
unfoldable pub proxy_dialled : StartEnv → FeederClient → ℕ → World → Started
proxy_dialled env c n w = deferred closes_server (elim env.keep_alive [
  | some e ↦ returns (some (keep_alive_error e), w)
  | none ↦ elim env.keep_alive_period [
    | some e ↦ returns (some (keep_alive_error e), w)
    | none ↦ elim env.write [
      | some e ↦ returns (some (write_error e), w)
      | none ↦ proxy_registered env c (with_effect (writes n) w)
    ]
  ]
])

abbrev pub after_dial : StartEnv → FeederClient → ℕ → Target → World → Option ℕ → Started
after_dial env c n t w (some e) = returns (some (dial_error e), with_effect (fails_to_dial t) w)
after_dial env c n t w none = proxy_dialled env c n (with_effect (dials t) w)

unfoldable pub dial_target : StartEnv → FeederClient → ℕ → Target → World → Started
dial_target env c n t w = after_dial env c n t w env.dial

-- An error of the start of the feed-in container is only logged.
unfoldable pub connect_server : StartEnv → FeederClient → ℕ → World → Started
connect_server env c n w =
    if env.proto == beast
    then dial_target env c n (feed_in c.client_api_key) (with_effect (starts_container c) w)
    else if env.proto == mlat
    then dial_target env c n (mux c.mux) w
    else returns (some unsupported_protocol, w)

abbrev pub exceeds_limit : ℕ → Bool
exceeds_limit k = leb max_connections_per_proto k

-- The limit of the connections for a feeder and a protocol, with the number of them.
abbrev pub after_count : StartEnv → FeederClient → ℕ → World → Result StatsError ℕ → Started
after_count env c n w (err e) = returns (some (stats_error e), w)
after_count env c n w (ok k) =
    if exceeds_limit k
    then returns (some connection_limit_exceeded, w)
    else connect_server env c n w

unfoldable pub limit_connections : StartEnv → FeederClient → ℕ → World → Started
limit_connections env c n w =
    after_count env c n w (get_num_connections w.stats c.client_api_key env.proto)

-- After the authentication.
abbrev pub after_identify :
    StartEnv → ℕ → World → Result AuthError FeederClient × Statistics → Started
after_identify env n w (err e, s) = returns (some (auth_error e), record w { stats = s })
after_identify env n w (ok c, s) = limit_connections env c n (record w { stats = s })

unfoldable pub identify : StartEnv → ℕ → World → Started
identify env n w = after_identify env n w (authenticate_feeder env.auth w.stats)

-- `readFromClient` closes the connection on every error; `Start` returns only a passed deadline.
abbrev pub after_read : StartEnv → World → FirstRead → Started
after_read env w (bytes n) = identify env n w
after_read env w (failed e n) = identify env n (record w { closed_by_read = true })
after_read env w (timed_out n) =
    returns (some deadline_exceeded, record w { closed_by_read = true })

-- After the check of the source address.
abbrev pub after_check : StartEnv → World → Option TooFrequent × IncomingConnectionTracker → Started
after_check env w (some e, t) = returns (some (too_frequent e), record w { tracker = t })
after_check env w (none, t) = after_read env (record w { tracker = t }) env.first_read

unfoldable pub start : StartEnv → World → Started
start env w =
    if env.initialised
    then deferred closes_client
        (after_check env w (check (remote_ip env) env.conn_num env.checked_at w.tracker))
    else returns (some not_initialised, w)

-- `Stop`: whether the context of the connection is cancelled.
unfoldable pub stop : Bool → Bool → Option StartError × Bool
stop initialised cancelled = if initialised then (none, true) else (some not_initialised, cancelled)
