-- ===== src/Tests/FeedProxy.antt =====
-- The tracker of connections, the authentication of feeders and the refresh of their list.
use bordercontrol.Prelude.{
  ℕ, suc, ◌<◌, leb, if◌then◌else◌, none, ◌≡◌, ◌≤◌, ◌↔◌, refl, true, false, List, [], ◌∷◌, some, ok,
  err, arith, ◌+◌, ◌*◌,
}
use bordercontrol.Stats.State.{fresh}
use bordercontrol.Atc.Schema.{Feeder}
use bordercontrol.Atc.{AtcEnv, Client, get_feeders, http_error, SignIn, Fetch}
use bordercontrol.FeedProxy.Tracker.{
  v4, IncomingConnection, IncomingConnectionTracker, max_requests_per_src_ip, get_num, evict, check,
  count_src,
}
use bordercontrol.FeedProxy.Tracker.Numbers.{IsFree, get_num_total}
use bordercontrol.FeedProxy.Tracker.Eviction.{kept, evict-kept}
use bordercontrol.FeedProxy.Tracker.Limit.{recent, check-evict_iff}
use bordercontrol.FeedProxy.Tracker.Window.{Event, connects, evicts, run, empty_door, run-window}
use bordercontrol.FeedProxy.Feeders.{FeederClient, with_info}
use bordercontrol.FeedProxy.Auth.{
  AuthEnv, authenticate_feeder, feeder_still_valid, client_sent_invalid_api_key,
}
use bordercontrol.FeedProxy.Auth.Laws.{client_of, IsAuthorised, authenticate_feeder_iff}
use bordercontrol.FeedProxy.Refresh.{refresh-error, refresh_error_drops}

abbrev second : ℕ
second = 1_000_000_000

abbrev at : ℕ → ℕ → IncomingConnection
at time num = record { src_ip = v4 9; conn_time = time * second; conn_num = num }

abbrev tracker : IncomingConnectionTracker
tracker = record { connections = at 1 1 ∷ at 5 2 ∷ []; connection_number = 2 }

abbrev clock : ℕ → ℕ
clock i = 12 * second + i

get_num_total_example :
    (n : ℕ) × (get_num tracker ≡ some (n, record tracker { connection_number = n }))
    × IsFree tracker.connections n
get_num_total_example = get_num_total tracker (omega arith) (omega arith)

evict-kept_example : (evict clock tracker).connections ≡ kept clock 0 tracker.connections
evict-kept_example = evict-kept clock tracker

check-evict_iff_example :
    let (e, after) = check (v4 9) 3 (13 * second) (evict (λ i. 12 * second) tracker) in
    ((e ≡ none) ↔ (recent (12 * second) (v4 9) tracker.connections < max_requests_per_src_ip))
    × (count_src (v4 9) after.connections ≡ (
        if leb max_requests_per_src_ip (recent (12 * second) (v4 9) tracker.connections)
        then recent (12 * second) (v4 9) tracker.connections
        else suc (recent (12 * second) (v4 9) tracker.connections)))
check-evict_iff_example = check-evict_iff (12 * second) (v4 9) 3 (13 * second) tracker

abbrev events : List Event
events =
    connects (v4 9) 1 second
    ∷ connects (v4 9) 2 (2 * second)
    ∷ connects (v4 9) 3 (3 * second)
    ∷ connects (v4 9) 4 (4 * second)
    ∷ evicts (λ i. 12 * second) (12 * second)
    ∷ []

run-window_example :
    recent (run events empty_door).last (v4 9) (run events empty_door).let_in
    ≤ max_requests_per_src_ip
run-window_example = run-window events (v4 9) (
  omega arith,
  (omega arith, (omega arith, (omega arith, (omega arith, (λ i. omega arith), tt)))),
)

abbrev pub feed : Feeder
feed = record {
  altitude = 0;
  api_key = 7;
  feeder_code = "YSSY-0001";
  feed_direction = "in";
  feed_protocol = "BEAST";
  id = 1;
  label = "home";
  latitude = 3;
  longitude = 4;
  mlat_enabled = true;
  mux = "mux";
  user = "u";
}

abbrev pub env : AuthEnv
env = record {
  handshake_complete = true;
  sni = ok 7;
  feeders = feed ∷ [];
  feeders_later = feed ∷ [];
  now = 5;
}

abbrev client : FeederClient
client = with_info (client_of 7) feed

authenticate_feeder_iff_example :
    ((authenticate_feeder env fresh).0 ≡ ok client) ↔ IsAuthorised env fresh client
authenticate_feeder_iff_example = authenticate_feeder_iff env fresh client

-- ATC does not answer.
abbrev down : AtcEnv
down = record { sign_in = λ i. SignIn.failed 111; fetch = λ i token. Fetch.failed 111 }

abbrev signed_out : Client
signed_out = record { authorization = 0 }

refresh_error_drops_example :
    ((feeder_still_valid 7 [] 60 100 101 3).0 ≡ false)
    × ((authenticate_feeder (record env { feeders = [] }) fresh).0
        ≡ err client_sent_invalid_api_key)
refresh_error_drops_example =
    refresh_error_drops down signed_out (feed ∷ []) [] (http_error 111) 7 60 100 101 3
      (record env { feeders = [] }) fresh (unfold get_feeders in refl)
      (refresh-error down signed_out (feed ∷ []) (http_error 111) (unfold get_feeders in refl))
      (omega arith) refl refl refl
