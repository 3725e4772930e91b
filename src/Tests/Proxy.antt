-- ===== src/Tests/Proxy.antt =====
-- A connection from its first bytes to its end, and one direction of the proxy.
use bordercontrol.Prelude.{
  ◌++◌, ℕ, ◌≡◌, ◌⊎◌, refl, true, false, List, [], ◌∷◌, Option, none, some, ok, Result, returns,
  arith,
}
use bordercontrol.FeedProtocol.{beast, is_valid}
use bordercontrol.Stats.State.{fresh, Statistics}
use bordercontrol.Stats.Invariant.{IsValid}
use bordercontrol.Stats.Init.{fresh-IsValid}
use bordercontrol.FeedProxy.Tracker.{v4}
use bordercontrol.FeedProxy.Feeders.{with_info, FeederClient, is_valid_api_key}
use bordercontrol.FeedProxy.Auth.{feeder_still_valid}
use bordercontrol.FeedProxy.Dial.{TcpAddr}
use bordercontrol.FeedProxy.Auth.Laws.{client_of}
use bordercontrol.FeedProxy.Starting.{StartEnv, StartError, World, bytes, start}
use bordercontrol.FeedProxy.Starting.Stages.{over, stage_of}
use bordercontrol.FeedProxy.Starting.Order.{start-over}
use bordercontrol.FeedProxy.Starting.Admission.{IsRefused, IsAdmitted, start-IsAdmitted}
use bordercontrol.FeedProxy.Proxying.{
  ProtocolProxyConfig, client_to_server, server_to_client, increment, Read, Round, protocol_proxy,
  proxy_round, update_stats, check_feeder, first_progress,
}
use bordercontrol.Stats.Histories.{Call, registers, increments, run}
use bordercontrol.FeedProxy.Proxying.Reports.{conf_of, nothing, beside, reports_in}
use bordercontrol.FeedProxy.Proxying.Reported.{progress, IsReported, protocol_proxy-IsReported}
use bordercontrol.Tests.Stats.{conn, conn2}
use bordercontrol.FeedProxy.Proxying.Revocation.{AllInTime}
use bordercontrol.FeedProxy.Feeders.{update_feeder_db}
use bordercontrol.FeedProxy.Refresh.{refresh}
use bordercontrol.FeedProxy.Refresh.Loop.{Refreshing, Written, valid_at, update_feeder_dbs}
use bordercontrol.FeedProxy.Refresh.Revoked.{update-AllInTime}
use bordercontrol.Atc.{get_feeders}
use bordercontrol.Tests.Atc
use bordercontrol.Tests.Atc.{expired}
use bordercontrol.Tests.FeedProxy.{env, feed}

abbrev dial : TcpAddr → Result ℕ ℕ
dial a = ok 1

abbrev connecting : StartEnv
connecting = record {
  initialised = true;
  proto = beast;
  conn_num = 1;
  parse_ip = λ cs. v4 9;
  remote_addr = "9.0.0.1:4000";
  server_addr = "10.0.0.2:12345";
  checked_at = 10;
  first_read = bytes 100;
  auth = env;
  start_container = none;
  dial = none;
  keep_alive = none;
  keep_alive_period = none;
  write = none;
  connected = 20;
  registered_at = 20;
  meanwhile = λ s. s;
  unregistered_at = 90;
}

abbrev empty_world : World
empty_world = record {
  tracker = record { connections = []; connection_number = 0 };
  stats = fresh;
  closed_by_read = false;
  effects = [];
}

start-over_example :
    (x : Option StartError) × (w : World) × (start connecting empty_world ≡ returns (x, w))
    × IsValid w.stats
    × (stage_of w.effects ≡ some over)
start-over_example = start-over connecting (λ s v. v) empty_world refl refl fresh-IsValid

start-IsAdmitted_example :
    IsRefused connecting empty_world (start connecting empty_world)
    ⊎ ((c : FeederClient) × IsAdmitted connecting empty_world c)
start-IsAdmitted_example = start-IsAdmitted connecting empty_world refl

abbrev conf : ProtocolProxyConfig
conf = record {
  conn_num = 1;
  proto = beast;
  client_api_key = 7;
  feeder_validity_check_interval = 60;
}

abbrev round : ℕ → Round
round now = record {
  done = false;
  read_deadline = none;
  read = Read.bytes 50;
  write_deadline = none;
  write = none;
  now = now;
  reset_at = now;
  report = none;
  other_check = λ last. last;
  check_now = now;
  check_later = now;
  feeders = feed ∷ [];
}

abbrev rounds : List Round
rounds = round 500_000_000 ∷ round 1_500_000_000 ∷ round 1_600_000_000 ∷ []

-- Another connection comes before the one report of the client's bytes; the server sends nothing.
abbrev among : List Call
among =
    registers conn2 50 60 ∷ increments (increment (conf_of conn 60) client_to_server 100) 70 ∷ []

protocol_proxy-IsReported_example :
    (t : Statistics) × (run ([] ++ registers conn 20 30 ∷ among) fresh ≡ returns t)
    × IsReported conn t
        (progress conn 60 client_to_server rounds 0 0)
        (progress conn 60 server_to_client [] 0 0)
protocol_proxy-IsReported_example =
    protocol_proxy-IsReported [] among conn 20 30 60 rounds [] 0 0 0 0 (unfold is_valid in refl) (
      unfold protocol_proxy proxy_round update_stats check_feeder feeder_still_valid
        is_valid_api_key in
      reports_in (increment (conf_of conn 60) client_to_server 100) 70
        (beside (registers conn2 50 60) refl nothing))

-- ATC drops the feeder between two rounds.
abbrev last_rounds : List Round
last_rounds = round 500_000_000 ∷ (record (round 500_000_050) { feeders = [] }) ∷ []

abbrev dropping : Refreshing
dropping = record { answers = Atc.env; written_at = 500_000_010 }

abbrev listed : Written
listed = (0, feed ∷ []) ∷ []

update-AllInTime_example : AllInTime conf client_to_server 500_000_010 0 last_rounds
unfolding get_feeders update_feeder_dbs refresh update_feeder_db valid_at is_valid_api_key
update-AllInTime_example =
    update-AllInTime conf client_to_server 0 dropping [] expired listed ((500_000_010, []) ∷ listed)
      last_rounds (first_progress 0 0) (refl, tt) refl
      (
        record { reads = refl; prompt = omega arith; other = λ last h. h },
        (record { reads = refl; prompt = omega arith; other = λ last h. h }, tt),
      )
      (omega arith)
      (unfold protocol_proxy proxy_round update_stats check_feeder feeder_still_valid in refl)

abbrev client : FeederClient
client = with_info (client_of 7) feed

abbrev connecting_too : StartEnv
connecting_too = record connecting { conn_num = 2 }
