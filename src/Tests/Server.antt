-- ===== src/Tests/Server.antt =====
-- A run of the server, a reload of its certificate, and a request to its API.
use mathlib.Core.List.{reverse}
use bordercontrol.Prelude.{
  err, ℕ, String, ◌++◌, ◌≡◌, ◌↔◌, refl, true, false, List, [], ◌∷◌, map, Option, none, some, Result,
  ok, codes,
}
use bordercontrol.FeedProtocol.{beast, mlat, to_lower}
use bordercontrol.GoMap.{lookup}
use bordercontrol.Nats
use bordercontrol.Nats.{NatsState, nats_subj_ping, sub}
use bordercontrol.Stats.Lifecycle as StatsLifecycle
use bordercontrol.Stats.Collectors.{register_prom_collector}
use bordercontrol.Containers.Lifecycle as ManagerLifecycle
use bordercontrol.Server.Subscriptions.{subjects_of}
use bordercontrol.Server.Subscriptions.Started.{start-IsSubscribed}
use bordercontrol.Stunnel
use bordercontrol.Stunnel.{
  new_server, maybe_reload, get_certificate, deliver, begin_close, Step, signals, reloads, closes,
  Steps, here, onward,
}
use bordercontrol.Stunnel.Reloading.{last_loaded}
use bordercontrol.Stunnel.Signals.{signal-last_loaded}
use bordercontrol.Stats.State.{FeederStats, Statistics, fresh, zero_feeder_stats}
use bordercontrol.Stats.Api.{json, api_return_single_feeder}
use bordercontrol.Stats.Api.Answers.{IsFeederPath, api_return_single_feeder_iff}
use bordercontrol.Containers.Worker.{stopped}
use bordercontrol.Server.{listens, Server, ServerEnv, run_server}
use bordercontrol.Listener.Loop.{closed}
use bordercontrol.Server.Listening.{Turn}
use bordercontrol.Server.Orderly.{Hangs, start_order, close_order, IsOrderly}
use bordercontrol.Server.Order.{MayPanic, run_server-IsOrderly}

abbrev answers : String → Option ℕ
answers subj = none

-- A turn in which the listener is closed without a connection, since the context is done.
abbrev last_turn : Turn
last_turn = record {
  listening = none;
  rounds = (record { meanwhile = λ t. t; answer = closed }) ∷ [];
  tracker = record { connections = []; connection_number = 0 };
  done = true;
}

abbrev env : ServerEnv
env = record {
  nats_instance = "";
  nats_url = "nats://nats:4222";
  host = ok "border";
  connection = ok 1;
  ping = none;
  key_pair = ok 11;
  stats = record {
    globals = (1, none) ∷ (2, none) ∷ [];
    vectors = (9, none) ∷ (10, none) ∷ [];
    connected = true;
    subscribe = answers;
  };
  client = ok (record { authorization = 0 });
  feeders_registered = none;
  containers = record {
    image = "feed-in";
    prefix = "feed-in-";
    connected = true;
    subscribe = answers;
    registered = true;
  };
  parse_ip = λ cs. none;
  listen_beast = codes ":12345";
  listen_mlat = codes ":12346";
  beast_turns = last_turn ∷ [];
  mlat_turns = last_turn ∷ [];
  served = λ s. s;
  feeders_unregistered = true;
  last_loads = ok 4 ∷ err 1 ∷ [];
  starter = record { worker = stopped; waiting = []; cancelled = true; received = [] };
}

abbrev before_start : Server
before_start = record {
  nats = record { initialised = false; instance_name = ""; url = ""; subjects = [] };
  tls = none;
  stats = record {
    statistics = record fresh { initialised = false };
    collectors = [];
    nats_instance = "";
    goroutines = 0;
  };
  proxy = record {
    initialised = false;
    tracker = record { connections = []; connection_number = 0 };
    valid_feeders = [];
    atc_client = none;
    goroutines = 0;
  };
  manager = record {
    initialised = false;
    feed_in_image_name = "";
    feed_in_container_prefix = "";
    goroutines = 0;
  };
}

run_server-IsOrderly_example :
    IsOrderly
      (MayPanic env)
      (Hangs env)
      start_order
      (start_order ++ listens beast ∷ listens mlat ∷ close_order)
      (run_server env before_start)
run_server-IsOrderly_example = run_server-IsOrderly env (λ s up. up) before_start

abbrev pinged : NatsState
pinged = record {
  initialised = true;
  instance_name = "border";
  url = "nats://nats:4222";
  subjects = nats_subj_ping ∷ [];
}

abbrev measured : NatsState
measured = record pinged { subjects = reverse (nats_subj_ping ∷ StatsLifecycle.stats_subjects) }

abbrev subscribed_to_all : NatsState
subscribed_to_all = record measured {
  subjects =
      ManagerLifecycle.nats_subj_feeder_kick ∷ ManagerLifecycle.nats_subj_feed_in_image_rebuild
      ∷ measured.subjects;
}

start-IsSubscribed_example : subscribed_to_all.subjects ≡ reverse (subjects_of env)
unfolding Nats.init sub Nats.get_instance StatsLifecycle.init StatsLifecycle.register_all
    StatsLifecycle.start_package StatsLifecycle.init_nats StatsLifecycle.sub_all
    register_prom_collector ManagerLifecycle.run ManagerLifecycle.init_nats
start-IsSubscribed_example =
    start-IsSubscribed env before_start pinged measured subscribed_to_all _ _ refl refl refl refl
      refl

abbrev loaded : Stunnel.Server
loaded = record {
  cert = 11;
  pending = false;
  closed = false;
  cancelled = false;
  running = true;
  loads = ok 11 ∷ [];
}

abbrev signalled : Stunnel.Server
signalled = record loaded { pending = true }

abbrev reloaded_once : Stunnel.Server
reloaded_once = record loaded { cert = 12; loads = ok 12 ∷ ok 11 ∷ [] }

signal-last_loaded_example :
    (later : List (Result ℕ ℕ)) × (since : Result ℕ ℕ) × (reloaded_once.loads
      ≡ later ++ since ∷ loaded.loads)
    × (get_certificate reloaded_once ≡ last_loaded (later ++ since ∷ loaded.loads))
unfolding new_server deliver maybe_reload
signal-last_loaded_example =
    signal-last_loaded (ok 11) {s = loaded} {u = loaded} {v = signalled} {t = reloaded_once} refl
      (here loaded) refl (onward (reloads signalled (ok 12) refl refl) (here reloaded_once)) refl

abbrev closed_server : Stunnel.Server
closed_server = record reloaded_once { closed = true; cancelled = true }

abbrev uuid : List ℕ
uuid = codes "0123abcd-0000-1111-2222-33334444ffff"

abbrev one_feeder : Statistics
one_feeder = record fresh { feeders = (7, zero_feeder_stats) ∷ [] }

abbrev parse_seven : List ℕ → Result ℕ ℕ
parse_seven u = ok 7

abbrev marshal_braces : FeederStats → Result ℕ (List ℕ)
marshal_braces f = ok (codes "{}")

abbrev request_path : List ℕ
request_path = codes "/API/v1/feeder/0123ABCD-0000-1111-2222-33334444ffff/"

api_return_single_feeder_iff_example :
    (api_return_single_feeder parse_seven marshal_braces request_path one_feeder
      ≡ json (codes "{}"))
    ↔ ((u : List ℕ) × (k : ℕ) × (f : FeederStats) × IsFeederPath (map to_lower request_path) u
        × (parse_seven u ≡ ok k)
        × (lookup k one_feeder.feeders ≡ some f)
        × (marshal_braces f ≡ ok (codes "{}")))
api_return_single_feeder_iff_example =
    api_return_single_feeder_iff parse_seven marshal_braces request_path one_feeder (codes "{}")
