-- ===== src/Server.antt =====
-- bordercontrol/cmd/bordercontrol/main.go: `runServer`, which starts the subsystems, listens, and
-- closes them. What each of them is answered is an argument.
pub mod Orderly
pub mod Closing
pub mod Starts
pub mod Subscriptions
pub mod Version
pub mod Order
pub mod Listening
pub mod Panics
use bordercontrol.Prelude.{
  ℕ, String, Bool, List, [], ◌∷◌, Option, none, some, Result, ok, err, Outcome, returns, panics,
  codes,
}
use bordercontrol.FeedProtocol.{beast, mlat}
use bordercontrol.Atc.{Client}
use bordercontrol.Nats
use bordercontrol.Nats.{NatsError, NatsState}
use bordercontrol.Stunnel
use bordercontrol.Stats.Lifecycle as StatsLifecycle
use bordercontrol.FeedProxy.Lifecycle as ProxyLifecycle
use bordercontrol.Containers.Lifecycle as ManagerLifecycle
use bordercontrol.Containers.Worker.{Manager}
use bordercontrol.Server.Listening.{Turn, Attempt, listen_with_context}

pub data Subsystem : Type 0 where
  nats tls statistics proxy manager : Subsystem

-- What `runServer` does that others see; an error of a close is only logged.
pub data Effect : Type 0 where
  starts closes fails_to_close : Subsystem → Effect
  listens : ℕ → Effect

pub record Server : Type 0 where
  pub nats : NatsState
  pub tls : Option Stunnel.Server
  pub stats : StatsLifecycle.Package
  pub proxy : ProxyLifecycle.Package
  pub manager : ManagerLifecycle.Package

pub data ServerError : Type 0 where
  nats_error : NatsError → ServerError
  tls_error : ℕ → ServerError
  stats_error : StatsLifecycle.InitError → ServerError
  proxy_error : ProxyLifecycle.InitError → ServerError
  manager_error : ManagerLifecycle.RunError → ServerError

-- The flags, and the answers of the surroundings: to the start of each subsystem, what happens while
-- the listeners run, whose turns end once the context is done by SIGTERM, and to the closes.
pub record ServerEnv : Type 0 where
  pub nats_instance : String
  pub nats_url : String
  pub host : Result ℕ String
  pub connection : Result ℕ ℕ
  pub ping : Option ℕ
  pub key_pair : Result ℕ ℕ
  pub stats : StatsLifecycle.InitEnv
  pub client : Result ℕ Client
  pub feeders_registered : Option ℕ
  pub containers : ManagerLifecycle.RunEnv
  pub parse_ip : List ℕ → Option ℕ
  pub listen_beast : List ℕ
  pub listen_mlat : List ℕ
  pub beast_turns : List Turn
  pub mlat_turns : List Turn
  pub served : Server → Server
  pub feeders_unregistered : Bool
  pub last_loads : List (Result ℕ ℕ)
  pub starter : Manager

-- How `runServer` ends: it returns, with what it has done in order; it panics; or a close waits for
-- ever.
pub data Ended : Type 0 where
  returned : Option ServerError → Server → List Effect → Ended
  panicked hung : Ended

abbrev pub did : Effect → Ended → Ended
did x (returned e s xs) = returned e s (x ∷ xs)
did x panicked = panicked
did x hung = hung

abbrev pub close_effect {ℓ} : {E : Type ℓ} → Subsystem → Option E → Effect
close_effect x none = closes x
close_effect x (some e) = fails_to_close x

unfoldable pub close_nats : Server → Ended
close_nats s =
    let (e, n) = Nats.close s.nats in
    returned none (record s { nats = n }) (close_effect nats e ∷ [])

abbrev pub after_close_tls : Server → Outcome Stunnel.Server → Ended
after_close_tls s panics = panicked
after_close_tls s (returns t) = did (closes tls) (close_nats (record s { tls = some t }))

-- The server of the TLS package is a pointer.
abbrev pub close_tls : ServerEnv → Server → Option Stunnel.Server → Ended
close_tls env s none = panicked
close_tls env s (some t) = after_close_tls s (Stunnel.close env.last_loads t)

unfoldable pub close_stats : ServerEnv → Server → Ended
close_stats env s =
    let (e, p) = StatsLifecycle.close s.stats in
    did (close_effect statistics e) (close_tls env (record s { stats = p }) s.tls)

abbrev pub after_stop :
    ServerEnv
    → Server
    → Option (Option ManagerLifecycle.RunError × ManagerLifecycle.Package)
    → Ended
after_stop env s none = hung
after_stop env s (some (e, p)) =
    did (close_effect manager e) (close_stats env (record s { manager = p }))

unfoldable pub close_manager : ServerEnv → Server → Ended
close_manager env s = after_stop env s (ManagerLifecycle.stop env.starter s.manager)

unfoldable pub close_proxy : ServerEnv → Server → Ended
close_proxy env s =
    let (e, cs, p) = ProxyLifecycle.close env.feeders_unregistered s.stats.collectors s.proxy in
    did (close_effect proxy e)
      (close_manager env (record s { proxy = p; stats = record s.stats { collectors = cs } }))

-- After the two listeners; a panic of either ends the program.
abbrev pub after_listening :
    ServerEnv → Server → Outcome (List Attempt) → Outcome (List Attempt) → Ended
after_listening env s panics mlat_attempts = panicked
after_listening env s (returns beast_attempts) panics = panicked
after_listening env s (returns beast_attempts) (returns mlat_attempts) =
    close_proxy env (env.served s)

-- The two listeners, and the wait for them.
unfoldable pub listen : ServerEnv → Server → Ended
listen env s =
    let prefix = codes env.containers.prefix in
    let up = s.proxy.initialised in
    did (listens beast) (
      did (listens mlat) (
        after_listening env s
          (listen_with_context env.parse_ip env.listen_beast beast prefix 12345 up env.beast_turns)
          (listen_with_context env.parse_ip env.listen_mlat mlat prefix 12346 up env.mlat_turns)))

abbrev pub after_manager :
    ServerEnv
    → Server
    → Outcome (Option ManagerLifecycle.RunError × NatsState × ManagerLifecycle.Package)
    → Ended
after_manager env s panics = panicked
after_manager env s (returns (some e, n, p)) =
    returned (some (manager_error e)) (record s { nats = n; manager = p }) []
after_manager env s (returns (none, n, p)) =
    did (starts manager) (listen env (record s { nats = n; manager = p }))

unfoldable pub start_manager : ServerEnv → Server → Ended
start_manager env s = after_manager env s (ManagerLifecycle.run env.containers s.nats s.manager)

abbrev pub after_proxy :
    ServerEnv → Server → Option ProxyLifecycle.InitError × List ℕ × ProxyLifecycle.Package → Ended
after_proxy env s (some e, cs, p) =
    returned (some (proxy_error e))
      (record s { proxy = p; stats = record s.stats { collectors = cs } }) []
after_proxy env s (none, cs, p) =
    did (starts proxy)
      (start_manager env (record s { proxy = p; stats = record s.stats { collectors = cs } }))

unfoldable pub start_proxy : ServerEnv → Server → Ended
start_proxy env s =
    after_proxy env s
      (ProxyLifecycle.init env.client env.feeders_registered s.stats.collectors s.proxy)

abbrev pub after_stats :
    ServerEnv
    → Server
    → Option StatsLifecycle.InitError × NatsState × StatsLifecycle.Package
    → Ended
after_stats env s (some e, n, p) =
    returned (some (stats_error e)) (record s { nats = n; stats = p }) []
after_stats env s (none, n, p) =
    did (starts statistics) (start_proxy env (record s { nats = n; stats = p }))

unfoldable pub start_stats : ServerEnv → Server → Ended
start_stats env s = after_stats env s (StatsLifecycle.init env.stats s.nats s.stats)

abbrev pub after_tls : ServerEnv → Server → Result ℕ Stunnel.Server → Ended
after_tls env s (err e) = returned (some (tls_error e)) s []
after_tls env s (ok t) = did (starts tls) (start_stats env (record s { tls = some t }))

unfoldable pub start_tls : ServerEnv → Server → Ended
start_tls env s = after_tls env s (Stunnel.new_server env.key_pair)

abbrev pub after_nats : ServerEnv → Server → Option NatsError × NatsState → Ended
after_nats env s (some e, n) = returned (some (nats_error e)) (record s { nats = n }) []
after_nats env s (none, n) = did (starts nats) (start_tls env (record s { nats = n }))

unfoldable pub run_server : ServerEnv → Server → Ended
run_server env s =
    after_nats env s
      (Nats.init env.nats_instance env.nats_url env.host env.connection env.ping s.nats)
