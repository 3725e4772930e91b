-- ===== src/Stats/Lifecycle.antt =====
-- bordercontrol/lib/stats/stats.go, stats_prom.go and stats_nats.go: `Init` and `Close`. A collector
-- is a number; what Prometheus and NATS answer is an argument.
use bordercontrol.Prelude.{
  ℕ, suc, String, Bool, true, false, ◌&&◌, List, [], ◌∷◌, Option, none, some, ok, err,
  if◌then◌else◌,
}
use bordercontrol.Nats.{NatsError, NatsState, get_instance, sub}
use bordercontrol.Stats.State.{Statistics, fresh}
use bordercontrol.Stats.Collectors.{PromError, register_prom_collector}

-- The package's variables, with the goroutines that run (the evictor, the HTTP server).
pub record Package : Type 0 where
  pub statistics : Statistics
  pub collectors : List ℕ
  pub nats_instance : String
  pub goroutines : ℕ

pub data InitError : Type 0 where
  already_initialised not_initialised : InitError
  prom_error : PromError → InitError
  nats_error : NatsError → InitError

-- The loop over collectors that are registered, each with the answer of Prometheus. The first error
-- ends it; what was registered until then stays.
unfoldable pub register_all : List (ℕ × Option ℕ) → List ℕ → Option PromError × List ℕ
register_all [] cs = (none, cs)
register_all ((c, answer) ∷ rest) cs =
    let (e, ds) = register_prom_collector answer c cs in
    let later = register_all rest ds in elim e [ none ↦ later | some x ↦ (some x, ds) ]

-- The subscriptions of `initNats`, in their order.
abbrev pub stats_subjects : List String
stats_subjects =
    "pw_bordercontrol.feeders.metrics" ∷ "pw_bordercontrol.feeder.metrics"
    ∷ "pw_bordercontrol.feeder.metrics.beast" ∷ "pw_bordercontrol.feeder.metrics.mlat"
    ∷ "pw_bordercontrol.feeder.connected.beast" ∷ "pw_bordercontrol.feeder.connected.mlat" ∷ []

unfoldable pub sub_all :
    List String → (String → Option ℕ) → NatsState → Option NatsError × NatsState
sub_all [] answer n = (none, n)
sub_all (subj ∷ subjs) answer n =
    let (e, n') = sub subj (answer subj) n in
    let later = sub_all subjs answer n' in elim e [ none ↦ later | some x ↦ (some x, n') ]

-- `initNats`
unfoldable pub init_nats :
    (String → Option ℕ) → NatsState → Package → Option InitError × NatsState × Package
init_nats answer n p = elim (get_instance n) [
  | err e ↦ (some (nats_error e), n, p)
  | ok name ↦
      let (e, n') = sub_all stats_subjects answer n in
      (elim e [ none ↦ none | some x ↦ some (nats_error x) ], n', record p { nats_instance = name })
]

-- What the surroundings answer to `Init`: Prometheus for the global collectors and for the two
-- vectors, and NATS.
pub record InitEnv : Type 0 where
  pub globals : List (ℕ × Option ℕ)
  pub vectors : List (ℕ × Option ℕ)
  pub connected : Bool
  pub subscribe : String → Option ℕ

-- The end of `Init`: the package is initialised, and the HTTP server runs.
abbrev pub set_initialised : Package → Package
set_initialised p = record p {
  statistics = record p.statistics { initialised = true };
  goroutines = suc p.goroutines;
}

abbrev pub after_nats :
    Option InitError × NatsState × Package → Option InitError × NatsState × Package
after_nats (some e, n, p) = (some e, n, p)
after_nats (none, n, p) = (none, n, set_initialised p)

-- Once the collectors are registered: new statistics, and the evictor.
unfoldable pub start_package :
    InitEnv → NatsState → Package → Option InitError × NatsState × Package
start_package env n p =
    let p' = record p {
      statistics = record fresh { initialised = false };
      goroutines = suc p.goroutines;
    } in
    if n.initialised && env.connected
    then after_nats (init_nats env.subscribe n p')
    else (none, n, set_initialised p')

-- `nats_io.IsConnected` asks whether the NATS package is initialised before it asks the client.
unfoldable pub init : InitEnv → NatsState → Package → Option InitError × NatsState × Package
init env n p =
    if p.statistics.initialised
    then (some already_initialised, n, p)
    else let (e, cs) = register_all env.globals p.collectors in
      elim e [
        | some x ↦ (some (prom_error x), n, record p { collectors = cs })
        | none ↦
            let (e', ds) = register_all env.vectors cs in
            elim e' [
              | some x ↦ (some (prom_error x), n, record p { collectors = ds })
              | none ↦ start_package env n (record p { collectors = ds })
            ]
      ]

-- `Close`: the answers of Prometheus and of the HTTP server are only logged, and the list of
-- collectors is kept. It waits for the goroutines.
unfoldable pub close : Package → Option InitError × Package
close p =
    if p.statistics.initialised
    then (
      none,
      record p { statistics = record p.statistics { initialised = false }; goroutines = 0 },
    )
    else (some not_initialised, p)
