-- ===== src/Containers/Lifecycle.antt =====
-- bordercontrol/lib/containers/containers.go: `Run` and `Stop` of the container manager.
use bordercontrol.Prelude.{
  ℕ, ◌+◌, String, Bool, true, false, ◌&&◌, Option, none, some, Outcome, returns, panics,
  if◌then◌else◌,
}
use bordercontrol.Nats.{NatsError, NatsState, sub}
use bordercontrol.Containers.Worker.{WorkerState, stopped, Manager}

-- `initialised`, the image and the prefix that `Run` stores, and the goroutines that run.
pub record Package : Type 0 where
  pub initialised : Bool
  pub feed_in_image_name : String
  pub feed_in_container_prefix : String
  pub goroutines : ℕ

pub data RunError : Type 0 where
  already_initialised not_initialised : RunError
  nats_error : NatsError → RunError

abbrev pub nats_subj_feed_in_image_rebuild : String
nats_subj_feed_in_image_rebuild = "pw_bordercontrol.feedinimage.rebuild"

abbrev pub nats_subj_feeder_kick : String
nats_subj_feeder_kick = "pw_bordercontrol.feeder.kick"

-- `initNats`: without a connection it is `nats_io.ErrNotInitialised`, which `Run` passes over.
abbrev pub sub_kick :
    (String → Option ℕ) → Option NatsError × NatsState → Option NatsError × NatsState
sub_kick answer (some e, n) = (some e, n)
sub_kick answer (none, n) = sub nats_subj_feeder_kick (answer nats_subj_feeder_kick) n

unfoldable pub init_nats : Bool → (String → Option ℕ) → NatsState → Option NatsError × NatsState
init_nats connected answer n =
    if n.initialised && connected
    then sub_kick answer
        (sub nats_subj_feed_in_image_rebuild (answer nats_subj_feed_in_image_rebuild) n)
    else (some NatsError.not_initialised, n)

-- The rest of `Run`: `promauto` panics if a gauge cannot be registered; two goroutines start.
abbrev pub start_manager : Bool → String → String → Package → Outcome (Option RunError × Package)
start_manager false image prefix p = panics
start_manager true image prefix p = returns (
  none,
  record {
    initialised = true;
    feed_in_image_name = image;
    feed_in_container_prefix = prefix;
    goroutines = 2 + p.goroutines;
  },
)

-- What the surroundings answer to `Run`: NATS, and Prometheus for the two gauges.
pub record RunEnv : Type 0 where
  pub image : String
  pub prefix : String
  pub connected : Bool
  pub subscribe : String → Option ℕ
  pub registered : Bool

abbrev pub beside_nats :
    NatsState
    → Outcome (Option RunError × Package)
    → Outcome (Option RunError × NatsState × Package)
beside_nats n (returns (e, p)) = returns (e, n, p)
beside_nats n panics = panics

abbrev pub after_nats :
    RunEnv
    → Package
    → Option NatsError × NatsState
    → Outcome (Option RunError × NatsState × Package)
after_nats env p (none, n) = beside_nats n (start_manager env.registered env.image env.prefix p)
after_nats env p (some NatsError.not_initialised, n) =
    beside_nats n (start_manager env.registered env.image env.prefix p)
after_nats env p (some e, n) = returns (some (nats_error e), n, p)

-- `Run`
unfoldable pub run : RunEnv → NatsState → Package → Outcome (Option RunError × NatsState × Package)
run env n p =
    if p.initialised
    then returns (some already_initialised, n, p)
    else after_nats env
        (record p { feed_in_image_name = env.image; feed_in_container_prefix = env.prefix })
        (init_nats env.connected env.subscribe n)

-- The end of `Stop`, once the goroutine that starts containers has gone; `none` while it waits.
abbrev pub after_wait : WorkerState → Package → Option (Option RunError × Package)
after_wait stopped p = some (none, record p { initialised = false; goroutines = 0 })
after_wait _ p = none

-- `Stop`, with the state of that goroutine.
unfoldable pub stop : Manager → Package → Option (Option RunError × Package)
stop m p = if p.initialised then after_wait m.worker p else some (some not_initialised, p)
