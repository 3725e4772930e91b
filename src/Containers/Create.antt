-- ===== src/Containers/Create.antt =====
-- bordercontrol/lib/containers/create.go: the container of a feeder is created and started, if it
-- does not run.
pub mod Running
use Prim.Native.String.{◌++◌}
use bordercontrol.Prelude.{
  ℕ, ◌≡◌, String, Bool, true, false, List, [], ◌∷◌, Option, none, some, Result, ok, err,
}
use bordercontrol.Containers.{
  Container, ContainerError, not_initialised, context_cancelled, timeout_start_req,
  timeout_start_resp, docker_error,
}

-- `FeedInContainer`, with the texts that `%f` and `uuid.String` make of its numbers.
pub record FeedInContainer : Type 0 where
  pub lat : String
  pub lon : String
  pub label : String
  pub api_key : String
  pub feeder_code : String

-- `startFeederContainersConfig`, and the prefix that `getFeedInContainerName` reads.
pub record CreateConfig : Type 0 where
  pub feed_in_image_name : String
  pub feed_in_container_prefix : String
  pub feed_in_container_network : String
  pub pw_ingest_sink : String

-- The arguments of `ContainerCreate`.
pub record ContainerSpec : Type 0 where
  pub name : String
  pub image : String
  pub env : List String
  pub labels : List (String × String)
  pub auto_remove : Bool
  pub tmpfs : List (String × String)
  pub network : String

pub record StartContainerResponse : Type 0 where
  pub container_start_delay : Bool
  pub container_name : String
  pub container_id : String

abbrev pub empty_response : StartContainerResponse
empty_response = record { container_start_delay = false; container_name = ""; container_id = "" }

pub data DockerCall : Type 0 where
  creates : ContainerSpec → DockerCall
  starts : String → DockerCall

-- What Docker answers: to the client's creation, to the list of the running containers with the
-- name, to a creation (with an ID) and to a start.
pub record Docker : Type 0 where
  pub client : Option ℕ
  pub running : Result ℕ (List Container)
  pub create : ContainerSpec → Result ℕ String
  pub start : String → Option ℕ

abbrev pub get_feed_in_container_name : String → String → String
get_feed_in_container_name prefix key = prefix ++ key

abbrev pub container_env : CreateConfig → FeedInContainer → List String
container_env conf c =
    ("FEEDER_LAT=" ++ c.lat)
    ∷ ("FEEDER_LON=" ++ c.lon)
    ∷ ("FEEDER_UUID=" ++ c.api_key)
    ∷ ("FEEDER_TAG=" ++ c.feeder_code)
    ∷ "PW_INGEST_PUBLISH=location-updates"
    ∷ "PW_INGEST_INPUT_MODE=listen"
    ∷ "PW_INGEST_INPUT_PROTO=beast"
    ∷ "PW_INGEST_INPUT_ADDR=0.0.0.0"
    ∷ "PW_INGEST_INPUT_PORT=12345"
    ∷ ("PW_INGEST_SINK=" ++ conf.pw_ingest_sink)
    ∷ []

abbrev pub container_spec : CreateConfig → FeedInContainer → ContainerSpec
container_spec conf c = record {
  name = get_feed_in_container_name conf.feed_in_container_prefix c.api_key;
  image = conf.feed_in_image_name;
  env = container_env conf c;
  labels =
      ("plane.watch.label", c.label)
      ∷ ("plane.watch.feedercode", c.feeder_code)
      ∷ ("plane.watch.lat", c.lat)
      ∷ ("plane.watch.lon", c.lon)
      ∷ ("plane.watch.uuid", c.api_key)
      ∷ [];
  auto_remove = true;
  tmpfs = ("/run", "exec,size=64M") ∷ ("/var/log", "") ∷ [];
  network = conf.feed_in_container_network;
}

-- The response and the error that `startFeederContainers` returns, and the calls to Docker that it
-- made, in their order.
pub record Created : Type 0 where
  pub response : StartContainerResponse
  pub error : Option ℕ
  pub calls : List DockerCall

abbrev pub after_start : StartContainerResponse → Option ℕ → List DockerCall → Option ℕ → Created
after_start resp listed calls (some e) = record {
  response = empty_response;
  error = some e;
  calls = calls;
}
after_start resp listed calls none = record { response = resp; error = listed; calls = calls }

-- A container is created and started. `listed` is the error of the list, which is returned at the
-- end.
abbrev pub after_create : Docker → ContainerSpec → Option ℕ → Result ℕ String → Created
after_create docker spec listed (err e) = record {
  response = empty_response;
  error = some e;
  calls = creates spec ∷ [];
}
after_create docker spec listed (ok id) =
    let resp : StartContainerResponse = record {
      container_start_delay = true;
      container_name = spec.name;
      container_id = id;
    } in
    after_start resp listed (creates spec ∷ starts id ∷ []) (docker.start id)

-- With the containers that were listed and the error of the list; with an error the list is empty.
abbrev pub after_list : Docker → ContainerSpec → Result ℕ (List Container) → Created
after_list docker spec (err e) = after_create docker spec (some e) (docker.create spec)
after_list docker spec (ok []) = after_create docker spec none (docker.create spec)
after_list docker spec (ok (c ∷ cs)) = record {
  response = record empty_response { container_name = spec.name };
  error = none;
  calls = [];
}

-- `client` is the error of the client of Docker.
abbrev pub after_client : Docker → ContainerSpec → Option ℕ → Created
after_client docker spec (some e) = record { response = empty_response; error = some e; calls = [] }
after_client docker spec none = after_list docker spec docker.running

unfoldable pub start_feeder_containers : Docker → CreateConfig → FeedInContainer → Created
start_feeder_containers docker conf c = after_client docker (container_spec conf c) docker.client

-- What `Start` meets at its two selects: its context is cancelled, its time is over, or the request
-- is taken; and then a response and its error.
pub data Submitted : Type 0 where
  submit_cancelled submit_timed_out taken : Submitted

pub data Answer : Type 0 where
  answer_cancelled answer_timed_out : Answer
  answered : StartContainerResponse → Option ℕ → Answer

-- The container's ID or an error, and whether it waited five seconds for the container.
abbrev pub Started : Type 0
Started = Result ContainerError String × Bool

abbrev pub after_answer : Answer → Started
after_answer answer_cancelled = (err context_cancelled, false)
after_answer answer_timed_out = (err timeout_start_resp, false)
after_answer (answered r (some e)) = (err (docker_error e), false)
after_answer (answered r none) = (ok r.container_id, r.container_start_delay)

abbrev pub after_submit : Submitted → Answer → Started
after_submit submit_cancelled a = (err context_cancelled, false)
after_submit submit_timed_out a = (err timeout_start_req, false)
after_submit taken a = after_answer a

unfoldable pub start : Bool → Submitted → Answer → Started
start initialised s a = elim initialised [
  | true ↦ after_submit s a
  | false ↦ (err not_initialised, false)
]

-- The answer to a request that is served in time.
abbrev pub served : Created → Answer
served r = answered r.response r.error
