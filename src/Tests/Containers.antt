-- ===== src/Tests/Containers.antt =====
-- The feed-in containers: a request that is abandoned, a check, and the requests of operators.
use bordercontrol.Prelude.{
  arith, ℕ, ◌≡◌, ◌↔◌, refl, String, true, false, List, [], ◌∷◌, Option, none, some, Result, ok, err,
}
use bordercontrol.Containers.{Container}
use bordercontrol.Containers.Check.{container_loop, check_feeder_containers, count_not_current}
use bordercontrol.Containers.Check.Loop.{
  Wake, cancelled, skipped, slept, Round, check_loop, Settles, check_loop-Settles,
}
use bordercontrol.Containers.Check.Removal.{
  docker_after, delete_id, has_id, Removes, container_loop-Removes,
}
use bordercontrol.Containers.Create.{
  Docker, CreateConfig, FeedInContainer, container_spec, start_feeder_containers, start, taken,
  served,
}
use bordercontrol.Containers.Create.Running.{IsRunning, start-ok_iff}
use bordercontrol.Containers.Kick.{acked, IsKick, kick_feeder_handler, kick_feeder_handler_iff}
use bordercontrol.Containers.Rebuild.{rebuild_feed_in_image, IsBuilt, rebuild_feed_in_image_iff}
use bordercontrol.Containers.Worker.{
  Manager, Steps, WorkerState, working, sending, is_waiting, remove_call, submits, serves, receives,
  here, onward, started,
}
use bordercontrol.Containers.Worker.Service.{
  AllMatch, IsAbandoned, Steps-AllMatch, Steps-IsAbandoned,
}

abbrev taken_first : Manager
taken_first = record started { worker = working 4; waiting = 4 ∷ [] }

abbrev sent_first : Manager
sent_first = record taken_first { worker = sending 4 }

abbrev received_first : Manager
received_first = record {
  worker = WorkerState.idle;
  waiting = [];
  cancelled = false;
  received = (4, 4) ∷ [];
}

served_first : Steps started received_first
unfolding remove_call is_waiting
served_first = onward (submits 4 started refl) (
    onward (serves 4 taken_first refl)
      (onward (receives 4 4 sent_first refl refl) (here received_first)))

Steps-AllMatch_example : AllMatch received_first.received
Steps-AllMatch_example = Steps-AllMatch received_first served_first

-- The first call gives up while it is served.
abbrev abandoned : Manager
abandoned = record taken_first { waiting = [] }

abbrev abandoned_later : Manager
abandoned_later = record abandoned { worker = sending 4 }

Steps-IsAbandoned_example :
    IsAbandoned abandoned_later × (abandoned_later.received ≡ abandoned.received)
Steps-IsAbandoned_example =
    Steps-IsAbandoned (onward (serves 4 abandoned refl) (here abandoned_later))
      (record { busy = tt; nobody = refl })

abbrev containers : List Container
containers =
    record { id = "a"; image = "new" }
    ∷ record { id = "b"; image = "old" }
    ∷ record { id = "c"; image = "old" }
    ∷ []

abbrev remove : String → Option ℕ
remove id = none

container_loop-Removes_example :
    Removes remove "new" (container_loop "new" remove containers) containers
container_loop-Removes_example =
    container_loop-Removes remove "new" containers (unfold has_id in (refl, (refl, (refl, tt))))

abbrev round : List Container → Wake → Round
round cs w = record { client = none; found = ok cs; remove = remove; wake = w }

-- Two containers are old; a feeder comes back after the first check.
abbrev rounds : List Round
rounds =
    round containers slept
    ∷ round
        (record { id = "a"; image = "new" }
          ∷ record { id = "d"; image = "new" }
          ∷ record { id = "c"; image = "old" }
          ∷ [])
        skipped
    ∷ round (record { id = "d"; image = "new" } ∷ []) cancelled
    ∷ []

check_loop-Settles_example : Settles 2 (check_loop "new" rounds).checks
check_loop-Settles_example = check_loop-Settles "new" rounds 2 (
    unfold has_id check_feeder_containers container_loop count_not_current docker_after delete_id in
    (
      refl,
      λ x. refl,
      containers,
      refl,
      (refl, (refl, (refl, tt))),
      omega arith,
      (
        refl,
        λ x. refl,
        _,
        refl,
        (refl, (refl, (refl, tt))),
        omega arith,
        (refl, λ x. refl, _, refl, (refl, tt), omega arith, tt),
      ),
    ))

abbrev config : CreateConfig
config = record {
  feed_in_image_name = "new";
  feed_in_container_prefix = "feed-in-";
  feed_in_container_network = "bridge";
  pw_ingest_sink = "nats://sink";
}

abbrev feeder : FeedInContainer
feeder = record {
  lat = "1.0";
  lon = "2.0";
  label = "home";
  api_key = "7";
  feeder_code = "YSSY-0001";
}

abbrev docker : Docker
docker = record {
  client = none;
  running = ok (record { id = "a"; image = "new" } ∷ []);
  create = λ spec. ok "n";
  start = λ id. none;
}

start-ok_iff_example :
    ((start true taken (served (start_feeder_containers docker config feeder))).0 ≡ ok "")
    ↔ ((docker.client ≡ none) × IsRunning docker (container_spec config feeder) docker.running "")
start-ok_iff_example = start-ok_iff docker config feeder ""

abbrev unlisted : Docker
unlisted = record docker { running = err 5 }

abbrev find : String → Result ℕ (List Container)
find key = ok (record { id = "a"; image = "new" } ∷ [])

kick_feeder_handler_iff_example :
    (kick_feeder_handler (ok "7") remove none find ≡ (acked, some "a")) ↔ (
      (k : String) × (c : Container) × (◌≡◌ {A = Result ℕ String} (ok "7") (ok k))
      × IsKick remove none (find k) "a" c)
kick_feeder_handler_iff_example = kick_feeder_handler_iff (ok "7") remove none find "a"

abbrev error_of : String → String
error_of line = ""

rebuild_feed_in_image_iff_example :
    let r = rebuild_feed_in_image true none none (ok ("Step 1" ∷ [])) error_of in
    ((r.skips_delay ≡ true) ↔ IsBuilt true none none (ok ("Step 1" ∷ [])) error_of)
    × ((r.error ≡ none) ↔ IsBuilt true none none (ok ("Step 1" ∷ [])) error_of)
rebuild_feed_in_image_iff_example =
    rebuild_feed_in_image_iff true none none (ok ("Step 1" ∷ [])) error_of
