-- ===== src/Containers/Create/Running.antt =====
-- When `FeedInContainer.Start` says that a container runs.
use bordercontrol.Prelude.{
  ℕ, ◌≡◌, refl, String, true, List, [], ◌∷◌, Option, none, some, Result, ok, err, ◌⊎◌, inl, inr, ap,
  subst, sym, ok-injective, ◌↔◌,
}
use bordercontrol.Containers.{Container}
use bordercontrol.Containers.Create.{
  FeedInContainer, CreateConfig, ContainerSpec, StartContainerResponse, DockerCall, Docker,
  container_spec, after_start, after_create, after_list, after_client, start_feeder_containers,
  taken, after_answer, start, served,
}

after_start_ok :
    (resp : StartContainerResponse) (listed r : Option ℕ) (calls : List DockerCall) (id : String)
    → (after_answer (served (after_start resp listed calls r))).0 ≡ ok id
    → (listed ≡ none) × (r ≡ none) × (resp.container_id ≡ id)
after_start_ok resp listed (some e) calls id h = cc
after_start_ok resp (some e) none calls id h = cc
after_start_ok resp none none calls id h = (refl, refl, ok-injective h)

after_create_ok :
    (docker : Docker) (spec : ContainerSpec) (listed : Option ℕ) (r : Result ℕ String) (id : String)
    → (after_answer (served (after_create docker spec listed r))).0 ≡ ok id
    → (listed ≡ none) × (r ≡ ok id) × (docker.start id ≡ none)
after_create_ok docker spec listed (err e) id h = cc
after_create_ok docker spec listed (ok x) id h =
    let (clean, good, same) = after_start_ok _ listed (docker.start x) _ id h in
    (clean, ap (λ y. ok y) same, subst (λ y. docker.start y ≡ none) same good)

-- A container of the feeder was found, or created and started.
abbrev pub IsRunning : Docker → ContainerSpec → Result ℕ (List Container) → String → Type 0
IsRunning docker spec running id =
    ((c : Container) × (cs : List Container) × (running ≡ ok (c ∷ cs)) × (id ≡ ""))
    ⊎ ((running ≡ ok []) × (docker.create spec ≡ ok id) × (docker.start id ≡ none))

after_list_ok :
    (docker : Docker) (spec : ContainerSpec) (running : Result ℕ (List Container)) (id : String)
    → (after_answer (served (after_list docker spec running))).0 ≡ ok id
    → IsRunning docker spec running id
after_list_ok docker spec (err e) id h =
    let (failed, _, _) = after_create_ok docker spec (some e) (docker.create spec) id h in cc
after_list_ok docker spec (ok []) id h =
    let (_, made, good) = after_create_ok docker spec none (docker.create spec) id h in
    inr (refl, made, good)
after_list_ok docker spec (ok (c ∷ cs)) id h = inl (c, cs, refl, sym (ok-injective h))

IsRunning-ok :
    (docker : Docker) (spec : ContainerSpec) (running : Result ℕ (List Container)) (id : String)
    → IsRunning docker spec running id
    → (after_answer (served (after_list docker spec running))).0 ≡ ok id
IsRunning-ok docker spec running id (inl (c, cs, found, empty)) = rw (found, empty)
IsRunning-ok docker spec running id (inr (found, made, good)) = rw (found, made, good)

after_client_iff :
    (docker : Docker) (spec : ContainerSpec) (client : Option ℕ) (id : String)
    → ((after_answer (served (after_client docker spec client))).0 ≡ ok id)
      ↔ ((client ≡ none) × IsRunning docker spec docker.running id)
after_client_iff docker spec (some e) id = (λ h. cc, λ h. cc)
after_client_iff docker spec none id = (
  λ h. (refl, after_list_ok docker spec docker.running id h),
  λ h. IsRunning-ok docker spec docker.running id h.1,
)

module _ (docker : Docker) (conf : CreateConfig) (c : FeedInContainer) where
  -- `Start`, for a request that is taken and answered in time, returns an ID exactly if Docker
  -- could be reached and either lists a running container with the feeder's name, the ID then being
  -- the empty text, or lists none, and the container was created with that ID as configured, and
  -- started.
  pub start-ok_iff :
      (id : String)
      → ((start true taken (served (start_feeder_containers docker conf c))).0 ≡ ok id)
        ↔ ((docker.client ≡ none) × IsRunning docker (container_spec conf c) docker.running id)
  unfolding start_feeder_containers start
  start-ok_iff id = after_client_iff docker (container_spec conf c) docker.client id
