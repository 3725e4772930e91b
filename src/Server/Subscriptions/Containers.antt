-- ===== src/Server/Subscriptions/Containers.antt =====
-- The subjects that the start of the container manager subscribes to.
use bordercontrol.Prelude.{
  String, ◌≡◌, refl, ◌∙◌, Bool, true, false, ◌&&◌, List, [], ◌∷◌, ◌++◌, Option, none, some, Outcome,
  returns, panics, if_elim, arith, Bool-cases, inl, inr,
}
use bordercontrol.Nats
use bordercontrol.Nats.{NatsError, NatsState, nats_subj_ping, sub, subscribed}
use bordercontrol.Containers.Lifecycle as ManagerLifecycle
use bordercontrol.Server.Subscriptions.{
  if_accepted, accepted_if, Adds, subscribed-Adds, Adds-append, sub-up,
}

-- The start of the manager.
abbrev pub ManagerAdds :
    List String
    → NatsState
    → Outcome (Option ManagerLifecycle.RunError × NatsState × ManagerLifecycle.Package)
    → Type 0
ManagerAdds subjs n (returns (none, n', p)) = Adds subjs n n'
ManagerAdds subjs n (returns (some e, n', p)) = Unit
ManagerAdds subjs n panics = Unit

abbrev manager_subjects : List String
manager_subjects =
    ManagerLifecycle.nats_subj_feed_in_image_rebuild ∷ ManagerLifecycle.nats_subj_feeder_kick ∷ []

abbrev pub manager_accepted : ManagerLifecycle.RunEnv → NatsState → List String
manager_accepted env n = accepted_if (n.initialised && env.connected) env.subscribe manager_subjects

-- The error that the package is not initialised is passed over.
abbrev AddsIfPassed : List String → NatsState → Option NatsError × NatsState → Type 0
AddsIfPassed subjs n (none, n') = Adds subjs n n'
AddsIfPassed subjs n (some Nats.not_initialised, n') = Adds subjs n n'
AddsIfPassed subjs n (some e, n') = Unit

init_nats-AddsIfPassed :
    (env : ManagerLifecycle.RunEnv) (n : NatsState)
    → AddsIfPassed
        (manager_accepted env n)
        n
        (ManagerLifecycle.init_nats env.connected env.subscribe n)
unfolding ManagerLifecycle.init_nats
init_nats-AddsIfPassed env n = elim (Bool-cases (n.initialised && env.connected)) [
  | inl asked ↦
      let rebuild = ManagerLifecycle.nats_subj_feed_in_image_rebuild in
      let kick = ManagerLifecycle.nats_subj_feeder_kick in
      let first = if_accepted rebuild (env.subscribe rebuild) in
      let second = if_accepted kick (env.subscribe kick) in
      let n' = subscribed rebuild (env.subscribe rebuild) n in
      let n'' = subscribed kick (env.subscribe kick) n' in
      let up : n.initialised ≡ true = ground (arith, asked) in
      let h = subscribed-Adds rebuild (env.subscribe rebuild) n in
      rw
        (
          asked,
          sub-up rebuild (env.subscribe rebuild) n up,
          sub-up kick (env.subscribe kick) n' (h.0 ∙ up),
        )
        (Adds-append first (second ++ []) n n' n'' h (
          Adds-append second [] n' n'' n'' (subscribed-Adds kick (env.subscribe kick) n')
            (refl, refl)))
  | inr quiet ↦ rw quiet (refl, refl)
]

beside_nats-ManagerAdds :
    (env : ManagerLifecycle.RunEnv) (p : ManagerLifecycle.Package) (subjs : List String)
    (n n' : NatsState) (registered : Bool)
    → Adds subjs n n'
    → ManagerAdds subjs n (
        ManagerLifecycle.beside_nats n'
          (ManagerLifecycle.start_manager registered env.image env.prefix p))
beside_nats-ManagerAdds env p subjs n n' true h = h
beside_nats-ManagerAdds env p subjs n n' false h = tt

after_nats-ManagerAdds :
    (env : ManagerLifecycle.RunEnv) (p : ManagerLifecycle.Package) (subjs : List String)
    (n : NatsState) (r : Option NatsError × NatsState)
    → AddsIfPassed subjs n r
    → ManagerAdds subjs n (ManagerLifecycle.after_nats env p r)
after_nats-ManagerAdds env p subjs n (none, n') h =
    beside_nats-ManagerAdds env p subjs n n' env.registered h
after_nats-ManagerAdds env p subjs n (some Nats.not_initialised, n') h =
    beside_nats-ManagerAdds env p subjs n n' env.registered h
after_nats-ManagerAdds env p subjs n (some (Nats.host_error e), n') h = tt
after_nats-ManagerAdds env p subjs n (some (Nats.connect_error e), n') h = tt
after_nats-ManagerAdds env p subjs n (some (Nats.regexp_error e), n') h = tt

pub run-ManagerAdds :
    (env : ManagerLifecycle.RunEnv) (n : NatsState) (p : ManagerLifecycle.Package)
    → ManagerAdds (manager_accepted env n) n (ManagerLifecycle.run env n p)
unfolding ManagerLifecycle.run
run-ManagerAdds env n p =
    if_elim (ManagerAdds (manager_accepted env n) n) p.initialised (λ _. tt)
      (λ _.
        after_nats-ManagerAdds env _ (manager_accepted env n) n _ (init_nats-AddsIfPassed env n))
