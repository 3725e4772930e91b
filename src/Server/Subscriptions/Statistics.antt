-- ===== src/Server/Subscriptions/Statistics.antt =====
-- The subjects that the start of the statistics subscribes to.
use bordercontrol.Prelude.{
  ℕ, String, refl, ◌&&◌, List, Option, none, some, Result, ok, err, if_elim, Option-cases,
  Bool-cases, inl, inr,
}
use bordercontrol.Nats
use bordercontrol.Nats.{NatsError, NatsState, nats_subj_ping, sub, subscribed}
use bordercontrol.Stats.Lifecycle as StatsLifecycle
use bordercontrol.Server.Subscriptions.{accepted, accepted_if, Adds, AddsIfFine, sub_all-Adds}

-- The start of the statistics.
abbrev pub StatsAdds :
    List String
    → NatsState
    → Option StatsLifecycle.InitError × NatsState × StatsLifecycle.Package
    → Type 0
StatsAdds subjs n (none, n', p) = Adds subjs n n'
StatsAdds subjs n (some e, n', p) = Unit

after_nats-StatsAdds :
    (subjs : List String) (n : NatsState) (p : StatsLifecycle.Package)
    (r : Option NatsError × NatsState)
    → AddsIfFine subjs n r
    → StatsAdds subjs n (
        StatsLifecycle.after_nats
          (elim r.0 [ none ↦ none | some x ↦ some (StatsLifecycle.nats_error x) ], r.1, p))
after_nats-StatsAdds subjs n p (none, n') h = h
after_nats-StatsAdds subjs n p (some e, n') h = tt

init_nats-StatsAdds :
    (answer : String → Option ℕ) (n : NatsState) (p : StatsLifecycle.Package)
    → StatsAdds
        (accepted answer StatsLifecycle.stats_subjects)
        n
        (StatsLifecycle.after_nats (StatsLifecycle.init_nats answer n p))
unfolding StatsLifecycle.init_nats Nats.get_instance
init_nats-StatsAdds answer n p =
    let subjs = StatsLifecycle.stats_subjects in
    let (e, n') = StatsLifecycle.sub_all subjs answer n in
    if_elim
      (λ (name : Result NatsError String). StatsAdds (accepted answer subjs) n (
        StatsLifecycle.after_nats (elim name [
          | err x ↦ (some (StatsLifecycle.nats_error x), n, p)
          | ok name ↦ (
            elim e [ none ↦ none | some x ↦ some (StatsLifecycle.nats_error x) ],
            n',
            record p { nats_instance = name },
          )
        ])))
      n.initialised
      (λ _. after_nats-StatsAdds (accepted answer subjs) n _ (e, n') (sub_all-Adds subjs answer n))
      (λ _. tt)

abbrev pub stats_accepted : StatsLifecycle.InitEnv → NatsState → List String
stats_accepted env n =
    accepted_if (n.initialised && env.connected) env.subscribe StatsLifecycle.stats_subjects

start_package-StatsAdds :
    (env : StatsLifecycle.InitEnv) (n : NatsState) (p : StatsLifecycle.Package)
    → StatsAdds (stats_accepted env n) n (StatsLifecycle.start_package env n p)
unfolding StatsLifecycle.start_package
start_package-StatsAdds env n p =
    let asks = n.initialised && env.connected in
    elim (Bool-cases asks) [
      | inl asked ↦ rw asked (init_nats-StatsAdds env.subscribe n _)
      | inr quiet ↦ rw quiet (refl, refl)
    ]

pub init-StatsAdds :
    (env : StatsLifecycle.InitEnv) (n : NatsState) (p : StatsLifecycle.Package)
    → StatsAdds (stats_accepted env n) n (StatsLifecycle.init env n p)
unfolding StatsLifecycle.init
init-StatsAdds env n p =
    if_elim (StatsAdds (stats_accepted env n) n) p.statistics.initialised (λ _. tt)
      (λ _.
        let globals = StatsLifecycle.register_all env.globals p.collectors in
        elim (Option-cases globals.0) [
          | inr (x, e) ↦ rw e tt
          | inl fine ↦
              rw fine (elim (Option-cases (StatsLifecycle.register_all env.vectors globals.1).0) [
                | inr (x, e) ↦ rw e tt
                | inl fine' ↦ rw fine' (start_package-StatsAdds env n _)
              ])
        ])
