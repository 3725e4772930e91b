-- ===== src/Server/Starts.antt =====
-- What the starts of the subsystems leave.
use bordercontrol.Prelude.{
  ℕ, String, ◌≡◌, refl, Bool, true, false, ◌&&◌, List, Option, none, some, Result, ok, err, Outcome,
  returns, panics, if_elim, Option-cases, inl, inr,
}
use bordercontrol.Nats.{NatsError, NatsState}
use bordercontrol.Stunnel
use bordercontrol.Stats.Lifecycle as StatsLifecycle
use bordercontrol.FeedProxy.Lifecycle as ProxyLifecycle
use bordercontrol.Containers.Lifecycle as ManagerLifecycle
use bordercontrol.Atc.{Client}
use bordercontrol.Stats.Collectors.{PromError}

-- What the start of a package leaves, if it succeeds.
abbrev pub StatsStarts :
    Option StatsLifecycle.InitError × NatsState × StatsLifecycle.Package → Type 0
StatsStarts (none, n, p) = p.statistics.initialised ≡ true
StatsStarts (some e, n, p) = Unit

abbrev pub ProxyStarts : Option ProxyLifecycle.InitError × List ℕ × ProxyLifecycle.Package → Type 0
ProxyStarts (none, cs, p) = p.initialised ≡ true
ProxyStarts (some e, cs, p) = Unit

abbrev pub ManagerStarts :
    Bool
    → Outcome (Option ManagerLifecycle.RunError × NatsState × ManagerLifecycle.Package)
    → Type 0
ManagerStarts gauges (returns (none, n, p)) = p.initialised ≡ true
ManagerStarts gauges (returns (some e, n, p)) = Unit
ManagerStarts gauges panics = gauges ≡ false

after_nats-StatsStarts :
    (r : Option StatsLifecycle.InitError × NatsState × StatsLifecycle.Package)
    → StatsStarts (StatsLifecycle.after_nats r)
after_nats-StatsStarts (none, n, p) = refl
after_nats-StatsStarts (some e, n, p) = tt

start_package-StatsStarts :
    (env : StatsLifecycle.InitEnv) (n : NatsState) (p : StatsLifecycle.Package)
    → StatsStarts (StatsLifecycle.start_package env n p)
unfolding StatsLifecycle.start_package
start_package-StatsStarts env n p =
    if_elim StatsStarts (n.initialised && env.connected) (λ _. after_nats-StatsStarts _) (λ _. refl)

pub init-StatsStarts :
    (env : StatsLifecycle.InitEnv) (n : NatsState) (p : StatsLifecycle.Package)
    → StatsStarts (StatsLifecycle.init env n p)
unfolding StatsLifecycle.init
init-StatsStarts env n p =
    if_elim StatsStarts p.statistics.initialised (λ _. tt)
      (λ _.
        let globals = StatsLifecycle.register_all env.globals p.collectors in
        elim (Option-cases globals.0) [
          | inr (x, e) ↦ rw e tt
          | inl fine ↦
              rw fine (elim (Option-cases (StatsLifecycle.register_all env.vectors globals.1).0) [
                | inr (x, e) ↦ rw e tt
                | inl fine' ↦ rw fine' (start_package-StatsStarts env n _)
              ])
        ])

after_register-ProxyStarts :
    (r : Option PromError × List ℕ) (p : ProxyLifecycle.Package)
    → ProxyStarts (ProxyLifecycle.after_register r p)
after_register-ProxyStarts (none, cs) p = refl
after_register-ProxyStarts (some e, cs) p = tt

with_client-ProxyStarts :
    (client : Result ℕ Client) (answer : Option ℕ) (cs : List ℕ) (p : ProxyLifecycle.Package)
    → ProxyStarts (ProxyLifecycle.with_client client answer cs p)
with_client-ProxyStarts (err e) answer cs p = tt
with_client-ProxyStarts (ok c) answer cs p = after_register-ProxyStarts _ _

pub init-ProxyStarts :
    (client : Result ℕ Client) (answer : Option ℕ) (cs : List ℕ) (p : ProxyLifecycle.Package)
    → ProxyStarts (ProxyLifecycle.init client answer cs p)
unfolding ProxyLifecycle.init
init-ProxyStarts client answer cs p =
    if_elim ProxyStarts p.initialised (λ _. tt) (λ _. with_client-ProxyStarts client answer cs _)

start_manager-ManagerStarts :
    (gauges : Bool) (image prefix : String) (n : NatsState) (p : ManagerLifecycle.Package)
    → ManagerStarts gauges
        (ManagerLifecycle.beside_nats n (ManagerLifecycle.start_manager gauges image prefix p))
start_manager-ManagerStarts true image prefix n p = refl
start_manager-ManagerStarts false image prefix n p = refl

after_nats-ManagerStarts :
    (env : ManagerLifecycle.RunEnv) (p : ManagerLifecycle.Package)
    (r : Option NatsError × NatsState)
    → ManagerStarts env.registered (ManagerLifecycle.after_nats env p r)
after_nats-ManagerStarts env p (none, n) = start_manager-ManagerStarts env.registered _ _ n p
after_nats-ManagerStarts env p (some NatsError.not_initialised, n) =
    start_manager-ManagerStarts env.registered _ _ n p
after_nats-ManagerStarts env p (some e, n) = tt

pub run-ManagerStarts :
    (env : ManagerLifecycle.RunEnv) (n : NatsState) (p : ManagerLifecycle.Package)
    → ManagerStarts env.registered (ManagerLifecycle.run env n p)
unfolding ManagerLifecycle.run
run-ManagerStarts env n p =
    if_elim (ManagerStarts env.registered) p.initialised (λ _. tt)
      (λ _. after_nats-ManagerStarts env _ _)

abbrev pub TlsStarts : Result ℕ Stunnel.Server → Type 0
TlsStarts (ok t) = t.closed ≡ false
TlsStarts (err e) = Unit

pub new_server-TlsStarts : (load : Result ℕ ℕ) → TlsStarts (Stunnel.new_server load)
unfolding Stunnel.new_server
new_server-TlsStarts (ok cert) = refl
new_server-TlsStarts (err e) = tt
