-- ===== src/Server/Closing.antt =====
-- The closes of `runServer`.
use bordercontrol.Prelude.{
  ℕ, ◌≡◌, refl, ap, subst, sym, ◌∙◌, Bool, true, false, List, [], ◌∷◌, none, some, arith,
  Bool-cases, inl, inr, ◌≢◌, ◌⊎◌,
}
use bordercontrol.Nats
use bordercontrol.Nats.{NatsError, NatsState}
use bordercontrol.Stunnel
use bordercontrol.Stunnel.Closing.{IsClosed, close-IsClosed}
use bordercontrol.Stats.Lifecycle as StatsLifecycle
use bordercontrol.FeedProxy.Lifecycle as ProxyLifecycle
use bordercontrol.Containers.Lifecycle as ManagerLifecycle
use bordercontrol.Containers.Worker.{Manager, WorkerState, idle, stopped, working, sending}
use bordercontrol.Stats.Collectors.{unregister_prom_collector}
use bordercontrol.Server.{
  nats, tls, statistics, proxy, manager, closes, Server, ServerEnv, did, close_nats, close_tls,
  close_stats, close_manager, close_proxy, close_effect,
}
use bordercontrol.Server.Orderly.{close_order, IsUp, nats_end, Hangs, EndsWith, did-EndsWith}

-- All but NATS is down.
abbrev IsDownButNats : Server → Type 0
IsDownButNats s =
    (s.stats.statistics.initialised ≡ false)
    × (s.stats.goroutines ≡ 0)
    × (s.proxy.initialised ≡ false)
    × (s.proxy.goroutines ≡ 0)
    × (s.manager.initialised ≡ false)
    × (s.manager.goroutines ≡ 0)
    × ((t : Stunnel.Server) × (s.tls ≡ some t) × IsClosed t)

-- All but TLS and NATS is down.
abbrev IsDownButTls : Server → Type 0
IsDownButTls s =
    (s.stats.statistics.initialised ≡ false)
    × (s.stats.goroutines ≡ 0)
    × (s.proxy.initialised ≡ false)
    × (s.proxy.goroutines ≡ 0)
    × (s.manager.initialised ≡ false)
    × (s.manager.goroutines ≡ 0)

closed_nats :
    (n : NatsState)
    → (b : Bool) × (close_effect nats (Nats.close n).0 ≡ nats_end b)
      × ((Nats.close n).1.initialised ≡ false)
unfolding Nats.close
closed_nats n = elim (Bool-cases n.initialised) [
  | inl up ↦ (true, rw up, rw up)
  | inr down ↦ (false, rw down, rw down)
]

close_nats-EndsWith :
    (hang : Type 0) (s : Server) → IsDownButNats s → EndsWith hang [] (close_nats s)
unfolding close_nats
close_nats-EndsWith hang s (a, b, c, d, e, f, g) =
    let (x, said, shut) = closed_nats s.nats in
    ((x, ap (λ y. y ∷ []) said), (a, b, c, d, e, f, shut, g))

close_tls-EndsWith :
    (hang : Type 0) (env : ServerEnv) (s : Server) (t : Stunnel.Server)
    → t.closed ≡ false
    → IsDownButTls s
    → EndsWith hang (closes tls ∷ []) (close_tls env s (some t))
close_tls-EndsWith hang env s t fresh (a, b, c, d, e, f) =
    let (u, h, shut) = close-IsClosed env.last_loads t fresh in
    let down =
      close_nats-EndsWith hang (record s { tls = some u }) (a, b, c, d, e, f, (u, refl, shut)) in
    rw h (did-EndsWith hang (closes tls) [] _ down)

-- What the packages are closed to.
abbrev closed_stats : StatsLifecycle.Package → StatsLifecycle.Package
closed_stats p = record p {
  statistics = record p.statistics { initialised = false };
  goroutines = 0;
}

close-closed_stats :
    (p : StatsLifecycle.Package)
    → p.statistics.initialised ≡ true
    → StatsLifecycle.close p ≡ (none, closed_stats p)
unfolding StatsLifecycle.close
close-closed_stats p up = ground arith

worker_cases :
    (w : WorkerState) (p : ManagerLifecycle.Package)
    → (ManagerLifecycle.after_wait w p
        ≡ some (none, record p { initialised = false; goroutines = 0 }))
      ⊎ ((w ≢ stopped) × (ManagerLifecycle.after_wait w p ≡ none))
worker_cases stopped p = inl refl
worker_cases idle p = inr (λ e. cc, refl)
worker_cases (working k) p = inr (λ e. cc, refl)
worker_cases (sending k) p = inr (λ e. cc, refl)

close_closed_proxy :
    (answer : Bool) (cs : List ℕ) (p : ProxyLifecycle.Package)
    → p.initialised ≡ true
    → (ds : List ℕ) × (ProxyLifecycle.close answer cs p
        ≡ (none, ds, record p { initialised = false; goroutines = 0 }))
unfolding ProxyLifecycle.close
close_closed_proxy answer cs p up =
    ((unregister_prom_collector answer ProxyLifecycle.feeders_collector cs).1, ground arith)

close_stats-EndsWith :
    (hang : Type 0) (env : ServerEnv) (s : Server) (t : Stunnel.Server)
    → s.stats.statistics.initialised ≡ true
    → s.tls ≡ some t
    → t.closed ≡ false
    → s.proxy.initialised ≡ false
    → s.proxy.goroutines ≡ 0
    → s.manager.initialised ≡ false
    → s.manager.goroutines ≡ 0
    → EndsWith hang (closes statistics ∷ closes tls ∷ []) (close_stats env s)
unfolding close_stats
close_stats-EndsWith hang env s t up there fresh a b c d =
    let s' = record s { stats = closed_stats s.stats } in
    rw (close-closed_stats s.stats up) (
      subst
        (λ o.
          EndsWith hang (closes statistics ∷ closes tls ∷ [])
            (did (closes statistics) (close_tls env s' o)))
        (sym there)
        (did-EndsWith hang (closes statistics) (closes tls ∷ []) _
          (close_tls-EndsWith hang env s' t fresh (refl, refl, a, b, c, d))))

stop-after_wait :
    (m : Manager) (p : ManagerLifecycle.Package)
    → p.initialised ≡ true
    → ManagerLifecycle.stop m p ≡ ManagerLifecycle.after_wait m.worker p
unfolding ManagerLifecycle.stop
stop-after_wait m p up = ground arith

-- The goroutine that starts containers has gone, or `Stop` waits for it for ever.
stop_cases :
    (m : Manager) (p : ManagerLifecycle.Package)
    → p.initialised ≡ true
    → (ManagerLifecycle.stop m p ≡ some (none, record p { initialised = false; goroutines = 0 }))
      ⊎ ((m.worker ≢ stopped) × (ManagerLifecycle.stop m p ≡ none))
stop_cases m p up =
    let waits = stop-after_wait m p up in
    elim (worker_cases m.worker p) [
      | inl e ↦ inl (waits ∙ e)
      | inr (there, e) ↦ inr (there, waits ∙ e)
    ]

close_manager-EndsWith :
    (env : ServerEnv) (s : Server) (t : Stunnel.Server)
    → s.stats.statistics.initialised ≡ true
    → s.tls ≡ some t
    → t.closed ≡ false
    → s.manager.initialised ≡ true
    → s.proxy.initialised ≡ false
    → s.proxy.goroutines ≡ 0
    → EndsWith
        (Hangs env)
        (closes manager ∷ closes statistics ∷ closes tls ∷ [])
        (close_manager env s)
unfolding close_manager
close_manager-EndsWith env s t up there fresh running a b =
    let p = record s.manager { initialised = false; goroutines = 0 } in
    elim (stop_cases env.starter s.manager running) [
      | inl e ↦ rw e (
          did-EndsWith (Hangs env) (closes manager) (closes statistics ∷ closes tls ∷ []) _ (
            close_stats-EndsWith (Hangs env) env (record s { manager = p }) t up there fresh a b
              refl refl))
      | inr (waits, e) ↦ rw e waits
    ]

pub close_proxy-EndsWith :
    (env : ServerEnv) (s : Server) → IsUp s → EndsWith (Hangs env) close_order (close_proxy env s)
unfolding close_proxy
close_proxy-EndsWith env s (stats_up, proxy_up, manager_up, (t, there, fresh)) =
    let (ds, e) = close_closed_proxy env.feeders_unregistered s.stats.collectors s.proxy proxy_up in
    let s' = record s {
      proxy = record s.proxy { initialised = false; goroutines = 0 };
      stats = record s.stats { collectors = ds };
    } in
    rw e (
      did-EndsWith (Hangs env) (closes proxy) (closes manager ∷ closes statistics ∷ closes tls ∷ [])
        _ (close_manager-EndsWith env s' t stats_up there fresh manager_up refl refl))
