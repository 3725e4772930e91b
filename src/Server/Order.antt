-- ===== src/Server/Order.antt =====
-- The order in which `runServer` starts and closes the subsystems.
use bordercontrol.Prelude.{
  ℕ, ◌≡◌, refl, true, false, List, [], ◌∷◌, ◌++◌, Option, none, some, Result, ok, err, Outcome,
  returns, panics, codes, ◌⊎◌, inl, inr,
}
use bordercontrol.FeedProtocol.{beast, mlat}
use bordercontrol.Nats.{NatsError, NatsState}
use bordercontrol.Stunnel
use bordercontrol.Stats.Lifecycle as StatsLifecycle
use bordercontrol.FeedProxy.Lifecycle as ProxyLifecycle
use bordercontrol.Containers.Lifecycle as ManagerLifecycle
use bordercontrol.Server.{
  Effect, nats, tls, statistics, proxy, manager, starts, listens, Server, ServerEnv, Ended, listen,
  after_listening, start_manager, start_proxy, start_stats, start_tls, run_server, after_manager,
  after_proxy, after_stats, after_tls, after_nats,
}
use bordercontrol.Listener.Address.{Without}
use bordercontrol.Server.Listening.{Attempt}
use bordercontrol.Server.Panics.{IsBare, listen_with_context-IsBare}
use bordercontrol.Server.Orderly.{
  start_order, close_order, IsUp, IsOrderly, did-starts, did-serves, EndsWith-IsOrderly, Hangs,
}
use bordercontrol.Server.Closing.{close_proxy-EndsWith}
use bordercontrol.Server.Starts.{
  StatsStarts, ProxyStarts, ManagerStarts, TlsStarts, init-StatsStarts, init-ProxyStarts,
  run-ManagerStarts, new_server-TlsStarts,
}

abbrev served_effects : List Effect
served_effects = listens beast ∷ listens mlat ∷ close_order

-- What a panic is due to: a gauge of the manager, or an address without a colon.
abbrev pub MayPanic : ServerEnv → Type 0
MayPanic env =
    (env.containers.registered ≡ false)
    ⊎ Without b':' env.listen_beast
    ⊎ Without b':' env.listen_mlat

module _ (env : ServerEnv) (keeps : (s : Server) → IsUp s → IsUp (env.served s)) where
  -- The rest of a run that is orderly.
  abbrev Orderly : List Effect → Ended → Type 0
  Orderly ups r = IsOrderly (MayPanic env) (Hangs env) ups (ups ++ served_effects) r

  after_listening-IsOrderly :
      (s : Server) (b m : Outcome (List Attempt))
      → IsUp s
      → IsBare env.listen_beast b
      → IsBare env.listen_mlat m
      → IsOrderly (MayPanic env) (Hangs env) [] close_order (after_listening env s b m)
  after_listening-IsOrderly s panics m up hb hm = inr (inl hb)
  after_listening-IsOrderly s (returns b) panics up hb hm = inr (inr hm)
  after_listening-IsOrderly s (returns b) (returns m) up hb hm =
      EndsWith-IsOrderly (MayPanic env) (Hangs env) [] close_order _
        (close_proxy-EndsWith env (env.served s) (keeps s up))

  listen-Orderly : (s : Server) → IsUp s → Orderly [] (listen env s)
  unfolding listen
  listen-Orderly s up =
      let prefix = codes env.containers.prefix in
      did-serves (MayPanic env) (Hangs env) (listens beast) (listens mlat ∷ close_order) _ (
        did-serves (MayPanic env) (Hangs env) (listens mlat) close_order _ (
          after_listening-IsOrderly s _ _ up
            (listen_with_context-IsBare env.parse_ip env.listen_beast beast prefix 12345
              s.proxy.initialised env.beast_turns)
            (listen_with_context-IsBare env.parse_ip env.listen_mlat mlat prefix 12346
              s.proxy.initialised env.mlat_turns)))

  after_manager-Orderly :
      (s : Server)
      (r : Outcome (Option ManagerLifecycle.RunError × NatsState × ManagerLifecycle.Package))
      → ManagerStarts env.containers.registered r
      → s.stats.statistics.initialised ≡ true
      → s.proxy.initialised ≡ true
      → ((t : Stunnel.Server) × (s.tls ≡ some t) × (t.closed ≡ false))
      → Orderly (starts manager ∷ []) (after_manager env s r)
  after_manager-Orderly s (returns (none, n, p)) h a b c =
      did-starts (MayPanic env) (Hangs env) (starts manager) [] served_effects _
        (listen-Orderly (record s { nats = n; manager = p }) (a, b, h, c))
  after_manager-Orderly s (returns (some e, n, p)) h a b c = refl
  after_manager-Orderly s panics h a b c = inl h

  after_proxy-Orderly :
      (s : Server) (r : Option ProxyLifecycle.InitError × List ℕ × ProxyLifecycle.Package)
      → ProxyStarts r
      → s.stats.statistics.initialised ≡ true
      → ((t : Stunnel.Server) × (s.tls ≡ some t) × (t.closed ≡ false))
      → Orderly (starts proxy ∷ starts manager ∷ []) (after_proxy env s r)
  unfolding start_manager
  after_proxy-Orderly s (none, cs, p) h a c =
      did-starts (MayPanic env) (Hangs env) (starts proxy) (starts manager ∷ [])
        (starts manager ∷ served_effects) _
        (after_manager-Orderly (record s { proxy = p; stats = record s.stats { collectors = cs } })
          _ (run-ManagerStarts env.containers s.nats s.manager) a h c)
  after_proxy-Orderly s (some e, cs, p) h a c = refl

  after_stats-Orderly :
      (s : Server) (r : Option StatsLifecycle.InitError × NatsState × StatsLifecycle.Package)
      → StatsStarts r
      → ((t : Stunnel.Server) × (s.tls ≡ some t) × (t.closed ≡ false))
      → Orderly (starts statistics ∷ starts proxy ∷ starts manager ∷ []) (after_stats env s r)
  unfolding start_proxy
  after_stats-Orderly s (none, n, p) h c =
      did-starts (MayPanic env) (Hangs env) (starts statistics) (starts proxy ∷ starts manager ∷ [])
        (starts proxy ∷ starts manager ∷ served_effects) _
        (after_proxy-Orderly (record s { nats = n; stats = p }) _
          (init-ProxyStarts env.client env.feeders_registered p.collectors s.proxy) h c)
  after_stats-Orderly s (some e, n, p) h c = refl

  after_tls-Orderly :
      (s : Server) (r : Result ℕ Stunnel.Server)
      → TlsStarts r
      → Orderly
          (starts tls ∷ starts statistics ∷ starts proxy ∷ starts manager ∷ [])
          (after_tls env s r)
  unfolding start_stats
  after_tls-Orderly s (ok t) h =
      did-starts (MayPanic env) (Hangs env) (starts tls)
        (starts statistics ∷ starts proxy ∷ starts manager ∷ [])
        (starts statistics ∷ starts proxy ∷ starts manager ∷ served_effects) _
        (after_stats-Orderly (record s { tls = some t }) _
          (init-StatsStarts env.stats s.nats s.stats) (t, refl, h))
  after_tls-Orderly s (err e) h = refl

  after_nats-Orderly :
      (s : Server) (r : Option NatsError × NatsState) → Orderly start_order (after_nats env s r)
  unfolding start_tls
  after_nats-Orderly s (none, n) =
      did-starts (MayPanic env) (Hangs env) (starts nats)
        (starts tls ∷ starts statistics ∷ starts proxy ∷ starts manager ∷ [])
        (starts tls ∷ starts statistics ∷ starts proxy ∷ starts manager ∷ served_effects) _
        (after_tls-Orderly (record s { nats = n }) _ (new_server-TlsStarts env.key_pair))
  after_nats-Orderly s (some e, n) = refl

  -- If the subsystems stay up while the listeners run: `runServer` either returns the error of a
  -- subsystem, having started just those before it in the order NATS, TLS, statistics, proxy,
  -- manager, and closed none; or it starts all of them, listens for BEAST and MLAT, closes proxy,
  -- manager, statistics, TLS and, if it can, NATS, and returns no error, with no subsystem
  -- initialised, the TLS server closed and no goroutine of theirs left. It panics only if a gauge of the manager cannot be
  -- registered, or the address of a listener has no colon, and waits for ever only if the goroutine
  -- that starts containers does not end once the manager is stopped.
  pub run_server-IsOrderly :
      (s : Server)
      → IsOrderly
          (MayPanic env)
          (Hangs env)
          start_order
          (start_order ++ listens beast ∷ listens mlat ∷ close_order)
          (run_server env s)
  unfolding run_server
  run_server-IsOrderly s = after_nats-Orderly s _
