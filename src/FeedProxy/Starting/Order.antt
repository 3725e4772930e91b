-- ===== src/FeedProxy/Starting/Order.antt =====
-- The order in which `ProxyConnection.Start` acts on its surroundings, on every path to its end.
use bordercontrol.Prelude.{
  ℕ, ◌≡◌, refl, true, [], ◌∷◌, Option, none, some, ok, err, Outcome, returns, panics, ◌==◌, leb,
  if_elim, Bool-cases, Option-cases, Result, inl, inr,
}
use bordercontrol.FeedProtocol.{beast, mlat}
use bordercontrol.Stats.State.{Statistics, StatsError}
use bordercontrol.Stats.Feeders.{get_num_connections, register_feeder}
use bordercontrol.Stats.Connections.{register_connection}
use bordercontrol.Stats.Cases.{Reply}
use bordercontrol.Stats.Invariant.{IsValid}
use bordercontrol.Stats.Preserves.{
  IsValidAfter, register_connection-IsValid, unregister_connection-IsValid, register_feeder-IsValid,
}
use bordercontrol.FeedProxy.Tracker.{check, TooFrequent, IncomingConnectionTracker}
use bordercontrol.FeedProxy.Feeders.{FeederClient}
use bordercontrol.FeedProxy.Auth.{feeder_details}
use bordercontrol.FeedProxy.Auth.Laws.{authenticate_feeder_cases}
use bordercontrol.FeedProxy.Starting.{
  remote_ip, StartError, starts_container, dials, Target, writes, registers, unregisters,
  closes_server, closes_client, World, FirstRead, StartEnv, Started, with_effect, deferred,
  connection, proxying, proxy_reply, proxy_registered, proxy_dialled, dial_target, connect_server,
  limit_connections, identify, after_identify, after_check, bytes, failed, timed_out, after_dial,
  after_count, after_read, max_connections_per_proto, feed_in, mux, start,
}
use bordercontrol.FeedProxy.Starting.Stages.{
  accepted, dialled, written, over, stage_of, MayDial, dials-stage, fails_to_dial-stage,
  same_connection_refl,
}

-- What is left is to close the client; or the server, and then the client.
abbrev Closes : Started → Type 0
Closes (returns (x, w)) = IsValid w.stats × (stage_of (closes_client ∷ w.effects) ≡ some over)
Closes panics = ⊥

abbrev HangsUp : Started → Type 0
HangsUp (returns (x, w)) =
    IsValid w.stats × (stage_of (closes_client ∷ closes_server ∷ w.effects) ≡ some over)
HangsUp panics = ⊥

HangsUp-Closes : (r : Started) → HangsUp r → Closes (deferred closes_server r)
unfolding deferred
HangsUp-Closes (returns (x, w)) h = h
HangsUp-Closes panics h = h

module _ (env : StartEnv) (c : FeederClient)
    (quiet : (s : Statistics) → IsValid s → IsValid (env.meanwhile s)) where
  stage_of-unregistered :
      (w : World) (s s' : Statistics)
      → stage_of w.effects ≡ some written
      → let w' = with_effect (registers (connection env c)) (record w { stats = s }) in
        stage_of (
          closes_client
          ∷ closes_server
          ∷ unregisters (connection env c)
          ∷ (proxying env w').effects)
        ≡ some over
  unfolding stage_of
  stage_of-unregistered w s s' h = elim (Bool-cases (env.proto == mlat)) [
    | inl m ↦ rw (m, h, same_connection_refl (connection env c))
    | inr m ↦ rw (m, h, same_connection_refl (connection env c))
  ]

  proxy_reply-HangsUp :
      (w : World) (r : Outcome Reply)
      → IsValidAfter r
      → stage_of w.effects ≡ some written
      → HangsUp (proxy_reply env c w r)
  proxy_reply-HangsUp w panics v h = v
  proxy_reply-HangsUp w (returns (some e, s)) v h = (v, unfold stage_of in rw h)
  proxy_reply-HangsUp w (returns (none, s)) v h = (
    unregister_connection-IsValid (connection env c) env.unregistered_at (env.meanwhile s)
        (quiet s v),
    stage_of-unregistered w s s h,
  )

  proxy_dialled-Closes :
      (n : ℕ) (w : World)
      → IsValid w.stats
      → stage_of w.effects ≡ some dialled
      → Closes (proxy_dialled env c n w)
  unfolding proxy_dialled
  proxy_dialled-Closes n w v h = HangsUp-Closes _ (elim (Option-cases env.keep_alive) [
    | inr (e, k) ↦ rw k (v, unfold stage_of in rw h)
    | inl k ↦ rw k (elim (Option-cases env.keep_alive_period) [
      | inr (e, p) ↦ rw p (v, unfold stage_of in rw h)
      | inl p ↦ rw p (elim (Option-cases env.write) [
        | inr (e, q) ↦ rw q (v, unfold stage_of in rw h)
        | inl q ↦ rw q (
            unfold proxy_registered in
            proxy_reply-HangsUp (with_effect (writes n) w)
              (register_connection (connection env c) env.connected env.registered_at w.stats)
              (register_connection-IsValid (connection env c) env.connected env.registered_at
                w.stats v)
              (unfold stage_of in rw h))
      ])
    ])
  ])

  after_dial-Closes :
      (n : ℕ) (t : Target) (w : World) (r : Option ℕ)
      → IsValid w.stats
      → MayDial w.effects
      → Closes (after_dial env c n t w r)
  after_dial-Closes n t w (some e) v h = (v, fails_to_dial-stage w.effects t h)
  after_dial-Closes n t w none v h =
      proxy_dialled-Closes n (with_effect (dials t) w) v (dials-stage w.effects t h)

  connect_server-Closes :
      (n : ℕ) (w : World)
      → IsValid w.stats
      → stage_of w.effects ≡ some accepted
      → Closes (connect_server env c n w)
  unfolding connect_server
  connect_server-Closes n w v h =
      if_elim Closes (env.proto == beast)
        (λ _.
          let started = with_effect (starts_container c) w in
          unfold dial_target in
          after_dial-Closes n (feed_in c.client_api_key) started env.dial v
            (inr (unfold stage_of in rw h)))
        (λ _.
          if_elim Closes (env.proto == mlat)
            (λ _. unfold dial_target in after_dial-Closes n (mux c.mux) w env.dial v (inl h))
            (λ _. (v, unfold stage_of in rw h)))

  after_count-Closes :
      (n : ℕ) (w : World) (r : Result StatsError ℕ)
      → IsValid w.stats
      → stage_of w.effects ≡ some accepted
      → Closes (after_count env c n w r)
  after_count-Closes n w (err e) v h = (v, unfold stage_of in rw h)
  after_count-Closes n w (ok k) v h =
      if_elim Closes (leb max_connections_per_proto k) (λ _. (v, unfold stage_of in rw h))
        (λ _. connect_server-Closes n w v h)

module _ (env : StartEnv) (quiet : (s : Statistics) → IsValid s → IsValid (env.meanwhile s)) where
  identify-Closes :
      (n : ℕ) (w : World)
      → IsValid w.stats
      → stage_of w.effects ≡ some accepted
      → Closes (identify env n w)
  unfolding identify limit_connections
  identify-Closes n w v h =
      authenticate_feeder_cases (λ r. Closes (after_identify env n w r)) env.auth w.stats
        (λ e. (v, unfold stage_of in rw h))
        λ c _.
          let s' = (register_feeder (feeder_details c) env.auth.now w.stats).1 in
          after_count-Closes env c quiet n (record w { stats = s' })
            (get_num_connections s' c.client_api_key env.proto)
            (register_feeder-IsValid (feeder_details c) env.auth.now w.stats v) h

  after_read-Closes :
      (w : World) (r : FirstRead)
      → IsValid w.stats
      → stage_of w.effects ≡ some accepted
      → Closes (after_read env w r)
  after_read-Closes w (bytes n) v h = identify-Closes n w v h
  after_read-Closes w (failed e n) v h = identify-Closes n (record w { closed_by_read = true }) v h
  after_read-Closes w (timed_out n) v h = (v, unfold stage_of in rw h)

  after_check-Closes :
      (w : World) (r : Option TooFrequent × IncomingConnectionTracker)
      → IsValid w.stats
      → stage_of w.effects ≡ some accepted
      → Closes (after_check env w r)
  after_check-Closes w (none, t) v h =
      after_read-Closes (record w { tracker = t }) env.first_read v h
  after_check-Closes w (some e, t) v h = (v, unfold stage_of in rw h)

  Closes-over :
      (r : Started)
      → Closes r
      → (x : Option StartError) × (w : World) × (deferred closes_client r ≡ returns (x, w))
        × IsValid w.stats
        × (stage_of w.effects ≡ some over)
  unfolding deferred
  Closes-over (returns (x, w)) (v, h) = (x, with_effect closes_client w, refl, v, h)
  Closes-over panics h = absurd h

  -- If the package is initialised and nothing has been done before, on valid statistics, and if
  -- they stay valid while the connection is proxied, `Start` does not panic and leaves them valid.
  -- Whatever fails, what it does comes in the order that `advance` allows: the connection that it
  -- registered is unregistered, and if a dial connected it to a server, that connection is closed
  -- before the client's, which is closed last.
  pub start-over :
      (w : World)
      → env.initialised ≡ true
      → w.effects ≡ []
      → IsValid w.stats
      → (x : Option StartError) × (w' : World) × (start env w ≡ returns (x, w'))
        × IsValid w'.stats
        × (stage_of w'.effects ≡ some over)
  unfolding start
  start-over w init clean v =
      let first = check (remote_ip env) env.conn_num env.checked_at w.tracker in
      if_elim
        (λ r.
          (x : Option StartError) × (w' : World) × (r ≡ returns (x, w'))
          × IsValid w'.stats
          × (stage_of w'.effects ≡ some over))
        env.initialised
        (λ _.
          Closes-over (after_check env w first)
            (after_check-Closes w first v (unfold stage_of in rw clean)))
        (λ off. cc)
