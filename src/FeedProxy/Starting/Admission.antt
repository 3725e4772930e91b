-- ===== src/FeedProxy/Starting/Admission.antt =====
-- Who `ProxyConnection.Start` lets through to a server.
use bordercontrol.Prelude.{
  ℕ, ◌≡◌, refl, sym, true, ◌∷◌, Option, none, some, Result, ok, err, returns, panics, ◌==◌, leb,
  if_elim, arith, ◌⊎◌, inl, inr, ap, ◌∙◌, ==_iff,
}
use bordercontrol.FeedProtocol.{beast, mlat}
use bordercontrol.Stats.State.{Statistics, StatsError}
use bordercontrol.Stats.Feeders.{get_num_connections}
use bordercontrol.FeedProxy.Tracker.{check, TooFrequent, IncomingConnectionTracker}
use bordercontrol.FeedProxy.Feeders.{FeederClient}
use bordercontrol.FeedProxy.Auth.{AuthError, authenticate_feeder}
use bordercontrol.FeedProxy.Auth.Laws.{IsAuthorised, authenticate_feeder_iff}
use bordercontrol.FeedProxy.Starting.{
  remote_ip, with_effect, closes_client, World, FirstRead, bytes, failed, timed_out, StartEnv,
  Started, deferred, connect_server, max_connections_per_proto, after_count, limit_connections,
  after_identify, identify, after_read, after_check, start,
}

module _ (env : StartEnv) (w : World) where
  -- The tracker is as the check of the source address left it, and the statistics are as they were
  -- or as the authentication left them.
  abbrev pub IsOnlyNoted : World → Type 0
  IsOnlyNoted w' =
      (w'.tracker ≡ (check (remote_ip env) env.conn_num env.checked_at w.tracker).1)
      × ((w'.stats ≡ w.stats) ⊎ (w'.stats ≡ (authenticate_feeder env.auth w.stats).1))

  -- An error; of the effects there is only the close of the client.
  abbrev pub IsRefused : Started → Type 0
  IsRefused (returns (some e, w')) = (w'.effects ≡ closes_client ∷ w.effects) × IsOnlyNoted w'
  IsRefused (returns (none, w')) = ⊥
  IsRefused panics = ⊥

  -- What a refusal may have changed before the client is closed.
  abbrev Untouched : World → Type 0
  Untouched w' = (w'.effects ≡ w.effects) × IsOnlyNoted w'

  -- The source address may connect, `c` is authorised by its first bytes, and the feeder had no
  -- connection with the protocol.
  pub record IsAdmitted (c : FeederClient) : Type 0 where
    pub allowed : (check (remote_ip env) env.conn_num env.checked_at w.tracker).0 ≡ none
    pub authorised : IsAuthorised env.auth w.stats c
    pub alone :
        get_num_connections (authenticate_feeder env.auth w.stats).1 c.client_api_key env.proto
        ≡ ok 0
    pub supported : (env.proto ≡ beast) ⊎ (env.proto ≡ mlat)

  abbrev pub Decided : Started → Type 0
  Decided r = IsRefused r ⊎ ((c : FeederClient) × IsAdmitted c)

  closed :
      (w' : World)
      → Untouched w'
      → ((with_effect closes_client w').effects ≡ closes_client ∷ w.effects) × IsOnlyNoted w'
  closed w' (same, noted) = (ap (λ es. closes_client ∷ es) same, noted)

  identified :
      (w' : World) (s : Statistics) {r : Result AuthError FeederClient}
      → Untouched w'
      → authenticate_feeder env.auth w.stats ≡ (r, s)
      → Untouched (record w' { stats = s })
  identified w' s (same, (kept, noted)) here = (same, (kept, inr (ap (λ x. x.1) (sym here))))

  tracked :
      (t : IncomingConnectionTracker) {r : Option TooFrequent}
      → check (remote_ip env) env.conn_num env.checked_at w.tracker ≡ (r, t)
      → Untouched (record w { tracker = t })
  tracked t here = (refl, (ap (λ x. x.1) (sym here), inl refl))

  supported-Decided :
      (c : FeederClient) (n : ℕ) (w' : World)
      → Untouched w'
      → (((env.proto ≡ beast) ⊎ (env.proto ≡ mlat)) → IsAdmitted c)
      → Decided (deferred closes_client (connect_server env c n w'))
  unfolding deferred connect_server
  supported-Decided c n w' same admitted =
      if_elim (λ r. Decided (deferred closes_client r)) (env.proto == beast)
        (λ b. inr (c, admitted (inl ((==_iff env.proto beast).0 b))))
        (λ _.
          if_elim (λ r. Decided (deferred closes_client r)) (env.proto == mlat)
            (λ m. inr (c, admitted (inr ((==_iff env.proto mlat).0 m))))
            (λ _. inl (closed w' same)))

  after_count-Decided :
      (c : FeederClient) (n : ℕ) (w' : World) (r : Result StatsError ℕ)
      → Untouched w'
      → (r ≡ ok 0 → ((env.proto ≡ beast) ⊎ (env.proto ≡ mlat)) → IsAdmitted c)
      → Decided (deferred closes_client (after_count env c n w' r))
  unfolding deferred
  after_count-Decided c n w' (err e) same admitted = inl (closed w' same)
  after_count-Decided c n w' (ok k) same admitted =
      if_elim (λ r. Decided (deferred closes_client r)) (leb max_connections_per_proto k)
        (λ _. inl (closed w' same))
        (λ few.
          supported-Decided c n w' same (λ known. admitted (ap (λ m. ok m) (ground arith)) known))

  after_identify-Decided :
      (n : ℕ) (w' : World)
      → (r : Result AuthError FeederClient × Statistics) → Untouched w'
      → (authenticate_feeder env.auth w.stats ≡ r)
      → (check (remote_ip env) env.conn_num env.checked_at w.tracker).0 ≡ none
      → Decided (deferred closes_client (after_identify env n w' r))
  unfolding deferred limit_connections
  after_identify-Decided n w' (err e, s) same here room =
      inl (closed (record w' { stats = s }) (identified w' s same here))
  after_identify-Decided n w' (ok c, s) same here room =
      after_count-Decided c n (record w' { stats = s }) _ (identified w' s same here)
        (λ none_yet known. record {
          allowed = room;
          authorised = (authenticate_feeder_iff env.auth w.stats c).0 (ap (λ r. r.0) here);
          alone = ap (λ r. get_num_connections r.1 c.client_api_key env.proto) here ∙ none_yet;
          supported = known;
        })

  after_read-Decided :
      (w' : World) (r : FirstRead)
      → Untouched w'
      → w'.stats ≡ w.stats
      → (check (remote_ip env) env.conn_num env.checked_at w.tracker).0 ≡ none
      → Decided (deferred closes_client (after_read env w' r))
  unfolding deferred identify
  after_read-Decided w' (bytes n) same stats room =
      after_identify-Decided n w' _ same (ap (λ s. authenticate_feeder env.auth s) (sym stats)) room
  after_read-Decided w' (failed e n) same stats room =
      after_identify-Decided n (record w' { closed_by_read = true }) _ same
        (ap (λ s. authenticate_feeder env.auth s) (sym stats)) room
  after_read-Decided w' (timed_out n) same stats room = inl (closed w' same)

  after_check-Decided :
      (r : Option TooFrequent × IncomingConnectionTracker)
      → check (remote_ip env) env.conn_num env.checked_at w.tracker ≡ r
      → Decided (deferred closes_client (after_check env w r))
  unfolding deferred
  after_check-Decided (none, t) here =
      after_read-Decided (record w { tracker = t }) env.first_read (tracked t here) refl
        (ap (λ r. r.0) here)
  after_check-Decided (some e, t) here = inl (closed (record w { tracker = t }) (tracked t here))

  -- If the package is initialised, either a connection is refused: the call returns an error, has
  -- started no container, dialled nothing and registered no connection, but only closed the client;
  -- the tracker is as the check of the source address left it, and the statistics are as they were
  -- or as the authentication left them. Or its source address may connect, its feeder is
  -- authorised, the feeder had no connection with its protocol, and that is BEAST or MLAT.
  pub start-IsAdmitted :
      env.initialised ≡ true → IsRefused (start env w) ⊎ ((c : FeederClient) × IsAdmitted c)
  unfolding start
  start-IsAdmitted init =
      if_elim Decided env.initialised (λ _. after_check-Decided _ refl) (λ off. cc)
