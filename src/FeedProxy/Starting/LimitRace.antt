-- ===== src/FeedProxy/Starting/LimitRace.antt =====
-- Two connections of one feeder that are started at once.
use bordercontrol.Prelude.{
  ℕ, suc, ◌≡◌, ◌≢◌, sym, ap, ◌∙◌, subst, true, none, ok, returns, arith, ==_refl, ==_iff,
}
use bordercontrol.GoMap.Laws.{lookup-length_zero}
use bordercontrol.FeedProtocol.{is_valid}
use bordercontrol.Stats.State.{Statistics}
use bordercontrol.Stats.Feeders.{get_num_connections}
use bordercontrol.Stats.Connections.{Connection, register_connection}
use bordercontrol.Stats.Invariant.{IsValid}
use bordercontrol.Stats.Preserves.{register_connection-IsValid}
use bordercontrol.Stats.Histories.{Outcome-cases}
use bordercontrol.Stats.Connected.{table, connection_of, table-IsDetail}
use bordercontrol.Stats.Counting.{CountsUp, register-num_connections}
use bordercontrol.Stats.Registering.{Registered, register-connection_of}
use bordercontrol.FeedProxy.Feeders.{FeederClient}
use bordercontrol.FeedProxy.Starting.{
  StartEnv, World, connection, connect_server, limit_connections,
}

initialised_ok :
    (s : Statistics) (k p n : ℕ) → get_num_connections s k p ≡ ok n → s.initialised ≡ true
unfolding get_num_connections
initialised_ok s k p n h = ground arith

count_ok :
    (s : Statistics) (k p n : ℕ)
    → get_num_connections s k p ≡ ok n
    → (table s k p).connection_count ≡ n
unfolding get_num_connections
count_ok s k p n h = ground arith

module _ (s : Statistics) (v : IsValid s) (a : Connection) (known : is_valid a.proto ≡ true) where
  nothing_there :
      (n : ℕ)
      → get_num_connections s a.api_key a.proto ≡ ok 0
      → connection_of s a.api_key a.proto n ≡ none
  nothing_there n h =
      let d = table-IsDetail s v a.api_key a.proto in
      lookup-length_zero n (table s a.api_key a.proto).connection_details
        (sym d.count ∙ count_ok s a.api_key a.proto 0 h)

  -- One more connection, whose number is new.
  pub registers_one :
      (connected now m : ℕ)
      → get_num_connections s a.api_key a.proto ≡ ok m
      → connection_of s a.api_key a.proto a.conn_num ≡ none
      → (t : Statistics) × (register_connection a connected now s ≡ returns (none, t))
        × IsValid t
        × (get_num_connections t a.api_key a.proto ≡ ok (suc m))
        × ((k p n : ℕ) → a.conn_num ≢ n → connection_of t k p n ≡ connection_of s k p n)
  registers_one connected now m h new =
      let init = initialised_ok s a.api_key a.proto m h in
      let (r, e, vr) =
        Outcome-cases (register_connection a connected now s)
          (register_connection-IsValid a connected now s v) in
      let counts : CountsUp a s (returns r) =
        subst (CountsUp a s) e (register-num_connections a connected now s v init known) in
      let regs : Registered a connected s (returns r) =
        subst (Registered a connected s) e
          (register-connection_of a connected now s v init known) in
      (
        r.1,
        e ∙ ap (λ x. returns (x, r.1)) regs.0,
        vr,
        counts a.api_key a.proto
            ∙ ground
                (arith, new, count_ok s a.api_key a.proto m h, ==_refl a.api_key, ==_refl a.proto),
        λ k p n other. regs.1 k p n ∙ ground (arith, other, ==_iff a.conn_num n),
      )

within_limit :
    (env : StartEnv) (c : FeederClient) (n : ℕ) (w : World)
    → get_num_connections w.stats c.client_api_key env.proto ≡ ok 0
    → limit_connections env c n w ≡ connect_server env c n w
unfolding limit_connections
within_limit env c n w h = rw h

-- On valid statistics, two connections of one feeder with different numbers, and with a valid
-- protocol with which it has none yet, are both within the limit of one, if both ask for the number
-- of connections before either is registered. When both have been registered there are two.
pub limit_connections_race :
    (env env' : StartEnv) (c : FeederClient) (n n' : ℕ) (w : World)
    → IsValid w.stats
    → is_valid env.proto ≡ true
    → env.proto ≡ env'.proto
    → env.conn_num ≢ env'.conn_num
    → get_num_connections w.stats c.client_api_key env.proto ≡ ok 0
    → (limit_connections env c n w ≡ connect_server env c n w)
      × (limit_connections env' c n' w ≡ connect_server env' c n' w)
      × (t : Statistics) × (u : Statistics) × (register_connection
            (connection env c)
            env.connected
            env.registered_at
            w.stats
          ≡ returns (none, t))
      × (register_connection (connection env' c) env'.connected env'.registered_at t
          ≡ returns (none, u))
      × (get_num_connections u c.client_api_key env'.proto ≡ ok 2)
limit_connections_race env env' c n n' w v known same other none_yet =
    let a = connection env c in
    let b = connection env' c in
    let key = c.client_api_key in
    let (t, reg, vt, one, rest) =
      registers_one w.stats v a known env.connected env.registered_at 0 none_yet
        (nothing_there w.stats v a known a.conn_num none_yet) in
    let free : connection_of t key env.proto b.conn_num ≡ none =
      rest key env.proto b.conn_num other ∙ nothing_there w.stats v a known b.conn_num none_yet in
    let (u, reg', vu, two, rest') =
      registers_one t vt b (subst (λ p. is_valid p ≡ true) same known) env'.connected
        env'.registered_at 1 (subst (λ p. get_num_connections t key p ≡ ok 1) same one)
        (subst (λ p. connection_of t key p b.conn_num ≡ none) same free) in
    (
      within_limit env c n w none_yet,
      within_limit env' c n' w
          (subst (λ p. get_num_connections w.stats key p ≡ ok 0) same none_yet),
      t,
      u,
      reg,
      reg',
      two,
    )
