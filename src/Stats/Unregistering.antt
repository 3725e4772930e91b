-- ===== src/Stats/Unregistering.antt =====
-- What `UnregisterConnection` does to the registered connections.
use bordercontrol.Prelude.{
  ℕ, List, ◌≡◌, refl, true, [], Option, none, some, ◌==◌, if◌then◌else◌, arith, inl, inr,
  Bool-cases, sym, subst, ◌∙◌, ==_iff, if_elim,
}
use bordercontrol.GoMap.{lookup, delete}
use bordercontrol.GoMap.Laws.{get_or-delete, lookup-delete}
use bordercontrol.FeedProtocol.{beast, mlat, is_valid}
use bordercontrol.Stats.State.{
  ConnectionDetail, ProtocolDetail, FeederStats, Statistics, zero_feeder_stats, StatsError,
  conn_num_not_found,
}
use bordercontrol.Stats.Connections.{
  Connection, disconnected_detail, unregister_connection, drop_idle_feeder,
}
use bordercontrol.Stats.Cases.{
  put_feeder, Reply, Found, unregister_cases, disconnected_feeder, before_removal,
}
use bordercontrol.Stats.Invariant.{IsValid}
use bordercontrol.Stats.Connected.{
  table, connection_of, table-init_feeder_stats, table-put_feeder, table-IsDetail, table_unknown,
  lookup-zero_feeder, count-zero_feeder,
}
use bordercontrol.Stats.Preserves.{removed-IsValid}
use bordercontrol.Stats.Registering.{is_same, table-found}
use bordercontrol.GoMap.Laws.{lookup-length_zero}
use bordercontrol.FeedProtocol.Names.{is_valid_iff}

module _ (k : ℕ) (s : Statistics) (v : IsValid s) where
  -- With both counts at zero a feeder has no connection.
  no_connection :
      (p n : ℕ)
      → (table s k beast).connection_count ≡ 0
      → (table s k mlat).connection_count ≡ 0
      → connection_of s k p n ≡ none
  no_connection p n hb hm = elim (Bool-cases (is_valid p)) [
    | inl known ↦ elim ((is_valid_iff p).0 known) [
      | inl b ↦ rw b (lookup-length_zero n _ (sym (table-IsDetail s v k beast).count ∙ hb))
      | inr m ↦ rw m (lookup-length_zero n _ (sym (table-IsDetail s v k mlat).count ∙ hm))
    ]
    | inr unknown ↦ rw (table_unknown s v k p (λ known. cc)) (lookup-length_zero n [] refl)
  ]

  connection_of-delete :
      (j p n : ℕ)
      → (table s k beast).connection_count ≡ 0
      → (table s k mlat).connection_count ≡ 0
      → connection_of (record s { feeders = delete k s.feeders }) j p n ≡ connection_of s j p n
  connection_of-delete j p n hb hm =
      rw (get_or-delete zero_feeder_stats k j s.feeders) (elim (Bool-cases (k == j)) [
        | inl same ↦ rw same (
            lookup-zero_feeder p n
            ∙ sym (
                subst (λ i. connection_of s i p n ≡ none) ((==_iff k j).0 same)
                  (no_connection p n hb hm)))
        | inr other ↦ rw other
      ])

  -- A feeder is dropped only when it has no connection, so none is lost.
  connection_of-drop_idle_feeder :
      (j p n : ℕ) → connection_of (drop_idle_feeder k s) j p n ≡ connection_of s j p n
  connection_of-drop_idle_feeder j p n =
      if_elim (λ t. connection_of t j p n ≡ connection_of s j p n)
        ((table s k beast).connection_count == 0)
        (λ hb.
          if_elim (λ t. connection_of t j p n ≡ connection_of s j p n)
            ((table s k mlat).connection_count == 0)
            (λ hm. connection_of-delete j p n ((==_iff _ 0).0 hb) ((==_iff _ 0).0 hm)) (λ _. refl))
        (λ _. refl)

module _ (k : ℕ) (s : Statistics) (v : IsValid s) where
  no_count :
      (p : ℕ)
      → (table s k beast).connection_count ≡ 0
      → (table s k mlat).connection_count ≡ 0
      → (table s k p).connection_count ≡ 0
  no_count p hb hm = elim (Bool-cases (is_valid p)) [
    | inl known ↦ elim ((is_valid_iff p).0 known) [ inl b ↦ rw b hb | inr m ↦ rw m hm ]
    | inr unknown ↦ rw (table_unknown s v k p (λ known. cc))
  ]

  count-delete :
      (j p : ℕ)
      → (table s k beast).connection_count ≡ 0
      → (table s k mlat).connection_count ≡ 0
      → (table (record s { feeders = delete k s.feeders }) j p).connection_count
        ≡ (table s j p).connection_count
  count-delete j p hb hm =
      rw (get_or-delete zero_feeder_stats k j s.feeders) (elim (Bool-cases (k == j)) [
        | inl same ↦ rw same (
            count-zero_feeder p
            ∙ sym (
                subst (λ i. (table s i p).connection_count ≡ 0) ((==_iff k j).0 same)
                  (no_count p hb hm)))
        | inr other ↦ rw other
      ])

  pub count-drop_idle_feeder :
      (j p : ℕ)
      → (table (drop_idle_feeder k s) j p).connection_count ≡ (table s j p).connection_count
  count-drop_idle_feeder j p =
      let C = λ (t : Statistics). (table t j p).connection_count ≡ (table s j p).connection_count in
      if_elim C ((table s k beast).connection_count == 0)
        (λ hb.
          if_elim C ((table s k mlat).connection_count == 0)
            (λ hm. count-delete j p ((==_iff _ 0).0 hb) ((==_iff _ 0).0 hm)) (λ _. refl))
        (λ _. refl)

-- The error of a call on a connection that was, or was not, registered.
abbrev pub missing_error : Option ConnectionDetail → Option StatsError
missing_error none = some conn_num_not_found
missing_error (some c) = none

abbrev pub Unregistered : Connection → Statistics → Reply → Type 0
Unregistered conn s (e, t) =
    (e ≡ missing_error (connection_of s conn.api_key conn.proto conn.conn_num))
    × ((k p n : ℕ)
        → connection_of t k p n ≡ (if is_same conn k p n then none else connection_of s k p n))

-- A call that finds no connection changes no table.
unregister_missing :
    (conn : Connection) (s : Statistics) (n : List ℕ)
    → connection_of s conn.api_key conn.proto conn.conn_num ≡ none
    → Unregistered conn s (some conn_num_not_found, before_removal conn s n)
unregister_missing conn s n gone = (
  rw gone,
  λ k p j.
      rw (table-init_feeder_stats conn.api_key k p s)
        (ground (arith, ==_iff conn.api_key k, ==_iff conn.proto p, ==_iff conn.conn_num j, gone)),
)

unregister-Found :
    (conn : Connection) (now : ℕ) (s : Statistics) (n : List ℕ) {f : FeederStats}
    {d : ProtocolDetail} {c : ConnectionDetail}
    → IsValid s
    → Found conn s f d
    → lookup conn.conn_num d.connection_details ≡ some c
    → Unregistered conn s (
      none,
      drop_idle_feeder conn.api_key
          (put_feeder conn.api_key (disconnected_feeder f d conn now) (before_removal conn s n)),
    )
unregister-Found conn now s n {f} {d} {c} v found here =
    let removed =
      put_feeder conn.api_key (disconnected_feeder f d conn now) (before_removal conn s n) in
    (
      rw (table-found conn.api_key conn.proto s found.1 found.2) (rw here),
      λ k p j.
          connection_of-drop_idle_feeder conn.api_key removed (removed-IsValid conn now s n v found)
            k p j
          ∙ rw
              (table-put_feeder conn.api_key conn.proto f (disconnected_feeder f d conn now)
                (disconnected_detail d conn.conn_num) (before_removal conn s n) k p found.1 refl)
              (ground (
                arith,
                lookup-delete conn.conn_num j d.connection_details,
                table-init_feeder_stats conn.api_key k p s,
                table-found conn.api_key conn.proto s found.1 found.2,
              )),
    )

-- On a valid, initialised state, unregistering a connection with a valid protocol takes out that
-- connection and no other, and fails with `ErrConnNumNotFound` exactly if it was not registered;
-- then too no connection changes.
pub unregister-connection_of :
    (conn : Connection) (now : ℕ) (s : Statistics)
    → IsValid s
    → s.initialised ≡ true
    → is_valid conn.proto ≡ true
    → Unregistered conn s (unregister_connection conn now s)
unregister-connection_of conn now s v init known =
    unregister_cases (Unregistered conn s) conn now s v (λ e refused. absurd (refused init known))
      (λ n f d _ found gone.
        unregister_missing conn s n
          (rw (table-found conn.api_key conn.proto s found.1 found.2) gone))
      λ n f d c _ found here. unregister-Found conn now s n v found here
