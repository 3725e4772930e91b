-- ===== src/Stats/Forgetting.antt =====
-- When `UnregisterConnection` deletes a feeder.
use bordercontrol.Prelude.{
  ℕ, ◌≡◌, refl, ◌∙◌, true, none, some, ◌==◌, ◌&&◌, arith, ==_refl, ==_iff, if◌then◌else◌, ◌-◌, inl,
  inr, ok, ◌+◌, ◌<◌, ◌⊎◌,
}
use bordercontrol.GoMap.{lookup}
use bordercontrol.GoMap.Laws.{lookup-insert, lookup-delete, get_or-delete, lookup-length_zero}
use bordercontrol.FeedProtocol.{beast, mlat, is_valid}
use bordercontrol.Stats.State.{Statistics, ConnectionDetail, FeederStats, zero_feeder_stats}
use bordercontrol.FeedProtocol.Names.{is_valid_iff}
use bordercontrol.Stats.Feeders.{get_num_connections}
use bordercontrol.Stats.Connections.{Connection, unregister_connection, drop_idle_feeder}
use bordercontrol.Stats.Cases.{
  Reply, unregister_cases, put_feeder, before_removal, disconnected_feeder,
}
use bordercontrol.Stats.Invariant.{IsValid}
use bordercontrol.Stats.Connected.{table, connection_of, count-zero_feeder, table-IsDetail}
use bordercontrol.Stats.Counting.{
  is_none, unregister-num_connections, init_feeder_stats-initialised, drop_idle_feeder-initialised,
}
use bordercontrol.Stats.Unregistering.{unregister-connection_of}

-- Without an error, the feeder of the call is gone exactly if it has no connection to count.
abbrev ForgetsIdle : ℕ → Reply → Type 0
ForgetsIdle k (none, t) =
    is_none (lookup k t.feeders)
    ≡ ((table t k beast).connection_count == 0 && (table t k mlat).connection_count == 0)
ForgetsIdle k (some e, t) = Unit

drop_idle_feeder-ForgetsIdle :
    (k : ℕ) (s : Statistics) {f : FeederStats}
    → lookup k s.feeders ≡ some f
    → ForgetsIdle k (none, drop_idle_feeder k s)
drop_idle_feeder-ForgetsIdle k s {f} h = ground (
  arith,
  lookup-delete k k s.feeders,
  get_or-delete zero_feeder_stats k k s.feeders,
  count-zero_feeder beast,
  count-zero_feeder mlat,
)

unregister-ForgetsIdle :
    (conn : Connection) (now : ℕ) (s : Statistics)
    → IsValid s
    → ForgetsIdle conn.api_key (unregister_connection conn now s)
unregister-ForgetsIdle conn now s v =
    unregister_cases (ForgetsIdle conn.api_key) conn now s v (λ e _. tt) (λ n f d _ _ _. tt)
      λ n f d c init found here.
        let f' = disconnected_feeder f d conn now in
        let b = before_removal conn s n in
        drop_idle_feeder-ForgetsIdle conn.api_key (put_feeder conn.api_key f' b) {f = f'}
          (rw (lookup-insert conn.api_key conn.api_key f' b.feeders, ==_refl conn.api_key))

is_none-lookup :
    (k : ℕ) (s : Statistics) → is_none (lookup k s.feeders) ≡ true → lookup k s.feeders ≡ none
is_none-lookup k s h = ground arith

ForgetsIdle-none :
    (k : ℕ) (r : Reply)
    → ForgetsIdle k r
    → r.0 ≡ none
    → (table r.1 k beast).connection_count ≡ 0
    → (table r.1 k mlat).connection_count ≡ 0
    → lookup k r.1.feeders ≡ none
ForgetsIdle-none k (none, t) f e hb hm = is_none-lookup k t (f ∙ rw hb (rw hm))
ForgetsIdle-none k (some x, t) f e hb hm = cc

is_none-ForgetsIdle :
    (k : ℕ) (r : Reply)
    → ForgetsIdle k r
    → r.0 ≡ none
    → is_none (lookup k r.1.feeders)
      ≡ ((table r.1 k beast).connection_count == 0 && (table r.1 k mlat).connection_count == 0)
is_none-ForgetsIdle k (none, t) h e = h
is_none-ForgetsIdle k (some x, t) h e = cc

get_num_connections_ok :
    (t : Statistics) (k p n : ℕ)
    → get_num_connections t k p ≡ ok n
    → (table t k p).connection_count ≡ n
unfolding get_num_connections
get_num_connections_ok t k p n h = ground arith

some-count_pos :
    (s : Statistics) (k p n : ℕ) {c : ConnectionDetail}
    → IsValid s
    → connection_of s k p n ≡ some c
    → 0 < (table s k p).connection_count
some-count_pos s k p n {c} v h =
    rw ((table-IsDetail s v k p).count)
      (ground (arith, lookup-length_zero n (table s k p).connection_details))

-- `conn` is registered, and the feeder has no other connection.
pub record IsLast (conn : Connection) (s : Statistics) : Type 0 where
  pub detail : ConnectionDetail
  pub there : connection_of s conn.api_key conn.proto conn.conn_num ≡ some detail
  pub alone :
      (table s conn.api_key beast).connection_count + (table s conn.api_key mlat).connection_count
      ≡ 1

-- The counts that unregistering the last connection leaves.
last_count :
    (conn : Connection) (now : ℕ) (s : Statistics) (p : ℕ)
    → IsValid s
    → s.initialised ≡ true
    → is_valid conn.proto ≡ true
    → IsLast conn s
    → (p ≡ beast) ⊎ (p ≡ mlat)
    → (table (unregister_connection conn now s).1 conn.api_key p).connection_count ≡ 0
last_count conn now s p v init known last which =
    get_num_connections_ok (unregister_connection conn now s).1 conn.api_key p 0 (
      unregister-num_connections conn now s v init known conn.api_key p
      ∙ ground (
        arith,
        last.there,
        last.alone,
        some-count_pos s conn.api_key conn.proto conn.conn_num v last.there,
        (is_valid_iff conn.proto).0 known,
        which,
        ==_refl conn.api_key,
      ))

only_one :
    (conn : Connection) (s : Statistics) {b m : ℕ}
    → is_valid conn.proto ≡ true
    → 0 < (table s conn.api_key conn.proto).connection_count
    → let k = conn.api_key in
      b ≡ (
        if conn.proto == beast
        then (table s k beast).connection_count - 1
        else (table s k beast).connection_count)
      → m ≡ (
          if conn.proto == mlat
          then (table s k mlat).connection_count - 1
          else (table s k mlat).connection_count)
      → (b == 0 && m == 0)
        ≡ ((table s k beast).connection_count + (table s k mlat).connection_count == 1)
only_one conn s known some_left hb hm = ground (arith, (is_valid_iff conn.proto).0 known)

-- What unregistering a connection that is there leaves of the count of a protocol.
left_count :
    (conn : Connection) (now : ℕ) (s : Statistics) (c : ConnectionDetail) (p : ℕ)
    → IsValid s
    → s.initialised ≡ true
    → is_valid conn.proto ≡ true
    → connection_of s conn.api_key conn.proto conn.conn_num ≡ some c
    → (p ≡ beast) ⊎ (p ≡ mlat)
    → let k = conn.api_key in
      (table (unregister_connection conn now s).1 k p).connection_count ≡ (
        if conn.proto == p
        then (table s k p).connection_count - 1
        else (table s k p).connection_count)
left_count conn now s c p v init known there which =
    get_num_connections_ok (unregister_connection conn now s).1 conn.api_key p _ (
      unregister-num_connections conn now s v init known conn.api_key p
      ∙ ground (arith, there, ==_iff conn.proto p, ==_refl conn.api_key))

-- On a valid, initialised state, `UnregisterConnection` of a connection that is registered, with a
-- valid protocol, succeeds, and deletes the feeder exactly if that was its only connection: the
-- counts of BEAST and MLAT before the call come to one.
pub unregister-Forgets :
    (conn : Connection) (now : ℕ) (s : Statistics) (c : ConnectionDetail)
    → IsValid s
    → s.initialised ≡ true
    → is_valid conn.proto ≡ true
    → connection_of s conn.api_key conn.proto conn.conn_num ≡ some c
    → let k = conn.api_key in
      ((unregister_connection conn now s).0 ≡ none)
      × (is_none (lookup k (unregister_connection conn now s).1.feeders)
          ≡ ((table s k beast).connection_count + (table s k mlat).connection_count == 1))
unregister-Forgets conn now s c v init known there =
    let fine = (unregister-connection_of conn now s v init known).0 ∙ rw there in
    (
      fine,
      is_none-ForgetsIdle conn.api_key (unregister_connection conn now s)
            (unregister-ForgetsIdle conn now s v) fine
          ∙ only_one conn s known (some-count_pos s conn.api_key conn.proto conn.conn_num v there)
              (left_count conn now s c beast v init known there (inl refl))
              (left_count conn now s c mlat v init known there (inr refl)),
    )

-- The feeder of the last connection is gone once that is unregistered.
pub lookup-unregister_last :
    (conn : Connection) (now : ℕ) (s : Statistics)
    → IsValid s
    → s.initialised ≡ true
    → is_valid conn.proto ≡ true
    → IsLast conn s
    → lookup conn.api_key (unregister_connection conn now s).1.feeders ≡ none
lookup-unregister_last conn now s v init known last =
    ForgetsIdle-none conn.api_key (unregister_connection conn now s)
      (unregister-ForgetsIdle conn now s v)
      ((unregister-connection_of conn now s v init known).0 ∙ rw last.there)
      (last_count conn now s beast v init known last (inl refl))
      (last_count conn now s mlat v init known last (inr refl))

pub unregister-initialised :
    (conn : Connection) (now : ℕ) (s : Statistics)
    → IsValid s
    → (unregister_connection conn now s).1.initialised ≡ s.initialised
unregister-initialised conn now s v =
    unregister_cases (λ r. r.1.initialised ≡ s.initialised) conn now s v (λ e _. refl)
      (λ n f d _ _ _. init_feeder_stats-initialised conn.api_key s)
      λ n f d c _ _ _.
        drop_idle_feeder-initialised conn.api_key
          (put_feeder conn.api_key (disconnected_feeder f d conn now) (before_removal conn s n))
        ∙ init_feeder_stats-initialised conn.api_key s
