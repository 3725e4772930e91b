-- ===== src/Stats/Counting.antt =====
-- What `GetNumConnections` answers after a connection comes or goes.
use bordercontrol.Prelude.{
  ℕ, List, ◌≡◌, refl, true, Option, none, some, ◌==◌, ◌&&◌, if◌then◌else◌, arith, ok, Bool, false,
  suc, returns, panics, Outcome, ◌-◌, ◌∙◌, ==_iff, subst, Option-cases, inl, inr,
}
use bordercontrol.GoMap.{lookup}
use bordercontrol.GoMap.Laws.{length-insert_new, length-insert_old, length-delete}
use bordercontrol.FeedProtocol.{is_valid}
use bordercontrol.Stats.State.{
  ConnectionDetail, ProtocolDetail, FeederStats, Statistics, conn_num_not_found,
}
use bordercontrol.Stats.Feeders.{init_feeder_stats, get_num_connections}
use bordercontrol.Stats.Connections.{
  Connection, new_connection, connected_detail, disconnected_detail, register_connection,
  unregister_connection, drop_idle_feeder,
}
use bordercontrol.Stats.Cases.{
  put_feeder, Reply, Found, register_cases, unregister_cases, connected_feeder, disconnected_feeder,
  before_removal,
}
use bordercontrol.Stats.Invariant.{IsValid, IsDetail}
use bordercontrol.Stats.Connected.{
  table, connection_of, table-init_feeder_stats, table-put_feeder, table-IsDetail,
}
use bordercontrol.Stats.Registering.{table-found}
use bordercontrol.Stats.Unregistering.{count-drop_idle_feeder}
use bordercontrol.Stats.Preserves.{removed-IsValid}

abbrev pub is_none {ℓ} : {A : Type ℓ} → Option A → Bool
is_none none = true
is_none (some a) = false

-- The table of the connection's own feeder and protocol.
abbrev pub is_table : Connection → ℕ → ℕ → Bool
is_table conn k p = conn.api_key == k && conn.proto == p

-- A registration counts one more in its own table, unless it replaces a connection of that number.
abbrev pub CountsUp : Connection → Statistics → Outcome Reply → Type 0
CountsUp conn s (returns (e, t)) =
    (k p : ℕ)
    → get_num_connections t k p ≡ (
        if is_table conn k p && is_none (connection_of s k p conn.conn_num)
        then ok (suc (table s k p).connection_count)
        else ok (table s k p).connection_count)
CountsUp conn s panics = ⊥

count-connected_detail :
    (d : ProtocolDetail) (conn : Connection) (connected : ℕ)
    → IsDetail d
    → (connected_detail d conn connected).connection_count ≡ (
        if is_none (lookup conn.conn_num d.connection_details)
        then suc d.connection_count
        else d.connection_count)
count-connected_detail d conn connected v =
    elim (Option-cases (lookup conn.conn_num d.connection_details)) [
      | inl gone ↦ rw gone (
          ground (
            arith,
            v.count,
            length-insert_new conn.conn_num (new_connection conn connected) d.connection_details
                gone,
          ))
      | inr (c, here) ↦ rw here (
          ground (
            arith,
            v.count,
            length-insert_old conn.conn_num (new_connection conn connected) d.connection_details
                here,
          ))
    ]

pub init_feeder_stats-initialised :
    (k : ℕ) (s : Statistics) → (init_feeder_stats k s).initialised ≡ s.initialised
unfolding init_feeder_stats
init_feeder_stats-initialised k s = ground arith

-- On a valid, initialised state, after a connection with a valid protocol is registered,
-- `GetNumConnections` answers one more for its feeder and protocol if its number was new there, and
-- otherwise what it answered before.
pub register-num_connections :
    (conn : Connection) (connected now : ℕ) (s : Statistics)
    → IsValid s
    → s.initialised ≡ true
    → is_valid conn.proto ≡ true
    → CountsUp conn s (register_connection conn connected now s)
unfolding get_num_connections
register-num_connections conn connected now s v init known =
    register_cases (CountsUp conn s) conn connected now s v
      (λ e refused. absurd (refused init known))
      λ f d _ found k p. rw (init_feeder_stats-initialised conn.api_key s ∙ init) (
        rw
          (table-put_feeder conn.api_key conn.proto f (connected_feeder f d conn connected now)
            (connected_detail d conn connected) (init_feeder_stats conn.api_key s) k p found.1 refl)
          (ground (
            arith,
            ==_iff conn.api_key k,
            ==_iff conn.proto p,
            table-init_feeder_stats conn.api_key k p s,
            table-found conn.api_key conn.proto s found.1 found.2,
            count-connected_detail d conn connected (
                subst IsDetail (table-found conn.api_key conn.proto s found.1 found.2)
                  (table-IsDetail s v conn.api_key conn.proto)),
          )))

-- An unregistration counts one less in its own table, if the connection was there.
abbrev pub CountsDown : Connection → Statistics → Reply → Type 0
CountsDown conn s (e, t) =
    (k p : ℕ)
    → get_num_connections t k p ≡ (
        if is_table conn k p && is_none (connection_of s k p conn.conn_num)
        then ok (table s k p).connection_count
        else if is_table conn k p
        then ok ((table s k p).connection_count - 1)
        else ok (table s k p).connection_count)

counts_missing :
    (conn : Connection) (s : Statistics) (n : List ℕ)
    → s.initialised ≡ true
    → connection_of s conn.api_key conn.proto conn.conn_num ≡ none
    → CountsDown conn s (some conn_num_not_found, before_removal conn s n)
unfolding get_num_connections
counts_missing conn s n init gone k p = rw (init_feeder_stats-initialised conn.api_key s ∙ init) (
    rw (table-init_feeder_stats conn.api_key k p s)
      (ground (arith, ==_iff conn.api_key k, ==_iff conn.proto p, gone)))

pub drop_idle_feeder-initialised :
    (k : ℕ) (s : Statistics) → (drop_idle_feeder k s).initialised ≡ s.initialised
drop_idle_feeder-initialised k s = ground arith

counts_removed :
    (conn : Connection) (now : ℕ) (s : Statistics) (n : List ℕ) {f : FeederStats}
    {d : ProtocolDetail} {c : ConnectionDetail}
    → IsValid s
    → s.initialised ≡ true
    → Found conn s f d
    → lookup conn.conn_num d.connection_details ≡ some c
    → CountsDown conn s (
      none,
      drop_idle_feeder conn.api_key
          (put_feeder conn.api_key (disconnected_feeder f d conn now) (before_removal conn s n)),
    )
unfolding get_num_connections
counts_removed conn now s n {f} {d} {c} v init found here k p =
    let removed =
      put_feeder conn.api_key (disconnected_feeder f d conn now) (before_removal conn s n) in
    let own = table-found conn.api_key conn.proto s found.1 found.2 in
    let vd = subst IsDetail own (table-IsDetail s v conn.api_key conn.proto) in
    rw
      (drop_idle_feeder-initialised conn.api_key removed
        ∙ init_feeder_stats-initialised conn.api_key s
        ∙ init)
      (rw (count-drop_idle_feeder conn.api_key removed (removed-IsValid conn now s n v found) k p) (
        rw
          (table-put_feeder conn.api_key conn.proto f (disconnected_feeder f d conn now)
            (disconnected_detail d conn.conn_num) (before_removal conn s n) k p found.1 refl)
          (ground (
            arith,
            ==_iff conn.api_key k,
            ==_iff conn.proto p,
            table-init_feeder_stats conn.api_key k p s,
            own,
            vd.count,
            length-delete conn.conn_num d.connection_details {v = c} vd.distinct here,
          ))))

-- On a valid, initialised state, after a connection with a valid protocol is unregistered,
-- `GetNumConnections` answers one less for its feeder and protocol if its number was there, and
-- otherwise what it answered before.
pub unregister-num_connections :
    (conn : Connection) (now : ℕ) (s : Statistics)
    → IsValid s
    → s.initialised ≡ true
    → is_valid conn.proto ≡ true
    → CountsDown conn s (unregister_connection conn now s)
unregister-num_connections conn now s v init known =
    unregister_cases (CountsDown conn s) conn now s v (λ e refused. absurd (refused init known))
      (λ n f d _ found gone.
        counts_missing conn s n init
          (rw (table-found conn.api_key conn.proto s found.1 found.2) gone))
      λ n f d c _ found here. counts_removed conn now s n v init found here
