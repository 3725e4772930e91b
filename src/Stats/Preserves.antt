-- ===== src/Stats/Preserves.antt =====
-- The invariant of the statistics under each operation.
use bordercontrol.Prelude.{
  ℕ, ◌<◌, ◌≡◌, refl, List, [], ◌∷◌, Option, some, ltb, length, arith, ◌==◌, Outcome, returns,
  panics, if_elim, ok, sym,
}
use bordercontrol.GoMap.{Map, lookup, insert}
use bordercontrol.GoMap.Laws.{
  IsUnique-insert, IsUnique-delete, lookup-insert, lookup-delete, get_or-lookup, length-insert_old,
}
use bordercontrol.FeedProtocol.{beast, mlat, get_name}
use bordercontrol.Stats.State.{
  ConnectionDetail, ProtocolDetail, FeederStats, Statistics, feeder_at, protocol_at,
  zero_feeder_stats, StatsError,
}
use bordercontrol.Stats.Feeders.{
  FeederDetails, set_feeder_details, register_feeder, add_global_bytes, Increment, add_bytes,
  increment_found, increment_byte_counters,
}
use bordercontrol.Stats.Connections.{
  Connection, new_connection, connected_detail, register_connection, disconnected_detail,
  unregister_connection, drop_idle_feeder,
}
use bordercontrol.FeedProtocol.Names.{is_valid-get_name}
use bordercontrol.Stats.Init.{init_feeder_stats-IsValid, init_feeder_stats-lookup}
use bordercontrol.Stats.Cases.{
  increment_cases, register_cases, unregister_cases, put_feeder, disconnected_feeder,
  before_removal, Found,
}
use bordercontrol.Stats.Invariant.{
  IsDetail, IsFeeder, IsValid, IsFeeders-insert, IsFeeders-delete, IsFeeder-insert,
}

put_feeder-IsValid :
    (k : ℕ) (f : FeederStats) (s : Statistics)
    → IsFeeder f.connections
    → IsValid s
    → IsValid (put_feeder k f s)
put_feeder-IsValid k f s vf v = record {
  feeders = IsFeeders-insert k f s.feeders vf v.feeders;
  beast = v.beast;
  mlat = v.mlat;
}

set_feeder_details-IsValid :
    (d : FeederDetails) (now : ℕ) (s : Statistics) {f : FeederStats}
    → lookup d.api_key s.feeders ≡ some f
    → IsValid s
    → IsValid (set_feeder_details d now s)
unfolding set_feeder_details
set_feeder_details-IsValid d now s {f} h v =
    rw (get_or-lookup zero_feeder_stats d.api_key s.feeders h)
      (put_feeder-IsValid d.api_key _ s (v.feeders.each d.api_key f h) v)

pub register_feeder-IsValid :
    (d : FeederDetails) (now : ℕ) (s : Statistics) → IsValid s → IsValid (register_feeder d now s).1
unfolding register_feeder
register_feeder-IsValid d now s v =
    if_elim {A = Option StatsError × Statistics} (λ r. IsValid r.1) s.initialised
      (λ _.
        set_feeder_details-IsValid d now _ (init_feeder_stats-lookup d.api_key s).1
          (init_feeder_stats-IsValid d.api_key s v))
      (λ _. v)

-- The state that a call leaves, for the calls that return.
abbrev pub IsValidAfter : Outcome (Option StatsError × Statistics) → Type 0
IsValidAfter (returns (e, s)) = IsValid s
IsValidAfter panics = ⊥

add_bytes-IsDetail :
    (i : Increment) (d : ProtocolDetail) {c : ConnectionDetail}
    → lookup i.conn_num d.connection_details ≡ some c
    → IsDetail d
    → IsDetail
        (record d { connection_details = insert i.conn_num (add_bytes i c) d.connection_details })
add_bytes-IsDetail i d {c} h v =
    let same = length-insert_old i.conn_num (add_bytes i c) d.connection_details h in
    record {
      distinct = IsUnique-insert i.conn_num (add_bytes i c) d.connection_details v.distinct;
      count = omega (arith, v.count);
      live = rw same v.live;
      counted = λ n x k.
          ground
            (arith, lookup-insert i.conn_num n (add_bytes i c) d.connection_details, v.counted n x);
    }

add_global_bytes-IsValid :
    (p i o : ℕ) (s : Statistics) → IsValid s → IsValid (add_global_bytes p i o s)
unfolding add_global_bytes
add_global_bytes-IsValid p i o s v =
    if_elim IsValid (p == beast)
      (λ _. record { feeders = v.feeders; beast = omega arith; mlat = v.mlat })
      (λ _.
        if_elim IsValid (p == mlat)
          (λ _. record { feeders = v.feeders; beast = v.beast; mlat = omega arith }) (λ _. v))

increment_found-IsValid :
    (i : Increment) (now : ℕ) (s : Statistics) (y : FeederStats) (d : ProtocolDetail)
    (c : ConnectionDetail) (n : List ℕ)
    → lookup i.api_key s.feeders ≡ some y
    → lookup i.proto y.connections ≡ some d
    → lookup i.conn_num d.connection_details ≡ some c
    → get_name i.proto ≡ ok n
    → IsValid s
    → IsValidAfter (increment_found i now s y d c)
unfolding increment_found
increment_found-IsValid i now s y d c n hy hd hc hn v =
    let vy = v.feeders.each i.api_key y hy in
    let vs = add_global_bytes-IsValid i.proto i.bytes_in i.bytes_out s v in
    let vm =
      IsFeeder-insert i.proto _ y.connections (vy.only i.proto d hd)
        (add_bytes-IsDetail i d hc (vy.details i.proto d hd)) vy in
    rw (hn, increment_found)
      (record {
        feeders = IsFeeders-insert i.api_key _ s.feeders vm v.feeders;
        beast = vs.beast;
        mlat = vs.mlat;
      })

-- On a valid state `IncrementByteCounters` does not panic, and the state after it is valid.
pub increment_byte_counters-IsValid :
    (i : Increment) (now : ℕ) (s : Statistics)
    → IsValid s
    → IsValidAfter (increment_byte_counters i now s)
increment_byte_counters-IsValid i now s v =
    increment_cases IsValidAfter i now s (λ e _. v)
      λ y d c hy hd hc.
        let (n, hn) =
          is_valid-get_name i.proto ((v.feeders.each i.api_key y hy).only i.proto d hd) in
        increment_found-IsValid i now s y d c n hy hd hc hn v

length-insert_pos :
    (n : ℕ) (c : ConnectionDetail) (m : Map ConnectionDetail) → 0 < length (insert n c m)
unfolding insert
length-insert_pos n c [] = omega arith
length-insert_pos n c ((i, x) ∷ m) = ground arith

connected_detail-IsDetail :
    (d : ProtocolDetail) (conn : Connection) (connected : ℕ)
    → IsDetail d
    → IsDetail (connected_detail d conn connected)
connected_detail-IsDetail d conn connected v =
    let c = new_connection conn connected in
    if_elim IsDetail (ltb 0 (length (insert conn.conn_num c d.connection_details)))
      (λ some. record {
        distinct = IsUnique-insert conn.conn_num c d.connection_details v.distinct;
        count = refl;
        live = sym some;
        counted = λ n x k.
            ground (arith, lookup-insert conn.conn_num n c d.connection_details, v.counted n x);
      })
      (λ empty. absurd (ground (arith, length-insert_pos conn.conn_num c d.connection_details)))

disconnected_detail-IsDetail :
    (d : ProtocolDetail) (n : ℕ) → IsDetail d → IsDetail (disconnected_detail d n)
disconnected_detail-IsDetail d n v = record {
  distinct = IsUnique-delete n d.connection_details v.distinct;
  count = refl;
  live = refl;
  counted = λ j x k. ground (arith, lookup-delete n j d.connection_details, v.counted j x);
}

-- On a valid state `RegisterConnection` does not panic, and the state after it is valid.
pub register_connection-IsValid :
    (conn : Connection) (connected now : ℕ) (s : Statistics)
    → IsValid s
    → IsValidAfter (register_connection conn connected now s)
register_connection-IsValid conn connected now s v =
    register_cases IsValidAfter conn connected now s v (λ e _. v)
      λ f d init found.
        let vi = init_feeder_stats-IsValid conn.api_key s v in
        let vf = vi.feeders.each conn.api_key f found.1 in
        put_feeder-IsValid conn.api_key _ _
          (IsFeeder-insert conn.proto _ f.connections found.0
            (connected_detail-IsDetail d conn connected (vf.details conn.proto d found.2)) vf)
          vi

drop_idle_feeder-IsValid : (k : ℕ) (s : Statistics) → IsValid s → IsValid (drop_idle_feeder k s)
drop_idle_feeder-IsValid k s v =
    if_elim IsValid ((protocol_at (feeder_at s k) beast).connection_count == 0)
      (λ _.
        if_elim IsValid ((protocol_at (feeder_at s k) mlat).connection_count == 0)
          (λ _. record {
            feeders = IsFeeders-delete k s.feeders v.feeders;
            beast = v.beast;
            mlat = v.mlat;
          })
          (λ _. v))
      (λ _. v)

before_removal-IsValid :
    (conn : Connection) (s : Statistics) (n : List ℕ)
    → IsValid s
    → IsValid (before_removal conn s n)
before_removal-IsValid conn s n v =
    let vi = init_feeder_stats-IsValid conn.api_key s v in
    record { feeders = vi.feeders; beast = vi.beast; mlat = vi.mlat }

-- The state once the connection is deleted, before an idle feeder is dropped.
pub removed-IsValid :
    (conn : Connection) (now : ℕ) (s : Statistics) (n : List ℕ) {f : FeederStats}
    {d : ProtocolDetail}
    → IsValid s
    → Found conn s f d
    → IsValid (put_feeder conn.api_key (disconnected_feeder f d conn now) (before_removal conn s n))
removed-IsValid conn now s n {f} {d} v found =
    let vb = before_removal-IsValid conn s n v in
    let vf = vb.feeders.each conn.api_key f found.1 in
    put_feeder-IsValid conn.api_key _ _
      (IsFeeder-insert conn.proto _ f.connections found.0
        (disconnected_detail-IsDetail d conn.conn_num (vf.details conn.proto d found.2)) vf)
      vb

-- `UnregisterConnection` leaves a valid state valid, whatever it returns.
pub unregister_connection-IsValid :
    (conn : Connection) (now : ℕ) (s : Statistics)
    → IsValid s
    → IsValid (unregister_connection conn now s).1
unregister_connection-IsValid conn now s v =
    unregister_cases (λ r. IsValid r.1) conn now s v (λ e _. v)
      (λ n f d init found gone. before_removal-IsValid conn s n v)
      λ n f d c init found here.
        drop_idle_feeder-IsValid conn.api_key _ (removed-IsValid conn now s n v found)
