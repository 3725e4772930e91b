-- ===== src/Stats/Gauges/Moves.antt =====
-- How the gauges move when a connection comes or goes.
use bordercontrol.Prelude.{
  ℕ, ◌+◌, ◌≡◌, refl, ap, [], ◌∷◌, Outcome, returns, panics, ◌==◌, if_elim, arith, inl, inr,
  Option-cases,
}
use bordercontrol.GoMap.{Map, lookup, insert, delete}
use bordercontrol.GoMap.Laws.{get_or-insert, get_or-delete}
use bordercontrol.GoMap.Totals.{total, total-insert, total-delete}
use bordercontrol.FeedProtocol.{beast, mlat}
use bordercontrol.Stats.State.{FeederStats, Statistics, zero_feeder_stats, protocol_at, feeder_at}
use bordercontrol.Stats.Feeders.{
  new_feeder_stats, init_feeder_stats, FeederDetails, register_feeder, set_feeder_details,
  Increment, increment_found, increment_byte_counters,
}
use bordercontrol.Stats.Connections.{
  Connection, register_connection, unregister_connection, drop_idle_feeder,
}
use bordercontrol.Stats.Cases.{
  Reply, put_feeder, register_cases, unregister_cases, increment_cases, connected_feeder,
  disconnected_feeder, before_removal,
}
use bordercontrol.FeedProtocol.Names.{is_valid-get_name}
use bordercontrol.Stats.Evictor.{stats_evictor_inner_lem}
use bordercontrol.Stats.Histories.{
  Call, registers_feeder, increments, registers, unregisters, evicts, reply,
}
use bordercontrol.Stats.Invariant.{IsValid}
use bordercontrol.Stats.Connected.{table, count-zero_feeder}
use bordercontrol.Stats.Preserves.{removed-IsValid}
use bordercontrol.Stats.Gauges.{sum_connections, connections_gauge}

-- The connections of one feeder.
abbrev connections_in : ℕ → FeederStats → ℕ
connections_in p f = (protocol_at f p).connection_count

sum-total : (p : ℕ) (m : Map FeederStats) → sum_connections p m ≡ total (connections_in p) m
unfolding sum_connections total
sum-total p [] = refl
sum-total p ((k, f) ∷ m) = omega (arith, sum-total p m)

abbrev count_of : ℕ → ℕ → Statistics → ℕ
count_of p k s = (table s k p).connection_count

put_feeder-gauge :
    (p k : ℕ) (f : FeederStats) (s : Statistics)
    → connections_gauge p (put_feeder k f s) + count_of p k s
      ≡ connections_gauge p s + connections_in p f
unfolding connections_gauge
put_feeder-gauge p k f s = omega (
  arith,
  sum-total p s.feeders,
  sum-total p (insert k f s.feeders),
  total-insert (connections_in p) zero_feeder_stats k f s.feeders (count-zero_feeder p),
)

delete-gauge :
    (p k : ℕ) (s : Statistics)
    → IsValid s
    → connections_gauge p (record s { feeders = delete k s.feeders }) + count_of p k s
      ≡ connections_gauge p s
unfolding connections_gauge
delete-gauge p k s v = omega (
  arith,
  sum-total p s.feeders,
  sum-total p (delete k s.feeders),
  total-delete (connections_in p) zero_feeder_stats k s.feeders (count-zero_feeder p)
      v.feeders.distinct,
)

-- What the gauge has more or less, the feeder has.
abbrev pub MovesWith : ℕ → Statistics → Statistics → Type 0
MovesWith k s t =
    (p : ℕ)
    → connections_gauge p t + (table s k p).connection_count
      ≡ connections_gauge p s + (table t k p).connection_count

abbrev pub MovesAfter : ℕ → Statistics → Outcome Reply → Type 0
MovesAfter k s (returns r) = MovesWith k s r.1
MovesAfter k s panics = ⊥

put_feeder-MovesWith : (k : ℕ) (f : FeederStats) (s : Statistics) → MovesWith k s (put_feeder k f s)
put_feeder-MovesWith k f s p =
    let here : feeder_at (put_feeder k f s) k ≡ f =
      ground (arith, get_or-insert zero_feeder_stats k k f s.feeders) in
    omega (arith, put_feeder-gauge p k f s, ap (connections_in p) here)

delete-MovesWith :
    (k : ℕ) (s : Statistics) → IsValid s → MovesWith k s (record s { feeders = delete k s.feeders })
delete-MovesWith k s v p =
    let gone : feeder_at (record s { feeders = delete k s.feeders }) k ≡ zero_feeder_stats =
      ground (arith, get_or-delete zero_feeder_stats k k s.feeders) in
    omega (arith, delete-gauge p k s v, ap (connections_in p) gone, count-zero_feeder p)

MovesWith-trans : (k : ℕ) (s t u : Statistics) → MovesWith k s t → MovesWith k t u → MovesWith k s u
MovesWith-trans k s t u h g p = omega (arith, h p, g p)

init-MovesWith : (k : ℕ) (s : Statistics) → MovesWith k s (init_feeder_stats k s)
unfolding init_feeder_stats
init-MovesWith k s = elim (Option-cases (lookup k s.feeders)) [
  | inl e ↦ rw (e, init_feeder_stats) (put_feeder-MovesWith k new_feeder_stats s)
  | inr (f, e) ↦ rw (e, init_feeder_stats) (λ p. refl)
]

drop-MovesWith : (k : ℕ) (s : Statistics) → IsValid s → MovesWith k s (drop_idle_feeder k s)
drop-MovesWith k s v =
    if_elim (MovesWith k s) ((table s k beast).connection_count == 0)
      (λ _.
        if_elim (MovesWith k s) ((table s k mlat).connection_count == 0)
          (λ _. delete-MovesWith k s v) (λ _ p. refl))
      (λ _ p. refl)

register-MovesAfter :
    (conn : Connection) (connected now : ℕ) (s : Statistics)
    → IsValid s
    → MovesAfter conn.api_key s (register_connection conn connected now s)
register-MovesAfter conn connected now s v =
    register_cases (MovesAfter conn.api_key s) conn connected now s v (λ e _ p. refl)
      λ f d _ found.
        MovesWith-trans conn.api_key s (init_feeder_stats conn.api_key s) _
          (init-MovesWith conn.api_key s)
          (put_feeder-MovesWith conn.api_key (connected_feeder f d conn connected now)
            (init_feeder_stats conn.api_key s))

unregister-MovesWith :
    (conn : Connection) (now : ℕ) (s : Statistics)
    → IsValid s
    → MovesWith conn.api_key s (unregister_connection conn now s).1
unfolding connections_gauge
unregister-MovesWith conn now s v =
    let k = conn.api_key in
    unregister_cases (λ r. MovesWith k s r.1) conn now s v (λ e _ p. refl)
      (λ n f d _ found gone. init-MovesWith k s)
      λ n f d c _ found here.
        let removed = put_feeder k (disconnected_feeder f d conn now) (before_removal conn s n) in
        MovesWith-trans k s removed (drop_idle_feeder k removed)
          (MovesWith-trans k s (init_feeder_stats k s) removed (init-MovesWith k s)
            (put_feeder-MovesWith k (disconnected_feeder f d conn now) (init_feeder_stats k s)))
          (drop-MovesWith k removed (removed-IsValid conn now s n v found))

register_feeder-MovesWith :
    (d : FeederDetails) (now : ℕ) (s : Statistics)
    → MovesWith d.api_key s (register_feeder d now s).1
unfolding register_feeder set_feeder_details
register_feeder-MovesWith d now s =
    if_elim (λ (r : Reply). MovesWith d.api_key s r.1) s.initialised
      (λ _.
        MovesWith-trans d.api_key s (init_feeder_stats d.api_key s) _ (init-MovesWith d.api_key s)
          (put_feeder-MovesWith d.api_key _ (init_feeder_stats d.api_key s)))
      (λ _ p. refl)

increment-MovesAfter :
    (i : Increment) (now : ℕ) (s : Statistics)
    → IsValid s
    → MovesAfter i.api_key s (increment_byte_counters i now s)
unfolding increment_found connections_gauge
increment-MovesAfter i now s v =
    increment_cases (MovesAfter i.api_key s) i now s (λ e _ p. refl)
      λ y d c hy hd hc.
        let (n, hn) =
          is_valid-get_name i.proto ((v.feeders.each i.api_key y hy).only i.proto d hd) in
        rw (hn, increment_found) (put_feeder-MovesWith i.api_key _ s)

-- The feeder of a call; an eviction has none.
abbrev pub api_key_of : Call → ℕ
api_key_of (registers_feeder d now) = d.api_key
api_key_of (increments i now) = i.api_key
api_key_of (registers conn connected now) = conn.api_key
api_key_of (unregisters conn now) = conn.api_key
api_key_of (evicts now) = 0

-- On a valid state every call moves the gauge of the connections with a protocol by what it moves
-- the number of connections that its feeder has with it; an eviction moves neither.
pub reply-MovesAfter :
    (c : Call) (s : Statistics) → IsValid s → MovesAfter (api_key_of c) s (reply c s)
unfolding reply
reply-MovesAfter (registers_feeder d now) s v = register_feeder-MovesWith d now s
reply-MovesAfter (increments i now) s v = increment-MovesAfter i now s v
reply-MovesAfter (registers conn connected now) s v = register-MovesAfter conn connected now s v
reply-MovesAfter (unregisters conn now) s v = unregister-MovesWith conn now s v
reply-MovesAfter (evicts now) s v = rw (stats_evictor_inner_lem now s v) (λ p. refl)
