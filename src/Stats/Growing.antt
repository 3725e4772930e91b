-- ===== src/Stats/Growing.antt =====
-- How many connections a feeder has after a call.
use bordercontrol.Prelude.{
  ℕ, suc, ◌+◌, ◌≤◌, ◌≡◌, refl, ap, ◌∙◌, ◌-◌, true, false, not, Bool, Result, ok, Outcome, returns,
  panics, ◌&&◌, if◌then◌else◌, if_elim, arith, inl, inr, Bool-cases, ==_iff,
}
use bordercontrol.FeedProtocol.{is_valid}
use bordercontrol.FeedProtocol.Names.{is_valid-get_name}
use bordercontrol.GoMap.{insert}
use bordercontrol.Stats.State.{Statistics, StatsError, zero_feeder_stats, zero_protocol_detail}
use bordercontrol.Stats.Feeders.{
  FeederDetails, register_feeder, init_feeder_stats, Increment, increment_found,
  increment_byte_counters, get_num_connections, with_connection, add_bytes,
}
use bordercontrol.Stats.Connections.{Connection, register_connection, unregister_connection}
use bordercontrol.Stats.Cases.{Reply, increment_cases, register_cases, unregister_cases}
use bordercontrol.Stats.Connected.{table, connection_of, table-init_feeder_stats, table-put_feeder}
use bordercontrol.Stats.Counting.{
  is_table, is_none, CountsUp, CountsDown, register-num_connections, unregister-num_connections,
}
use bordercontrol.Stats.Evictor.{stats_evictor_inner_lem}
use bordercontrol.Stats.Histories.{
  Call, registers_feeder, increments, registers, unregisters, evicts, reply,
}
use bordercontrol.Stats.Invariant.{IsValid}
use bordercontrol.GoMap.Laws.{get_or-lookup}
use bordercontrol.Stats.Refinement.Calls.{table-set_feeder_details}

pub count_ok :
    (s : Statistics) (k p n : ℕ)
    → get_num_connections s k p ≡ ok n
    → (table s k p).connection_count ≡ n
unfolding get_num_connections
count_ok s k p n h = ground arith

-- The number of connections of a feeder and a protocol after a call, if it was `m` before: a
-- connection with a new number is one more, and one that was there and is unregistered one less.
abbrev pub count_after : Call → Statistics → ℕ → ℕ → ℕ → ℕ
count_after (registers conn connected now) s k p m =
    if is_valid conn.proto && (is_table conn k p && is_none (connection_of s k p conn.conn_num))
    then suc m
    else m
count_after (unregisters conn now) s k p m =
    if is_valid conn.proto
      && (is_table conn k p && not (is_none (connection_of s k p conn.conn_num)))
    then m - 1
    else m
count_after _ s k p m = m

abbrev pub Counts : Call → Statistics → Outcome Reply → Type 0
Counts c s (returns r) =
    (k p : ℕ)
    → (table r.1 k p).connection_count ≡ count_after c s k p (table s k p).connection_count
Counts c s panics = Unit {0}

register_feeder-Counts :
    (d : FeederDetails) (now : ℕ) (s : Statistics)
    → Counts (registers_feeder d now) s (returns (register_feeder d now s))
unfolding register_feeder
register_feeder-Counts d now s =
    if_elim (λ r. Counts (registers_feeder d now) s (returns r)) s.initialised
      (λ _ k p.
        ap (λ t. t.connection_count)
          (table-set_feeder_details d now (init_feeder_stats d.api_key s) k p
            ∙ table-init_feeder_stats d.api_key k p s))
      (λ _ k p. refl)

if_ok :
    (b : Bool) (x y : ℕ)
    → ◌≡◌ {A = Result StatsError ℕ} (if b then ok x else ok y) (ok (if b then x else y))
if_ok true x y = refl
if_ok false x y = refl

CountsUp-Counts :
    (conn : Connection) (connected now : ℕ) (s : Statistics) (o : Outcome Reply)
    → is_valid conn.proto ≡ true
    → CountsUp conn s o
    → Counts (registers conn connected now) s o
CountsUp-Counts conn connected now s (returns (e, t)) known h = λ k p.
    let here = is_table conn k p && is_none (connection_of s k p conn.conn_num) in
    let n = (table s k p).connection_count in
    rw known (count_ok t k p (if here then suc n else n) (h k p ∙ if_ok here (suc n) n))
CountsUp-Counts conn connected now s panics known h = tt

register-Counts :
    (conn : Connection) (connected now : ℕ) (s : Statistics)
    → IsValid s
    → s.initialised ≡ true
    → Counts (registers conn connected now) s (register_connection conn connected now s)
register-Counts conn connected now s v init = elim (Bool-cases (is_valid conn.proto)) [
  | inl known ↦
      CountsUp-Counts conn connected now s _ known
        (register-num_connections conn connected now s v init known)
  | inr unknown ↦
      register_cases (Counts (registers conn connected now) s) conn connected now s v
        (λ e _ k p. rw unknown refl) (λ f d _ found. cc)
]

CountsDown-Counts :
    (conn : Connection) (now : ℕ) (s : Statistics) (r : Reply)
    → is_valid conn.proto ≡ true
    → CountsDown conn s r
    → Counts (unregisters conn now) s (returns r)
CountsDown-Counts conn now s (e, t) known h k p =
    let here = is_table conn k p in
    let gone = here && is_none (connection_of s k p conn.conn_num) in
    let n = (table s k p).connection_count in
    let e = count_ok t k p (if gone then n else if here then n - 1 else n) (
      h k p
      ∙ ap (λ r. if gone then ok n else r) (if_ok here (n - 1) n)
      ∙ if_ok gone n (if here then n - 1 else n)) in
    ground (arith, e, known)

unregister-Counts :
    (conn : Connection) (now : ℕ) (s : Statistics)
    → IsValid s
    → s.initialised ≡ true
    → Counts (unregisters conn now) s (returns (unregister_connection conn now s))
unregister-Counts conn now s v init = elim (Bool-cases (is_valid conn.proto)) [
  | inl known ↦
      CountsDown-Counts conn now s (unregister_connection conn now s) known
        (unregister-num_connections conn now s v init known)
  | inr unknown ↦
      unregister_cases (λ r. Counts (unregisters conn now) s (returns r)) conn now s v
        (λ e _ k p. rw unknown refl) (λ n f d _ found. cc) (λ n f d c _ found. cc)
]

increment-Counts :
    (i : Increment) (now : ℕ) (s : Statistics)
    → IsValid s
    → Counts (increments i now) s (increment_byte_counters i now s)
unfolding increment_found
increment-Counts i now s v =
    increment_cases (Counts (increments i now) s) i now s (λ e _ k p. refl)
      λ y d c hy hd hc.
        let (n, hn) =
          is_valid-get_name i.proto ((v.feeders.each i.api_key y hy).only i.proto d hd) in
        let d' = record d {
          connection_details = insert i.conn_num (add_bytes i c) d.connection_details;
        } in
        let there : table s i.api_key i.proto ≡ d =
          rw (get_or-lookup zero_feeder_stats i.api_key s.feeders hy)
            (get_or-lookup zero_protocol_detail i.proto y.connections hd) in
        rw (hn, increment_found)
          (λ k p.
            rw
              (table-put_feeder i.api_key i.proto y
                (record (with_connection y i.proto d') { time_updated = now }) d' s k p hy refl)
              (ground (arith, ==_iff i.api_key k, ==_iff i.proto p, there)))

pub reply-Counts :
    (c : Call) (s : Statistics) → IsValid s → s.initialised ≡ true → Counts c s (reply c s)
unfolding reply
reply-Counts (registers_feeder d now) s v init = register_feeder-Counts d now s
reply-Counts (increments i now) s v init = increment-Counts i now s v
reply-Counts (registers conn connected now) s v init = register-Counts conn connected now s v init
reply-Counts (unregisters conn now) s v init = unregister-Counts conn now s v init
reply-Counts (evicts now) s v init = rw (stats_evictor_inner_lem now s v) (λ k p. refl)

-- A registration adds one at most, in its own table.
abbrev pub new_in : Call → ℕ → ℕ → ℕ
new_in (registers conn connected now) k p = if is_table conn k p then 1 else 0
new_in _ k p = 0

pub count_after-le :
    (c : Call) (s : Statistics) (k p m : ℕ) → count_after c s k p m ≤ m + new_in c k p
count_after-le (registers_feeder d now) s k p m = omega arith
count_after-le (increments i now) s k p m = omega arith
count_after-le (registers conn connected now) s k p m = ground arith
count_after-le (unregisters conn now) s k p m = ground arith
count_after-le (evicts now) s k p m = omega arith
