-- ===== src/FeedProxy/Starting/Serving/Begins.antt =====
-- A connection that is registered.
use bordercontrol.Prelude.{
  ℕ, ◌+◌, ◌≡◌, refl, sym, ◌∙◌, ap, true, false, ◌∷◌, none, some, if◌then◌else◌, arith, Bool-cases,
  Option-cases, inl, inr, ==_iff, ==_refl,
}
use bordercontrol.FeedProtocol.{is_valid}
use bordercontrol.Stats.Connections.{Connection}
use bordercontrol.Stats.Cases.{Reply}
use bordercontrol.Stats.Connected.{table, connection_of}
use bordercontrol.Stats.Counting.{is_table, is_none}
use bordercontrol.Stats.Histories.{registers}
use bordercontrol.Stats.Refinement.{succeeds, after}
use bordercontrol.Stats.Registering.{is_same}
use bordercontrol.FeedProxy.Starting.Threads.{between}
use bordercontrol.FeedProxy.Starting.Serving.{Serving, times, in_protocol, serves}
use bordercontrol.FeedProxy.Starting.Serving.Lists.{times_own}
use bordercontrol.FeedProxy.Starting.Serving.Exact.{number_of, IsExact, IsAfter}

-- A number that no served connection has is not registered.
free_number :
    (conn : Connection) (s : Serving) (k p : ℕ)
    → IsExact s
    → times conn.api_key conn.proto conn.conn_num s.served ≡ 0
    → is_table conn k p ≡ true
    → is_none (connection_of s.statistics k p conn.conn_num) ≡ true
free_number conn s k p x new here =
    let same : is_same conn k p conn.conn_num ≡ true =
      ground (arith, here, ==_refl conn.conn_num) in
    let zero_times =
      sym (x.shown k p conn.conn_num) ∙ times_own conn k p conn.conn_num s.served same ∙ new in
    elim (Option-cases (connection_of s.statistics k p conn.conn_num)) [
      | inl e ↦ rw e refl
      | inr (c, e) ↦
          let one : 1 ≡ 0 = ap number_of (sym e) ∙ zero_times in absurd (omega (arith, one))
    ]

-- It counts one more in its own table.
counts_one :
    (conn : Connection) (connected now : ℕ) (s : Serving) (r : Reply) (k p : ℕ)
    → times conn.api_key conn.proto conn.conn_num s.served ≡ 0
    → is_valid conn.proto ≡ true
    → IsExact s
    → IsAfter (registers conn connected now) s.statistics r
    → (table r.1 k p).connection_count
      ≡ (table s.statistics k p).connection_count + (if is_table conn k p then 1 else 0)
counts_one conn connected now s r k p new known x a = elim (Bool-cases (is_table conn k p)) [
  | inl here ↦ rw (a.counts k p, known, here, free_number conn s k p x new here) (omega arith)
  | inr elsewhere ↦ rw (a.counts k p, known, elsewhere) (omega arith)
]

-- No table of a protocol that is not valid is that of a valid connection.
pub not_table :
    (conn : Connection) (k p : ℕ)
    → is_valid conn.proto ≡ true
    → is_valid p ≡ false
    → is_table conn k p ≡ false
not_table conn k p known unknown = elim (Bool-cases (is_table conn k p)) [
  | inl here ↦
      let same : conn.proto ≡ p = ground (arith, here, ==_iff conn.proto p) in
      cc (same, known, unknown)
  | inr elsewhere ↦ elsewhere
]

-- It is served from then on.
added-IsExact :
    (conn : Connection) (connected now : ℕ) (s : Serving) (r : Reply)
    → times conn.api_key conn.proto conn.conn_num s.served ≡ 0
    → is_valid conn.proto ≡ true
    → IsExact s
    → IsAfter (registers conn connected now) s.statistics r
    → IsExact (record { statistics = r.1; served = conn ∷ s.served })
unfolding times between in_protocol after
added-IsExact conn connected now s r new known x a = record {
  valid = a.valid;
  initialised = a.refines.1;
  known = λ k p unknown. rw (not_table conn k p known unknown) (x.known k p unknown);
  shown = λ k p n.
      rw (a.refines.2 k p n, known)
        (elim (Bool-cases (is_same conn k p n)) [
          | inl same ↦ rw same (omega (arith, times_own conn k p n s.served same, new))
          | inr other ↦ rw other (x.shown k p n)
        ]);
  counted =
      λ k p. ground (arith, counts_one conn connected now s r k p new known x a, x.counted k p);
  gauged = λ p. ground (
    arith,
    a.moves p,
    counts_one conn connected now s r conn.api_key p new known x a,
    ==_refl conn.api_key,
    x.gauged p,
  );
}

-- An error of the registration: the protocol is not valid, and nothing changes.
refused-IsExact :
    (conn : Connection) (connected now : ℕ) (s : Serving) (r : Reply)
    → is_valid conn.proto ≡ false
    → IsExact s
    → IsAfter (registers conn connected now) s.statistics r
    → IsExact (record { statistics = r.1; served = s.served })
unfolding after
refused-IsExact conn connected now s r unknown x a =
    let same : (k p : ℕ)
        → (table r.1 k p).connection_count ≡ (table s.statistics k p).connection_count =
      λ k p. rw (a.counts k p, unknown) refl in
    record {
      valid = a.valid;
      initialised = a.refines.1;
      known = x.known;
      shown = λ k p n. rw (a.refines.2 k p n, unknown) (x.shown k p n);
      counted = λ k p. same k p ∙ x.counted k p;
      gauged = λ p. omega (arith, a.moves p, same conn.api_key p, x.gauged p);
    }

pub begins-IsExact :
    (conn : Connection) (connected now : ℕ) (s : Serving) (r : Reply)
    → times conn.api_key conn.proto conn.conn_num s.served ≡ 0
    → IsExact s
    → IsAfter (registers conn connected now) s.statistics r
    → IsExact (record { statistics = r.1; served = serves r.0 conn s.served })
unfolding succeeds
begins-IsExact conn connected now s (none, t) new x a =
    added-IsExact conn connected now s (none, t) new (sym a.refines.0) x a
begins-IsExact conn connected now s (some e, t) new x a =
    refused-IsExact conn connected now s (some e, t) (sym a.refines.0) x a
