-- ===== src/FeedProxy/Starting/Serving/Ends.antt =====
-- A connection that ends.
use bordercontrol.Prelude.{
  ℕ, ◌+◌, ◌≤◌, ◌≡◌, refl, true, false, List, ◌∷◌, ◌++◌, Option, none, some, ◌==◌, if◌then◌else◌,
  arith, Bool-cases, inl, inr, ==_refl,
}
use bordercontrol.FeedProtocol.{is_valid}
use bordercontrol.Stats.State.{ConnectionDetail}
use bordercontrol.Stats.Connections.{Connection}
use bordercontrol.Stats.Cases.{Reply}
use bordercontrol.Stats.Connected.{table, connection_of}
use bordercontrol.Stats.Counting.{is_table, is_none}
use bordercontrol.Stats.Histories.{unregisters}
use bordercontrol.Stats.Refinement.{after}
use bordercontrol.Stats.Registering.{is_same}
use bordercontrol.FeedProxy.Starting.Threads.{between}
use bordercontrol.FeedProxy.Starting.Serving.{Serving, times, in_protocol}
use bordercontrol.FeedProxy.Starting.Serving.Lists.{times-split, between-split, in_protocol-split}
use bordercontrol.FeedProxy.Starting.Serving.Exact.{number_of, IsExact, IsAfter}

-- What is served before the end, and what else.
record Others (s : Serving) (conn : Connection) (others : List Connection) : Type 0 where
  same :
      (k p n : ℕ)
      → times k p n s.served ≡ times k p n others + (if is_same conn k p n then 1 else 0)
  table_of :
      (k p : ℕ) → between k p s.served ≡ between k p others + (if is_table conn k p then 1 else 0)
  protocol :
      (p : ℕ) → in_protocol p s.served ≡ in_protocol p others + (if conn.proto == p then 1 else 0)

split-Others :
    (s : Serving) (xs ys : List Connection) (conn : Connection)
    → s.served ≡ xs ++ conn ∷ ys
    → Others s conn (xs ++ ys)
split-Others s xs ys conn e = record {
  same = λ k p n. rw e (times-split k p n xs ys conn);
  table_of = λ k p. rw e (between-split k p xs ys conn);
  protocol = λ p. rw e (in_protocol-split p xs ys conn);
}

number_of-le : (o : Option ConnectionDetail) → number_of o ≤ 1
number_of-le none = omega arith
number_of-le (some c) = omega arith

number_of-one : (o : Option ConnectionDetail) → 1 ≤ number_of o → is_none o ≡ false
number_of-one none h = absurd (omega (arith, h))
number_of-one (some c) h = refl

module _ (s : Serving) (conn : Connection) (others : List Connection) (o : Others s conn others)
    (x : IsExact s) where
  -- It has a valid protocol.
  served_known : is_valid conn.proto ≡ true
  served_known = elim (Bool-cases (is_valid conn.proto)) [
    | inl known ↦ known
    | inr unknown ↦
        let none_there = x.known conn.api_key conn.proto unknown in
        absurd (
          ground (
            arith,
            none_there,
            o.table_of conn.api_key conn.proto,
            ==_refl conn.api_key,
            ==_refl conn.proto,
          ))
  ]

  -- It is registered, once.
  served_registered :
      (k p : ℕ)
      → is_table conn k p ≡ true
      → is_none (connection_of s.statistics k p conn.conn_num) ≡ false
  served_registered k p here = number_of-one (connection_of s.statistics k p conn.conn_num) (
      ground
        (arith, here, ==_refl conn.conn_num, o.same k p conn.conn_num, x.shown k p conn.conn_num))

  no_other : (k p n : ℕ) → is_same conn k p n ≡ true → times k p n others ≡ 0
  no_other k p n same =
      ground
        (arith, same, o.same k p n, x.shown k p n, number_of-le (connection_of s.statistics k p n))

  -- It counts one less in its own table.
  counts_less :
      (now : ℕ) (r : Reply) (k p : ℕ)
      → IsAfter (unregisters conn now) s.statistics r
      → (table r.1 k p).connection_count ≡ between k p others
  counts_less now r k p a = elim (Bool-cases (is_table conn k p)) [
    | inl here ↦
        rw (a.counts k p, served_known, here, served_registered k p here)
          (ground (arith, x.counted k p, o.table_of k p, here))
    | inr elsewhere ↦
        rw (a.counts k p, served_known, elsewhere)
          (ground (arith, x.counted k p, o.table_of k p, elsewhere))
  ]

  ended-IsExact :
      (now : ℕ) (r : Reply)
      → IsAfter (unregisters conn now) s.statistics r
      → IsExact (record { statistics = r.1; served = others })
  unfolding after
  ended-IsExact now r a = record {
    valid = a.valid;
    initialised = a.refines.1;
    known = λ k p unknown. ground (arith, x.known k p unknown, o.table_of k p);
    shown = λ k p n.
        rw (a.refines.2 k p n, served_known)
          (elim (Bool-cases (is_same conn k p n)) [
            | inl same ↦ rw same (no_other k p n same)
            | inr different ↦ rw different (ground (arith, different, o.same k p n, x.shown k p n))
          ]);
    counted = λ k p. counts_less now r k p a;
    gauged = λ p. ground (
      arith,
      a.moves p,
      counts_less now r conn.api_key p a,
      x.counted conn.api_key p,
      o.table_of conn.api_key p,
      o.protocol p,
      ==_refl conn.api_key,
      x.gauged p,
    );
  }

pub ends-IsExact :
    (xs ys : List Connection) (conn : Connection) (now : ℕ) (s : Serving) (r : Reply)
    → s.served ≡ xs ++ conn ∷ ys
    → IsExact s
    → IsAfter (unregisters conn now) s.statistics r
    → IsExact (record { statistics = r.1; served = xs ++ ys })
ends-IsExact xs ys conn now s r e x a =
    ended-IsExact s conn (xs ++ ys) (split-Others s xs ys conn e) x now r a
