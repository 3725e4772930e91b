-- ===== src/FeedProxy/Starting/Serving/Lists.antt =====
-- Numbers of connections in a list.
use bordercontrol.Prelude.{
  ℕ, ◌+◌, ◌≡◌, refl, true, List, [], ◌∷◌, ◌++◌, ◌==◌, if◌then◌else◌, arith, ==_iff,
}
use bordercontrol.Stats.Connections.{Connection}
use bordercontrol.Stats.Counting.{is_table}
use bordercontrol.Stats.Registering.{is_same}
use bordercontrol.FeedProxy.Starting.Threads.{between}
use bordercontrol.FeedProxy.Starting.Serving.{times, in_protocol}

pub times-split :
    (k p n : ℕ) (xs ys : List Connection) (c : Connection)
    → times k p n (xs ++ c ∷ ys) ≡ times k p n (xs ++ ys) + (if is_same c k p n then 1 else 0)
unfolding times
times-split k p n [] ys c = ground arith
times-split k p n (x ∷ xs) ys c = ground (arith, times-split k p n xs ys c)

pub between-split :
    (k p : ℕ) (xs ys : List Connection) (c : Connection)
    → between k p (xs ++ c ∷ ys) ≡ between k p (xs ++ ys) + (if is_table c k p then 1 else 0)
unfolding between
between-split k p [] ys c = ground arith
between-split k p (x ∷ xs) ys c = ground (arith, between-split k p xs ys c)

pub in_protocol-split :
    (p : ℕ) (xs ys : List Connection) (c : Connection)
    → in_protocol p (xs ++ c ∷ ys) ≡ in_protocol p (xs ++ ys) + (if c.proto == p then 1 else 0)
unfolding in_protocol
in_protocol-split p [] ys c = ground arith
in_protocol-split p (x ∷ xs) ys c = ground (arith, in_protocol-split p xs ys c)

-- A connection counts as one of its own.
pub times_own :
    (c : Connection) (k p n : ℕ) (cs : List Connection)
    → is_same c k p n ≡ true
    → times k p n cs ≡ times c.api_key c.proto c.conn_num cs
times_own c k p n cs same =
    let (ke, pe, ne) : (c.api_key ≡ k) × (c.proto ≡ p) × (c.conn_num ≡ n) =
      ground (arith, ==_iff c.api_key k, ==_iff c.proto p, ==_iff c.conn_num n) in
    rw (ke, pe, ne) refl
