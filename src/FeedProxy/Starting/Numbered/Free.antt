-- ===== src/FeedProxy/Starting/Numbered/Free.antt =====
-- Which connections have a number, and how many.
use bordercontrol.Prelude.{
  ℕ, suc, ◌+◌, ◌≤◌, ◌<◌, ◌≡◌, refl, List, [], ◌∷◌, ◌++◌, Option, none, some, ◌==◌, if◌then◌else◌,
  arith, Bool-cases, Option-cases, inl, inr, length, ==_iff, ==_refl,
}
use bordercontrol.Stats.State.{StatsError}
use bordercontrol.Stats.Connections.{Connection}
use bordercontrol.FeedProxy.Tracker.{IncomingConnectionTracker, get_num, get_num_loop, uint_mod}
use bordercontrol.Listener.Loop.Numbers.{get_num_rises}
use bordercontrol.FeedProxy.Starting.Serving.{times, serves}
use bordercontrol.FeedProxy.Starting.Numbered.{
  Numbered, Step, accepts, tracks, drops, begins, ends, calls,
}

unfoldable pub taken : ℕ → List ℕ → ℕ
taken n [] = 0
taken n (m ∷ ms) = if m == n then suc (taken n ms) else taken n ms

unfoldable pub with_num : ℕ → List Connection → ℕ
with_num n [] = 0
with_num n (c ∷ cs) = if c.conn_num == n then suc (with_num n cs) else with_num n cs

taken-split :
    (n m : ℕ) (xs ys : List ℕ)
    → taken n (xs ++ m ∷ ys) ≡ taken n (xs ++ ys) + (if m == n then 1 else 0)
unfolding taken
taken-split n m [] ys = ground arith
taken-split n m (x ∷ xs) ys = ground (arith, taken-split n m xs ys)

with_num-split :
    (n : ℕ) (c : Connection) (xs ys : List Connection)
    → with_num n (xs ++ c ∷ ys) ≡ with_num n (xs ++ ys) + (if c.conn_num == n then 1 else 0)
unfolding with_num
with_num-split n c [] ys = ground arith
with_num-split n c (x ∷ xs) ys = ground (arith, with_num-split n c xs ys)

times-le-with_num : (k p n : ℕ) (cs : List Connection) → times k p n cs ≤ with_num n cs
unfolding times with_num
times-le-with_num k p n [] = omega arith
times-le-with_num k p n (c ∷ cs) = ground (arith, times-le-with_num k p n cs)

with_num-serves :
    (n : ℕ) (e : Option StatsError) (c : Connection) (cs : List Connection)
    → with_num n (serves e c cs) ≤ with_num n cs + (if c.conn_num == n then 1 else 0)
unfolding with_num
with_num-serves n none c cs = ground arith
with_num-serves n (some e) c cs = ground arith

-- How many connections have a number, registered or not.
abbrev uses : ℕ → Numbered → ℕ
uses n s = taken n s.pending + with_num n s.serving.served

pub record AreFree (s : Numbered) : Type 0 where
  pub once : (n : ℕ) → uses n s ≤ 1
  pub above : (n : ℕ) → s.tracker.connection_number < n → uses n s ≡ 0

get_num-number :
    (t : IncomingConnectionTracker) (n : ℕ) (t' : IncomingConnectionTracker)
    → get_num t ≡ some (n, t')
    → t'.connection_number ≡ n
unfolding get_num
get_num-number t n t' e =
    elim (Option-cases
      (get_num_loop (suc (length t.connections)) t.connections t.connection_number)) [
        | inl gone ↦ let none_there = rw gone at e in cc
        | inr (m, found) ↦ let there = rw found at e in cc
      ]

-- No step that keeps the last number uses a number more.
keeps-AreFree :
    (s t : Numbered)
    → t.tracker.connection_number ≡ s.tracker.connection_number
    → ((n : ℕ) → uses n t ≤ uses n s)
    → AreFree s
    → AreFree t
keeps-AreFree s t same less v = record {
  once = λ n. omega (arith, less n, v.once n);
  above = λ n high. omega (arith, less n, v.above n (omega arith));
}

accepts-AreFree :
    (s : Numbered) (n : ℕ) (t : IncomingConnectionTracker)
    → s.tracker.connection_number + suc (length s.tracker.connections) < uint_mod
    → get_num s.tracker ≡ some (n, t)
    → AreFree s
    → AreFree (record s { tracker = t; pending = n ∷ s.pending })
unfolding taken
accepts-AreFree s n t fits e v =
    let (rises, _) = get_num_rises s.tracker n t fits e in
    let last = get_num-number s.tracker n t e in
    record {
      once = λ m. elim (Bool-cases (n == m)) [
        | inl same ↦
            let equal : n ≡ m = ground (arith, same, ==_iff n m) in
            rw same (omega (arith, v.above m (omega (arith, rises, equal))))
        | inr other ↦ rw other (v.once m)
      ];
      above = λ m high. elim (Bool-cases (n == m)) [
        | inl same ↦
            let equal : n ≡ m = ground (arith, same, ==_iff n m) in
            absurd (omega (arith, last, high, equal))
        | inr other ↦ rw other (v.above m (omega (arith, rises, last, high)))
      ];
    }

-- The number that a connection has got is that of no connection that is served.
pub pending-IsNew :
    (s : Numbered) (xs ys : List ℕ) (conn : Connection)
    → s.pending ≡ xs ++ conn.conn_num ∷ ys
    → AreFree s
    → times conn.api_key conn.proto conn.conn_num s.serving.served ≡ 0
pending-IsNew s xs ys conn e v =
    let split : taken conn.conn_num s.pending ≡ taken conn.conn_num (xs ++ ys) + 1 =
      rw e (ground (arith, taken-split conn.conn_num conn.conn_num xs ys, ==_refl conn.conn_num)) in
    omega (
      arith,
      split,
      v.once conn.conn_num,
      times-le-with_num conn.api_key conn.proto conn.conn_num s.serving.served,
    )

taken-less :
    (s : Numbered) (xs ys : List ℕ) (m n : ℕ)
    → s.pending ≡ xs ++ m ∷ ys
    → taken n s.pending ≡ taken n (xs ++ ys) + (if m == n then 1 else 0)
taken-less s xs ys m n e = rw e (taken-split n m xs ys)

pub Step-AreFree : {s t : Numbered} → Step s t → AreFree s → AreFree t
Step-AreFree {s} (accepts n t fits e) v = accepts-AreFree s n t fits e v
Step-AreFree {s} (tracks cs) v = keeps-AreFree s _ refl (λ n. omega arith) v
Step-AreFree {s} (drops xs ys m e) v =
    keeps-AreFree s (record s { pending = xs ++ ys }) refl
      (λ n. omega (arith, taken-less s xs ys m n e)) v
Step-AreFree {s} (begins xs ys conn connected now r e done) v =
    keeps-AreFree s
      (record s {
        pending = xs ++ ys;
        serving = record { statistics = r.1; served = serves r.0 conn s.serving.served };
      })
      refl
      (λ n.
        omega (
          arith,
          taken-less s xs ys conn.conn_num n e,
          with_num-serves n r.0 conn s.serving.served,
        ))
      v
Step-AreFree {s} (ends xs ys conn now r e done) v =
    keeps-AreFree s (record s { serving = record { statistics = r.1; served = xs ++ ys } }) refl
      (λ n.
        let split : with_num n s.serving.served
            ≡ with_num n (xs ++ ys) + (if conn.conn_num == n then 1 else 0) =
          rw e (with_num-split n conn xs ys) in
        omega (arith, split))
      v
Step-AreFree {s} (calls c r quiet done) v =
    keeps-AreFree s (record s { serving = record s.serving { statistics = r.1 } }) refl
      (λ n. omega arith) v
