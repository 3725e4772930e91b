-- ===== src/FeedProxy/Tracker/Numbers.antt =====
-- The numbers that the loop of `getNum` tries, and the one that it returns.
use bordercontrol.Prelude.{
  ℕ, zero, suc, ◌+◌, ◌-◌, ◌≤◌, ◌<◌, ◌≡◌, ◌≢◌, refl, Bool, true, false, List, [], ◌∷◌, some, ◌==◌,
  if◌then◌else◌, length, arith, Bool-cases, inl, inr, ◌⊎◌, ==_iff,
}
use bordercontrol.FeedProxy.Tracker.{
  IncomingConnection, IncomingConnectionTracker, uint_mod, next_num, is_dupe, get_num_loop, get_num,
}

-- The numbers that `rounds` rounds of the loop try, from the number `n` on.
tried : ℕ → ℕ → List ℕ
tried zero n = []
tried (suc rounds) n = next_num n ∷ tried rounds (next_num n)

is_in : ℕ → List ℕ → Bool
is_in n [] = false
is_in n (m ∷ ms) = if n == m then true else is_in n ms

next_num_range : (n : ℕ) → n < uint_mod → (0 < next_num n) × (next_num n < uint_mod)
unfolding next_num
next_num_range n h = ground arith

-- `n` lies `k` numbers after `a` on the circle of the numbers 1 to 2^64 - 1.
abbrev After : ℕ → ℕ → ℕ → Type 0
After a k n = (n ≡ a + k) ⊎ (n + (uint_mod - 1) ≡ a + k)

After-next_num :
    (a k n : ℕ)
    → 0 < n
    → n < uint_mod
    → a < uint_mod
    → k + 1 < uint_mod
    → After a k n
    → After a (suc k) (next_num n)
unfolding next_num
After-next_num a k n p q r few h = ground arith

-- Fewer rounds than there are numbers do not come back to the number they started from.
tried_no_return :
    (rounds a k n : ℕ)
    → 0 < a
    → a < uint_mod
    → 0 < n
    → n < uint_mod
    → After a k n
    → rounds + k < uint_mod - 1
    → is_in a (tried rounds n) ≡ false
unfolding is_in tried
tried_no_return zero a k n pa qa pn qn h few = refl
tried_no_return (suc rounds) a k n pa qa pn qn h few =
    let (pm, qm) = next_num_range n qn in
    let hm = After-next_num a k n pn qn qa (omega arith) h in
    let rest = tried_no_return rounds a (suc k) (next_num n) pa qa pm qm hm (omega arith) in
    let differs : a ≢ next_num n = λ e. omega arith in ground (arith, ==_iff a (next_num n))

abbrev IsDistinct : List ℕ → Type 0
IsDistinct [] = Unit
IsDistinct (n ∷ ns) = (is_in n ns ≡ false) × IsDistinct ns

tried-IsDistinct : (rounds n : ℕ) → n < uint_mod → rounds < uint_mod → IsDistinct (tried rounds n)
unfolding tried
tried-IsDistinct zero n h few = tt
tried-IsDistinct (suc rounds) n h few =
    let (p, q) = next_num_range n h in
    (
      tried_no_return rounds (next_num n) 0 (next_num n) p q p q (inl (omega arith)) (omega arith),
      tried-IsDistinct rounds (next_num n) q (omega arith),
    )

-- The tracked connections without the first one that has the number.
without : ℕ → List IncomingConnection → List IncomingConnection
without n [] = []
without n (c ∷ cs) = if n == c.conn_num then cs else c ∷ without n cs

length-without :
    (n : ℕ) (cs : List IncomingConnection)
    → is_dupe n cs ≡ true
    → suc (length (without n cs)) ≡ length cs
unfolding is_dupe without
length-without n [] h = cc
length-without n (c ∷ cs) h = ground (arith, length-without n cs)

is_dupe-without :
    (n m : ℕ) (cs : List IncomingConnection) → n ≢ m → is_dupe m (without n cs) ≡ is_dupe m cs
unfolding is_dupe without
is_dupe-without n m [] h = refl
is_dupe-without n m (c ∷ cs) h = ground (arith, is_dupe-without n m cs)

abbrev AllTaken : List ℕ → List IncomingConnection → Type 0
AllTaken [] cs = Unit
AllTaken (n ∷ ns) cs = (is_dupe n cs ≡ true) × AllTaken ns cs

AllTaken-without :
    (n : ℕ) (ns : List ℕ) (cs : List IncomingConnection)
    → is_in n ns ≡ false
    → AllTaken ns cs
    → AllTaken ns (without n cs)
unfolding is_in
AllTaken-without n [] cs h t = tt
AllTaken-without n (m ∷ ms) cs h t =
    let fresh : (n == m) ≡ false = ground arith in
    let differs : n ≢ m = ground arith in
    (rw (is_dupe-without n m cs differs) t.0, AllTaken-without n ms cs (ground arith) t.1)

-- Distinct numbers that are all taken are no more than the connections.
taken_le :
    (ns : List ℕ) (cs : List IncomingConnection)
    → IsDistinct ns
    → AllTaken ns cs
    → length ns ≤ length cs
taken_le [] cs d t = omega arith
taken_le (n ∷ ns) cs d t = omega (
  arith,
  length-without n cs t.0,
  taken_le ns (without n cs) d.1 (AllTaken-without n ns cs d.0 t.1),
)

length-tried : (rounds n : ℕ) → length (tried rounds n) ≡ rounds
unfolding tried
length-tried zero n = refl
length-tried (suc rounds) n = omega (arith, length-tried rounds (next_num n))

-- A number that the loop of `getNum` may return.
abbrev pub IsFree : List IncomingConnection → ℕ → Type 0
IsFree cs n = (0 < n) × (n < uint_mod) × (is_dupe n cs ≡ false)

-- The loop ends with a free number, or has found every number that it tried in use.
get_num_loop_ends :
    (rounds : ℕ) (cs : List IncomingConnection) (n : ℕ)
    → n < uint_mod
    → ((m : ℕ) × (get_num_loop rounds cs n ≡ some m) × IsFree cs m) ⊎ AllTaken (tried rounds n) cs
unfolding get_num_loop tried
get_num_loop_ends zero cs n h = inr tt
get_num_loop_ends (suc rounds) cs n h =
    let (p, q) = next_num_range n h in
    elim (Bool-cases (is_dupe (next_num n) cs)) [
      | inl dupe ↦ elim (get_num_loop_ends rounds cs (next_num n) q) [
        | inl (m, e, free) ↦ inl (m, rw dupe e, free)
        | inr taken ↦ inr (dupe, taken)
      ]
      | inr new ↦ inl (next_num n, rw new, (p, q, new))
    ]

-- If the last number fits a uint and there are fewer than 2^64 - 1 connections, `getNum` ends,
-- within one round for each tracked connection and one more: the number is not 0, fits a uint, is
-- that of no tracked connection, and is the one that the tracker goes on from; the connections are
-- as before.
pub get_num_total :
    (t : IncomingConnectionTracker)
    → t.connection_number < uint_mod
    → length t.connections + 1 < uint_mod
    → (n : ℕ) × (get_num t ≡ some (n, record t { connection_number = n })) × IsFree t.connections n
unfolding get_num
get_num_total t h few =
    let rounds = suc (length t.connections) in
    elim (get_num_loop_ends rounds t.connections t.connection_number h) [
      | inl (n, e, free) ↦ (n, rw e, free)
      | inr taken ↦ absurd (
          omega (
            arith,
            length-tried rounds t.connection_number,
            taken_le (tried rounds t.connection_number) t.connections
                (tried-IsDistinct rounds t.connection_number h (omega arith)) taken,
          ))
    ]
