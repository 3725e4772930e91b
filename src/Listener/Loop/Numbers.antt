-- ===== src/Listener/Loop/Numbers.antt =====
-- Which connections the loop of `Run` starts, and with what numbers.
use bordercontrol.Prelude.{
  ℕ, zero, suc, ◌+◌, ◌*◌, ◌≤◌, ◌<◌, ◌≡◌, refl, ap, subst, Bool, true, false, List, [], ◌∷◌, Option,
  none, some, length, arith, ◌⊎◌, inl, inr, Bool-cases, Option-cases,
}
use native.Mathlib.Nat.{suc-mul}
use bordercontrol.FeedProxy.Tracker.{
  IncomingConnection, IncomingConnectionTracker, uint_mod, next_num, is_dupe, get_num_loop, get_num,
}
use bordercontrol.FeedProxy.Tracker.Numbers.{get_num_total}
use bordercontrol.Listener.{Listener}
use bordercontrol.Listener.Loop.{
  Accepted, closed, failed, accepted, Round, ProxyConnection, proxy_connection, Served,
  get_connection_number, accept_loop,
}

-- The connections that are accepted before the listener is closed.
unfoldable pub accepted_connections : List Round → List ℕ
accepted_connections [] = []
accepted_connections (r ∷ rs) = elim r.answer [
  | closed ↦ []
  | failed e ↦ accepted_connections rs
  | accepted conn ↦ conn ∷ accepted_connections rs
]

unfoldable pub is_closed : List Round → Bool
is_closed [] = false
is_closed (r ∷ rs) = elim r.answer [ closed ↦ true | _ ↦ is_closed rs ]

next_num_below : (n : ℕ) → n + 1 < uint_mod → next_num n ≡ n + 1
unfolding next_num
next_num_below n h = ground arith

-- Below the top of the circle the number that is found lies above the last one.
get_num_loop_rises :
    (rounds : ℕ) (cs : List IncomingConnection) (n m : ℕ)
    → n + rounds < uint_mod
    → get_num_loop rounds cs n ≡ some m
    → (n < m) × (m ≤ n + rounds)
unfolding get_num_loop
get_num_loop_rises zero cs n m h e = cc
get_num_loop_rises (suc rounds) cs n m h e =
    let above = next_num_below n (omega arith) in
    elim (Bool-cases (is_dupe (next_num n) cs)) [
      | inl dupe ↦
          let more = get_num_loop_rises rounds cs (next_num n) m (omega arith) (rw dupe at e) in
          (omega arith, omega arith)
      | inr new ↦
          let same : some (next_num n) ≡ some m = rw new at e in
          let here : next_num n ≡ m = cc in (omega arith, omega arith)
    ]

pub get_num_rises :
    (t : IncomingConnectionTracker) (n : ℕ) (t' : IncomingConnectionTracker)
    → t.connection_number + suc (length t.connections) < uint_mod
    → get_num t ≡ some (n, t')
    → (t.connection_number < n) × (n ≤ t.connection_number + suc (length t.connections))
unfolding get_num
get_num_rises t n t' h e =
    elim (Option-cases
      (get_num_loop (suc (length t.connections)) t.connections t.connection_number)) [
        | inl gone ↦ let none_there = rw gone at e in cc
        | inr (m, found) ↦
            let here : n ≡ m = let there = rw found at e in cc in
            rw here (
              get_num_loop_rises (suc (length t.connections)) t.connections t.connection_number m h
                found)
      ]

-- In a round the others take no more than `a` numbers, and leave no more than `b` connections
-- tracked.
abbrev pub IsCalmRound : ℕ → ℕ → Round → IncomingConnectionTracker → Type 0
IsCalmRound a b r t =
    (t.connection_number ≤ (r.meanwhile t).connection_number)
    × ((r.meanwhile t).connection_number ≤ t.connection_number + a)
    × (length (r.meanwhile t).connections ≤ b)

-- The tracker after a number was asked for.
abbrev pub tracker_or :
    IncomingConnectionTracker → Option (ℕ × IncomingConnectionTracker) → IncomingConnectionTracker
tracker_or t none = t
tracker_or t (some (num, t')) = t'

abbrev pub tracker_after : Round → IncomingConnectionTracker → IncomingConnectionTracker
tracker_after r t = elim r.answer [
  | closed ↦ r.meanwhile t
  | failed e ↦ r.meanwhile t
  | accepted conn ↦ tracker_or (r.meanwhile t) (get_num (r.meanwhile t))
]

abbrev pub IsCalm : ℕ → ℕ → List Round → IncomingConnectionTracker → Type 0
IsCalm a b [] t = Unit
IsCalm a b (r ∷ rs) t = IsCalmRound a b r t × IsCalm a b rs (tracker_after r t)

-- The connections of a listener, with numbers that rise from `n`.
abbrev pub AreRising : Listener → ℕ → List ProxyConnection → Type 0
AreRising l n [] = Unit
AreRising l n (c ∷ cs) =
    (n < c.connection_number)
    × (c ≡ proxy_connection l c.connection c.connection_number)
    × AreRising l c.connection_number cs

abbrev pub connections_of : List ProxyConnection → List ℕ
connections_of [] = []
connections_of (c ∷ cs) = c.connection ∷ connections_of cs

abbrev pub IsServed : Listener → ℕ → List Round → Served → Type 0
IsServed l n rounds s =
    (connections_of s.started ≡ accepted_connections rounds)
    × (s.unserved ≡ [])
    × (s.ended ≡ is_closed rounds)
    × AreRising l n s.started

AreRising-le :
    (l : Listener) (n m : ℕ) (cs : List ProxyConnection)
    → n ≤ m
    → AreRising l m cs
    → AreRising l n cs
AreRising-le l n m [] h r = tt
AreRising-le l n m (c ∷ cs) h r = (omega arith, r.1, r.2)

Accepted-cases :
    (a : Accepted)
    → (a ≡ closed) ⊎ (((e : ℕ) × (a ≡ failed e)) ⊎ ((conn : ℕ) × (a ≡ accepted conn)))
Accepted-cases closed = inl refl
Accepted-cases (failed e) = inr (inl (e, refl))
Accepted-cases (accepted conn) = inr (inr (conn, refl))

-- A number is there in a calm round.
number_found :
    (a b : ℕ) (r : Round) (t : IncomingConnectionTracker)
    → IsCalmRound a b r t
    → t.connection_number + (a + suc b) < uint_mod
    → (n : ℕ) × (get_num (r.meanwhile t)
        ≡ some (n, record (r.meanwhile t) { connection_number = n }))
      × (t.connection_number < n)
      × (n ≤ t.connection_number + (a + suc b))
number_found a b r t (p, q, few) h =
    let (n, e, _) = get_num_total (r.meanwhile t) (omega arith) (omega arith) in
    let (above, below) = get_num_rises (r.meanwhile t) n _ (omega arith) e in
    (n, e, omega arith, omega arith)

tracker_after-found :
    (r : Round) (t t' : IncomingConnectionTracker) (conn n : ℕ)
    → r.answer ≡ accepted conn
    → get_num (r.meanwhile t) ≡ some (n, t')
    → tracker_after r t ≡ t'
tracker_after-found r t t' conn n came found = rw came (rw found)

IsServed-found :
    (l : Listener) (r : Round) (rs : List Round) (t t' : IncomingConnectionTracker) (conn n : ℕ)
    → r.answer ≡ accepted conn
    → get_num (r.meanwhile t) ≡ some (n, t')
    → t.connection_number < n
    → IsServed l n rs (accept_loop l true rs t')
    → IsServed l t.connection_number (r ∷ rs) (accept_loop l true (r ∷ rs) t)
unfolding accept_loop get_connection_number accepted_connections is_closed
IsServed-found l r rs t t' conn n came found above rest =
    rw (came, accept_loop)
      (rw found (ap (λ cs. conn ∷ cs) rest.0, rest.1, rest.2, (above, refl, rest.3)))

-- If the rest of the program takes at most `a` numbers in a round and leaves at most `b` connections
-- tracked, and the numbers up to then fit a uint: every connection that is accepted before the
-- listener is closed is started, in order, as the listener says and with a number above all before
-- it; none is left over, and the loop has ended exactly if the listener was closed.
pub accept_loop-IsServed :
    (l : Listener) (a b : ℕ) (rounds : List Round) (t : IncomingConnectionTracker)
    → IsCalm a b rounds t
    → t.connection_number + length rounds * (a + suc b) < uint_mod
    → IsServed l t.connection_number rounds (accept_loop l true rounds t)
unfolding accept_loop accepted_connections is_closed
accept_loop-IsServed l a b [] t calm few = (refl, refl, refl, tt)
accept_loop-IsServed l a b (r ∷ rs) t calm few = elim (Accepted-cases r.answer) [
  | inl shut ↦ rw shut (refl, refl, refl, tt)
  | inr (inl (e, failing)) ↦
      let later = rw failing at calm.1 in
      let rest =
        accept_loop-IsServed l a b rs (r.meanwhile t) later
          (omega (arith, calm.0, suc-mul (length rs) (a + suc b))) in
      rw failing (
        rest.0,
        rest.1,
        rest.2,
        AreRising-le l t.connection_number (r.meanwhile t).connection_number _ calm.0.0 rest.3,
      )
  | inr (inr (conn, came)) ↦
      let (n, found, above, below) =
        number_found a b r t calm.0 (omega (arith, suc-mul (length rs) (a + suc b))) in
      let t' = record (r.meanwhile t) { connection_number = n } in
      let later = subst (IsCalm a b rs) (tracker_after-found r t t' conn n came found) calm.1 in
      IsServed-found l r rs t t' conn n came found above
        (accept_loop-IsServed l a b rs t' later (omega (arith, suc-mul (length rs) (a + suc b))))
]
