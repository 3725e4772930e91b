-- ===== src/FeedProxy/Tracker/Threads/Tight.antt =====
-- Several goroutines that check one address, and track as many of its connections as they can.
use bordercontrol.Prelude.{ℕ, zero, suc, subst, ◌+◌, ◌≤◌, ◌≡◌, refl, List, [], ◌∷◌, arith}
use bordercontrol.FeedProxy.Tracker.{
  Ip, IncomingConnection, IncomingConnectionTracker, count_src, admit,
}
use bordercontrol.FeedProxy.Tracker.Limit.{count_src-append, ip_equal_refl}
use bordercontrol.FeedProxy.Tracker.Threads.{
  Checking, Goroutines, counts, ends, between, first, Reach, start, later,
}

-- Calls of one address that have all counted the same.
abbrev waiting : Ip → ℕ → ℕ → List Checking
waiting ip count zero = []
waiting ip count (suc n) =
    (record { src_ip = ip; conn_num = 0; conn_count = count }) ∷ waiting ip count n

between-waiting : (ip : Ip) (count n : ℕ) → between ip (waiting ip count n) ≡ n
unfolding between
between-waiting ip count zero = refl
between-waiting ip count (suc n) = rw (ip_equal_refl ip, between-waiting ip count n) refl

abbrev with_waiting : Ip → ℕ → ℕ → IncomingConnectionTracker → Goroutines
with_waiting ip count n t = record { tracker = t; checking = waiting ip count n }

-- All may count before one ends.
all_count :
    (g : ℕ) (ip : Ip) (t : IncomingConnectionTracker) (n : ℕ)
    → n ≤ g
    → Reach g ip (record { tracker = t; checking = [] })
    → Reach g ip (with_waiting ip (count_src ip t.connections) n t)
all_count g ip t zero few r = r
all_count g ip t (suc n) few r =
    later (all_count g ip t n (omega arith) r) (counts ip 0)
      (rw (between-waiting ip (count_src ip t.connections) (suc n)) few)

abbrev admitted : Ip → ℕ → IncomingConnectionTracker → IncomingConnectionTracker
admitted ip count t = (admit ip 0 0 count t).1

count_src-admitted :
    (ip : Ip) (count : ℕ) (t : IncomingConnectionTracker)
    → count ≤ 2
    → count_src ip (admitted ip count t).connections ≡ suc (count_src ip t.connections)
unfolding admit count_src
count_src-admitted ip count t few =
    let c : IncomingConnection = record { src_ip = ip; conn_time = 0; conn_num = 0 } in
    ground (arith, count_src-append ip t.connections (c ∷ []), ip_equal_refl ip)

-- Each that ends then appends its connection.
all_end :
    (g : ℕ) (ip : Ip) (count n : ℕ) (t : IncomingConnectionTracker)
    → count ≤ 2
    → n ≤ g
    → Reach g ip (with_waiting ip count n t)
    → (s : Goroutines) × Reach g ip s
      × (s.checking ≡ [])
      × (count_src ip s.tracker.connections ≡ count_src ip t.connections + n)
all_end g ip count zero t low few r = (_, r, refl, omega arith)
all_end g ip count (suc n) t low few r =
    let (s, r', e, e') = all_end g ip count n (admitted ip count t) low (omega arith) (
      later r (ends [] (waiting ip count n) _ 0 refl)
        (rw (between-waiting ip count n) (omega arith))) in
    (s, r', e, omega (arith, count_src-admitted ip count t low))

-- `n` calls that all count before one ends.
together :
    (g : ℕ) (ip : Ip) (n : ℕ) (s : Goroutines)
    → count_src ip s.tracker.connections ≤ 2
    → n ≤ g
    → s.checking ≡ []
    → Reach g ip s
    → (t : Goroutines) × Reach g ip t
      × (t.checking ≡ [])
      × (count_src ip t.tracker.connections ≡ count_src ip s.tracker.connections + n)
together g ip n s low few e r =
    all_end g ip (count_src ip s.tracker.connections) n s.tracker low few (
      all_count g ip s.tracker n few
        (subst (λ cs. Reach g ip (record { tracker = s.tracker; checking = cs })) e r))

-- For every address and every number of calls for it, but 0, that may be between their two holds of
-- the lock, steps from an empty tracker can make it track two more connections of the address.
pub Reach-IsTight :
    (g : ℕ) (ip : Ip)
    → (s : Goroutines) × Reach (suc g) ip s × (count_src ip s.tracker.connections ≡ 3 + g)
unfolding count_src
Reach-IsTight g ip =
    let (one, r1, e1, n1) = together (suc g) ip 1 first (omega arith) (omega arith) refl start in
    let (two, r2, e2, n2) = together (suc g) ip 1 one (omega arith) (omega arith) e1 r1 in
    let (s, r, e, n) = together (suc g) ip (suc g) two (omega arith) (omega arith) e2 r2 in
    (s, r, omega arith)
