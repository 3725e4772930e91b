-- ===== src/FeedProxy/Tracker/Threads/Bound.antt =====
-- How many connections of an address are tracked at once, at most, when several goroutines check.
use bordercontrol.Prelude.{
  ℕ, suc, ◌+◌, ◌≤◌, ◌≡◌, List, [], ◌∷◌, ◌++◌, ◌&&◌, ltb, if◌then◌else◌, arith, Bool-cases, inl, inr,
}
use bordercontrol.FeedProxy.Tracker.{
  Ip, ip_equal, IncomingConnection, IncomingConnectionTracker, count_src, admit,
  max_requests_per_src_ip,
}
use bordercontrol.FeedProxy.Tracker.Eviction.{evict-kept}
use bordercontrol.FeedProxy.Tracker.Limit.{count_src-append, count_src-kept, ip_equal_eq}
use bordercontrol.FeedProxy.Tracker.Threads.{
  Checking, Goroutines, Step, counted, counts, ends, evicts, between, Reach, start, later,
}

-- The calls for an address that have counted few enough to append.
unfoldable passing : Ip → List Checking → ℕ
passing ip [] = 0
passing ip (c ∷ cs) =
    if ip_equal c.src_ip ip && ltb c.conn_count max_requests_per_src_ip
    then suc (passing ip cs)
    else passing ip cs

passing-le-between : (ip : Ip) (cs : List Checking) → passing ip cs ≤ between ip cs
unfolding passing between
passing-le-between ip [] = omega arith
passing-le-between ip (c ∷ cs) = ground (arith, passing-le-between ip cs)

passing-append :
    (ip : Ip) (cs ds : List Checking) → passing ip (cs ++ ds) ≡ passing ip cs + passing ip ds
unfolding passing
passing-append ip [] ds = omega arith
passing-append ip (c ∷ cs) ds = ground (arith, passing-append ip cs ds)

-- A call that ends takes its place in the tracker, if it passes.
count_src-admit :
    (ip : Ip) (c : Checking) (now : ℕ) (t : IncomingConnectionTracker)
    → count_src ip (admit c.src_ip c.conn_num now c.conn_count t).1.connections
      ≤ count_src ip t.connections + passing ip (c ∷ [])
unfolding passing admit count_src
count_src-admit ip c now t =
    let d : IncomingConnection = record {
      src_ip = c.src_ip;
      conn_time = now;
      conn_num = c.conn_num;
    } in
    ground (arith, count_src-append ip t.connections (d ∷ []))

passing-split :
    (ip : Ip) (xs ys : List Checking) (c : Checking)
    → passing ip (xs ++ c ∷ ys) ≡ passing ip (xs ++ ys) + passing ip (c ∷ [])
passing-split ip xs ys c =
    omega
      (arith, passing-append ip xs (c ∷ ys), passing-append ip (c ∷ []) ys, passing-append ip xs ys)

-- A call that counts few enough to append leaves room for all that are between their holds.
counted-bound :
    (g : ℕ) (ip ip' : Ip) (num : ℕ) (s : Goroutines)
    → between ip (counted ip' num s ∷ s.checking) ≤ g
    → count_src ip s.tracker.connections + passing ip s.checking ≤ 2 + g
    → count_src ip s.tracker.connections + passing ip (counted ip' num s ∷ s.checking) ≤ 2 + g
unfolding passing between
counted-bound g ip ip' num s few h = elim (Bool-cases (ip_equal ip' ip)) [
  | inl same ↦ rw (same, ip_equal_eq ip' ip same) (ground (arith, passing-le-between ip s.checking))
  | inr other ↦ rw other h
]

-- A step that leaves at most `g` calls between their holds keeps the bound.
Step-bound :
    (g : ℕ) (ip : Ip) {s t : Goroutines}
    → Step s t
    → between ip t.checking ≤ g
    → count_src ip s.tracker.connections + passing ip s.checking ≤ 2 + g
    → count_src ip t.tracker.connections + passing ip t.checking ≤ 2 + g
Step-bound g ip {s} (counts ip' num) few h = counted-bound g ip ip' num s few h
Step-bound g ip {s} (ends xs ys c now e) few h =
    let h' : count_src ip s.tracker.connections + passing ip (xs ++ c ∷ ys) ≤ 2 + g = rw (← e) h in
    omega (arith, count_src-admit ip c now s.tracker, passing-split ip xs ys c)
Step-bound g ip {s} (evicts clock) few h =
    rw (evict-kept clock s.tracker) (omega (arith, count_src-kept clock 0 ip s.tracker.connections))

Reach-bound :
    {g : ℕ} {ip : Ip} {s : Goroutines}
    → Reach g ip s
    → count_src ip s.tracker.connections + passing ip s.checking ≤ 2 + g
unfolding count_src passing
Reach-bound start = omega arith
Reach-bound (later r step few) = Step-bound _ _ step few (Reach-bound r)

-- From an empty tracker, and as long as at most `g` calls of `check` for an address are between
-- their two holds of the lock, at most `2 + g` connections of the address are tracked, whatever
-- calls of `check` for other addresses and of `evict` run.
pub Reach-count_src :
    {g : ℕ} {ip : Ip} {s : Goroutines} → Reach g ip s → count_src ip s.tracker.connections ≤ 2 + g
Reach-count_src r = omega (arith, Reach-bound r)
