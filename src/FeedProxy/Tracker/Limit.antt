-- ===== src/FeedProxy/Tracker/Limit.antt =====
-- The counts of an address's connections: what an eviction leaves of them, and what two checks at
-- once do.
use bordercontrol.Prelude.{
  ℕ, suc, ◌+◌, ◌≤◌, ◌<◌, ◌≡◌, ◌↔◌, leb, refl, true, List, [], ◌∷◌, ◌++◌, none, ◌&&◌, if◌then◌else◌,
  arith, Bool-cases, inl, inr, ==_refl,
}
use bordercontrol.FeedProxy.Tracker.{
  Ip, nil, v4, v6, ip_equal, IncomingConnection, IncomingConnectionTracker, is_recent, evict,
  count_src, check, admit, max_requests_per_src_ip,
}
use bordercontrol.FeedProxy.Tracker.Eviction.{kept, evict-kept}

-- The connections of an address that are recent at a time.
unfoldable pub recent : ℕ → Ip → List IncomingConnection → ℕ
recent t ip [] = 0
recent t ip (c ∷ cs) =
    if ip_equal c.src_ip ip && is_recent t c then suc (recent t ip cs) else recent t ip cs

pub recent-append :
    (t : ℕ) (ip : Ip) (cs ds : List IncomingConnection)
    → recent t ip (cs ++ ds) ≡ recent t ip cs + recent t ip ds
unfolding recent
recent-append t ip [] ds = omega arith
recent-append t ip (c ∷ cs) ds = ground (arith, recent-append t ip cs ds)

pub recent-le-count_src :
    (t : ℕ) (ip : Ip) (cs : List IncomingConnection) → recent t ip cs ≤ count_src ip cs
unfolding recent count_src
recent-le-count_src t ip [] = omega arith
recent-le-count_src t ip (c ∷ cs) = ground (arith, recent-le-count_src t ip cs)

pub count_src-append :
    (ip : Ip) (cs ds : List IncomingConnection)
    → count_src ip (cs ++ ds) ≡ count_src ip cs + count_src ip ds
unfolding count_src
count_src-append ip [] ds = omega arith
count_src-append ip (c ∷ cs) ds = ground (arith, count_src-append ip cs ds)

-- An eviction removes nothing that is recent at the time of its clock, or later.
pub recent-kept :
    (clock : ℕ → ℕ) (j t : ℕ) (ip : Ip) (cs : List IncomingConnection)
    → ((i : ℕ) → clock i ≤ t)
    → recent t ip (kept clock j cs) ≡ recent t ip cs
unfolding recent kept
recent-kept clock j t ip [] h = refl
recent-kept clock j t ip (c ∷ cs) h = ground (arith, recent-kept clock (j + 1) t ip cs h, h j)

pub count_src-kept :
    (clock : ℕ → ℕ) (j : ℕ) (ip : Ip) (cs : List IncomingConnection)
    → count_src ip (kept clock j cs) ≤ count_src ip cs
unfolding count_src kept
count_src-kept clock j ip [] = omega arith
count_src-kept clock j ip (c ∷ cs) = ground (arith, count_src-kept clock (j + 1) ip cs)

-- An eviction whose clock starts at `t` leaves no more than what is recent at `t`.
pub count_src-kept_le :
    (clock : ℕ → ℕ) (j t : ℕ) (ip : Ip) (cs : List IncomingConnection)
    → ((i : ℕ) → t ≤ clock i)
    → count_src ip (kept clock j cs) ≤ recent t ip cs
unfolding count_src kept recent
count_src-kept_le clock j t ip [] h = omega arith
count_src-kept_le clock j t ip (c ∷ cs) h =
    ground (arith, count_src-kept_le clock (j + 1) t ip cs h, h j)

pub ip_equal_eq : (a b : Ip) → ip_equal a b ≡ true → a ≡ b
unfolding ip_equal
ip_equal_eq a b h = ground arith

pub ip_equal_refl : (a : Ip) → ip_equal a a ≡ true
unfolding ip_equal
ip_equal_refl nil = refl
ip_equal_refl (v4 a) = ==_refl a
ip_equal_refl (v6 a) = ==_refl a

-- An address with fewer than three connections tracked that are recent at `t` is let in after an
-- eviction whose clock starts at `t`.
pub check-evict :
    (clock : ℕ → ℕ) (t : ℕ) (ip : Ip) (num now : ℕ) (tr : IncomingConnectionTracker)
    → ((i : ℕ) → t ≤ clock i)
    → recent t ip tr.connections < max_requests_per_src_ip
    → (check ip num now (evict clock tr)).0 ≡ none
unfolding check admit
check-evict clock t ip num now tr h few =
    rw (evict-kept clock tr) (ground (arith, count_src-kept_le clock 0 t ip tr.connections h))

-- An eviction leaves just what is recent, if its rounds all read one time.
count_src-kept_at :
    (j t : ℕ) (ip : Ip) (cs : List IncomingConnection)
    → count_src ip (kept (λ i. t) j cs) ≡ recent t ip cs
unfolding count_src kept recent
count_src-kept_at j t ip [] = refl
count_src-kept_at j t ip (c ∷ cs) = ground (arith, count_src-kept_at (j + 1) t ip cs)

-- After an eviction whose rounds all read the time `t`, an address is let in exactly if fewer than
-- three of its tracked connections are recent at `t`; it is then tracked once more, and else as
-- often as before.
pub check-evict_iff :
    (t : ℕ) (ip : Ip) (num now : ℕ) (tr : IncomingConnectionTracker)
    → let (e, after) = check ip num now (evict (λ i. t) tr) in
      ((e ≡ none) ↔ (recent t ip tr.connections < max_requests_per_src_ip))
      × (count_src ip after.connections ≡ (
          if leb max_requests_per_src_ip (recent t ip tr.connections)
          then recent t ip tr.connections
          else suc (recent t ip tr.connections)))
unfolding check admit count_src
check-evict_iff t ip num now tr =
    let c : IncomingConnection = record { src_ip = ip; conn_time = now; conn_num = num } in
    let own : count_src ip (c ∷ []) ≡ 1 = ground (arith, ip_equal_refl ip) in
    let left = kept (λ i. t) 0 tr.connections in
    let same = count_src-kept_at 0 t ip tr.connections in
    rw (evict-kept (λ i. t) tr, same)
      (elim (Bool-cases (leb max_requests_per_src_ip (recent t ip tr.connections))) [
        | inl full ↦ rw full ((λ e. cc, λ few. ground (arith, full)), same)
        | inr free ↦ rw free (
          (λ e. ground (arith, free), λ few. refl),
          omega (arith, count_src-append ip left (c ∷ []), own, same),
        )
      ])

-- Two checks of one address that both count before either adds its connection: with two connections
-- tracked both are let in, and the address then has four.
pub check_race :
    (ip : Ip) (n m now now' : ℕ) (tr : IncomingConnectionTracker)
    → count_src ip tr.connections ≡ 2
    → let count = count_src ip tr.connections in
      let first = admit ip n now count tr in
      let second = admit ip m now' count first.1 in
      (first.0 ≡ none) × (second.0 ≡ none) × (count_src ip second.1.connections ≡ 4)
unfolding admit count_src
check_race ip n m now now' tr h =
    let c : IncomingConnection = record { src_ip = ip; conn_time = now; conn_num = n } in
    let c' : IncomingConnection = record { src_ip = ip; conn_time = now'; conn_num = m } in
    let cs = tr.connections in
    rw h (
      refl,
      refl,
      ground (
        arith,
        count_src-append ip cs (c ∷ []),
        count_src-append ip (cs ++ c ∷ []) (c' ∷ []),
        ip_equal_refl ip,
      ),
    )
