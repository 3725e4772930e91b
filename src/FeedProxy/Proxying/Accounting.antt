-- ===== src/FeedProxy/Proxying/Accounting.antt =====
-- The bytes of a proxied connection: what is written, what is reported, and how often.
use bordercontrol.Prelude.{ℕ, ◌+◌, ◌*◌, ◌%◌, ◌≤◌, ◌<◌, ◌≡◌, refl, List, [], ◌∷◌, arith, length}
use bordercontrol.Stats.State.{second, uint64_mod}
use bordercontrol.Stats.Feeders.{Increment}
use bordercontrol.FeedProxy.Proxying.Rule.{IsKept, AllKept, protocol_proxy-kept}
use bordercontrol.FeedProxy.Proxying.{
  ProxyDirection, ProtocolProxyConfig, Round, Progress, increment, protocol_proxy, first_progress,
}

unfoldable pub sum : List ℕ → ℕ
sum [] = 0
sum (n ∷ ns) = n + sum ns

-- The bytes of the increments; only one direction is counted in each.
unfoldable pub sum_reported : List Increment → ℕ
sum_reported [] = 0
sum_reported (i ∷ is) = (i.bytes_in + i.bytes_out) + sum_reported is

-- What was written is what was reported and what is still to be reported, modulo 2^64.
pub record IsAccounted (p : Progress) : Type 0 where
  pub total : sum p.written % uint64_mod ≡ (sum_reported p.reported + p.byte_count) % uint64_mod
  pub fits : p.byte_count < uint64_mod

-- `since` is when the loop started: there is no more than one report for each second.
abbrev pub IsPaced : ℕ → Progress → Type 0
IsPaced since p = since + length p.reported * second ≤ p.timer

-- In each round the timer is reset no earlier than it is tested.
abbrev pub AllInOrder : List Round → Type 0
AllInOrder [] = Unit
AllInOrder (r ∷ rs) = (r.now ≤ r.reset_at) × AllInOrder rs

module _ (conf : ProtocolProxyConfig) (dir : ProxyDirection) where
  increment_bytes : (n : ℕ) → (increment conf dir n).bytes_in + (increment conf dir n).bytes_out ≡ n
  increment_bytes n = ground arith

  IsAccounted-IsKept : (r : Round) → IsKept conf dir IsAccounted r
  IsAccounted-IsKept r = record {
    written = λ n p v. unfold sum in record { total = omega (arith, v.total); fits = omega arith };
    checked = λ last p v. record { total = v.total; fits = v.fits };
    reset = λ p v late. record { total = v.total; fits = v.fits };
    reported = λ p v late.
        unfold sum_reported in
        record { total = omega (arith, v.total, increment_bytes p.byte_count); fits = omega arith };
  }

  IsAccounted-AllKept : (rs : List Round) → AllKept conf dir IsAccounted rs
  IsAccounted-AllKept [] = tt
  IsAccounted-AllKept (r ∷ rs) = (IsAccounted-IsKept r, IsAccounted-AllKept rs)

  -- Whatever happens in the rounds of the loop, and whether or not it has returned: the bytes that
  -- were written are those that were reported to the statistics and those counted since, modulo
  -- 2^64.
  pub protocol_proxy-IsAccounted :
      (rs : List Round) (now last : ℕ)
      → IsAccounted (protocol_proxy conf dir rs (first_progress now last)).1
  protocol_proxy-IsAccounted rs now last =
      protocol_proxy-kept conf dir IsAccounted rs (first_progress now last) (IsAccounted-AllKept rs)
        (unfold sum sum_reported in record { total = refl; fits = omega arith })

  IsPaced-AllKept :
      (since : ℕ) (rs : List Round) → AllInOrder rs → AllKept conf dir (IsPaced since) rs
  IsPaced-AllKept since [] o = tt
  IsPaced-AllKept since (r ∷ rs) (o, os) = (
    record {
      written = λ n p h. h;
      checked = λ last p h. h;
      reset = λ p h late. omega arith;
      reported = λ p h late. omega arith;
    },
    IsPaced-AllKept since rs os,
  )

  -- If in each round the timer is reset no earlier than it is tested, then the loop has made no more
  -- reports than whole seconds have passed from its start to the last reset of the timer.
  pub protocol_proxy-IsPaced :
      (rs : List Round) (now last : ℕ)
      → AllInOrder rs
      → IsPaced now (protocol_proxy conf dir rs (first_progress now last)).1
  protocol_proxy-IsPaced rs now last o =
      protocol_proxy-kept conf dir (IsPaced now) rs (first_progress now last)
        (IsPaced-AllKept now rs o) (omega arith)
