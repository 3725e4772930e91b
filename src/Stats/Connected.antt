-- ===== src/Stats/Connected.antt =====
-- The abstract view of the statistics: which connections are registered, and with what details.
use bordercontrol.Prelude.{
  ℕ, ◌≡◌, refl, true, Option, none, some, ◌==◌, ◌&&◌, if◌then◌else◌, arith, inl, inr, Option-cases,
  ◌≢◌,
}
use bordercontrol.GoMap.{lookup, get_or, insert}
use bordercontrol.GoMap.Laws.{get_or-lookup, get_or-lookup-none, get_or-insert}
use bordercontrol.FeedProtocol.{is_valid}
use bordercontrol.Stats.State.{
  ConnectionDetail, ProtocolDetail, FeederStats, Statistics, zero_protocol_detail,
  zero_feeder_stats, feeder_at, protocol_at,
}
use bordercontrol.Stats.Feeders.{new_feeder_stats, init_feeder_stats}
use bordercontrol.Stats.Cases.{put_feeder}
use bordercontrol.Stats.Init.{zero-IsDetail}
use bordercontrol.Stats.Invariant.{IsValid, IsDetail}

-- The protocol table of a feeder, and the details of one connection.
abbrev pub table : Statistics → ℕ → ℕ → ProtocolDetail
table s k p = protocol_at (feeder_at s k) p

abbrev pub connection_of : Statistics → ℕ → ℕ → ℕ → Option ConnectionDetail
connection_of s k p n = lookup n (table s k p).connection_details

new_feeder-table : (p : ℕ) → protocol_at new_feeder_stats p ≡ zero_protocol_detail
unfolding get_or
new_feeder-table p = ground arith

zero_feeder-table : (p : ℕ) → protocol_at zero_feeder_stats p ≡ zero_protocol_detail
unfolding get_or
zero_feeder-table p = refl

pub lookup-zero_feeder :
    (p n : ℕ) → lookup n (protocol_at zero_feeder_stats p).connection_details ≡ none
unfolding get_or lookup
lookup-zero_feeder p n = refl

pub count-zero_feeder : (p : ℕ) → (protocol_at zero_feeder_stats p).connection_count ≡ 0
unfolding get_or
count-zero_feeder p = refl

-- `initFeederStats` changes no table.
pub table-init_feeder_stats :
    (k j p : ℕ) (s : Statistics) → table (init_feeder_stats k s) j p ≡ table s j p
unfolding init_feeder_stats
table-init_feeder_stats k j p s = elim (Option-cases (lookup k s.feeders)) [
  | inl e ↦
      rw (e, init_feeder_stats)
        (ground (
          arith,
          get_or-insert zero_feeder_stats k j new_feeder_stats s.feeders,
          get_or-lookup-none zero_feeder_stats k s.feeders e,
          new_feeder-table p,
          zero_feeder-table p,
        ))
  | inr (f, e) ↦ rw (e, init_feeder_stats)
]

-- A feeder is written back with one table changed.
pub table-put_feeder :
    (k p : ℕ) (f g : FeederStats) (d : ProtocolDetail) (s : Statistics) (j q : ℕ)
    → lookup k s.feeders ≡ some f
    → g.connections ≡ insert p d f.connections
    → table (put_feeder k g s) j q ≡ (if k == j && p == q then d else table s j q)
table-put_feeder k p f g d s j q h e = rw (get_or-insert zero_feeder_stats k j g s.feeders) (
    ground (
      arith,
      get_or-insert zero_protocol_detail p q d f.connections,
      get_or-lookup zero_feeder_stats k s.feeders h,
    ))

module _ (s : Statistics) (v : IsValid s) where
  pub table-IsDetail : (k p : ℕ) → IsDetail (table s k p)
  table-IsDetail k p = elim (Option-cases (lookup k s.feeders)) [
    | inl e ↦
        rw (get_or-lookup-none zero_feeder_stats k s.feeders e)
          (rw (zero_feeder-table p) zero-IsDetail)
    | inr (f, e) ↦
        rw (get_or-lookup zero_feeder_stats k s.feeders e)
          (elim (Option-cases (lookup p f.connections)) [
            | inl none_there ↦
                rw (get_or-lookup-none zero_protocol_detail p f.connections none_there)
                  zero-IsDetail
            | inr (d, there) ↦
                rw (get_or-lookup zero_protocol_detail p f.connections there)
                  ((v.feeders.each k f e).details p d there)
          ])
  ]

  -- A number that is no protocol has an empty table.
  pub table_unknown : (k p : ℕ) → is_valid p ≢ true → table s k p ≡ zero_protocol_detail
  table_unknown k p unknown = elim (Option-cases (lookup k s.feeders)) [
    | inl e ↦ rw (get_or-lookup-none zero_feeder_stats k s.feeders e) (zero_feeder-table p)
    | inr (f, e) ↦
        rw (get_or-lookup zero_feeder_stats k s.feeders e)
          (elim (Option-cases (lookup p f.connections)) [
            | inl none_there ↦ get_or-lookup-none zero_protocol_detail p f.connections none_there
            | inr (d, there) ↦ absurd (unknown ((v.feeders.each k f e).only p d there))
          ])
  ]
