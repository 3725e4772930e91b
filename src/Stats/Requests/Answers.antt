-- ===== src/Stats/Requests/Answers.antt =====
-- What the requests for a feeder and a protocol are answered.
use bordercontrol.Prelude.{
  ℕ, ◌≤◌, ◌<◌, ◌≡◌, refl, ap, ◌∙◌, subst, Option, none, some, if◌then◌else◌, arith, inl, inr,
  Option-cases,
}
use bordercontrol.GoMap.{lookup, get_or}
use bordercontrol.GoMap.Laws.{get_or-lookup, get_or-lookup-none}
use bordercontrol.Stats.State.{
  ConnectionDetail, FeederStats, Statistics, zero_protocol_detail, zero_feeder_stats, feeder_at,
  protocol_at,
}
use bordercontrol.Stats.Invariant.{IsValid}
use bordercontrol.Stats.Connected.{table, connection_of, table-IsDetail}
use bordercontrol.Stats.Requests.{Newest, no_connection, ProtocolMetrics, feeder_metrics}
use bordercontrol.Stats.Requests.Latest.{
  newest_of, newest_loop, newest, newest_loop-greatest, newest_loop-found,
}
use bordercontrol.Stats.Requests.Loops.{feeder_metrics_lem}

abbrev metrics_of : FeederStats → Newest → Option ProtocolMetrics
metrics_of f m =
    if m.connected
    then some (record { feeder_code = f.code; label = f.label; metrics = m })
    else none

no_metrics :
    (p : ℕ)
    → none
      ≡ metrics_of zero_feeder_stats
          (newest_loop (protocol_at zero_feeder_stats p).connection_details no_connection)
unfolding get_or newest_loop
no_metrics p = refl

newest-table :
    (p : ℕ) (f : FeederStats)
    → newest p f ≡ newest_loop (protocol_at f p).connection_details no_connection
unfolding newest newest_loop
newest-table p f = elim (Option-cases (lookup p f.connections)) [
  | inl n ↦
      rw (n, newest, get_or-lookup-none zero_protocol_detail p f.connections n)
        (unfold newest_loop in refl)
  | inr (d, h) ↦ rw (h, newest, get_or-lookup zero_protocol_detail p f.connections h)
]

feeder_metrics-table :
    (s : Statistics) (k p : ℕ)
    → feeder_metrics s k p
      ≡ metrics_of (feeder_at s k) (newest_loop (table s k p).connection_details no_connection)
feeder_metrics-table s k p = feeder_metrics_lem s k p ∙ elim (Option-cases (lookup k s.feeders)) [
  | inl gone ↦ rw (gone, get_or-lookup-none zero_feeder_stats k s.feeders gone) (no_metrics p)
  | inr (f, hf) ↦ rw (hf, newest-table p f, get_or-lookup zero_feeder_stats k s.feeders hf) refl
]

-- The details are those of the latest connection of a feeder with a protocol.
pub record IsLatest (s : Statistics) (k p : ℕ) (c : ConnectionDetail) : Type 0 where
  pub conn_num : ℕ
  pub there : connection_of s k p conn_num ≡ some c
  pub latest :
      (n : ℕ) (d : ConnectionDetail)
      → connection_of s k p n ≡ some d
      → d.time_connected ≤ c.time_connected

-- On a valid state, if a feeder has a connection with a protocol whose time is not Go's zero time, a
-- request for its metrics is answered with the feeder's code and label, and the bytes and the time of
-- the latest of its connections with that protocol.
pub feeder_metrics-IsLatest :
    (s : Statistics) (k p n : ℕ) (c : ConnectionDetail)
    → IsValid s
    → connection_of s k p n ≡ some c
    → 0 < c.time_connected
    → (m : ConnectionDetail) × IsLatest s k p m
      × (feeder_metrics s k p
          ≡ some (record {
            feeder_code = (feeder_at s k).code;
            label = (feeder_at s k).label;
            metrics = newest_of m;
          }))
feeder_metrics-IsLatest s k p n c v h late =
    let details = (table s k p).connection_details in
    let best = newest_loop details no_connection in
    let ge = newest_loop-greatest details no_connection n c h in
    elim (newest_loop-found details no_connection (table-IsDetail s v k p).distinct) [
      | inl same ↦ absurd (omega (arith, ge, late, ap (λ r. r.connection_time) same))
      | inr (j, m, there, e) ↦ (
        m,
        record {
          conn_num = j;
          there = there;
          latest = λ i d hd.
              subst (λ r. d.time_connected ≤ r.connection_time) e
                (newest_loop-greatest details no_connection i d hd);
        },
        feeder_metrics-table s k p ∙ ap (λ r. metrics_of (feeder_at s k) r) e,
      )
    ]
