-- ===== src/Stats/Requests/Loops.antt =====
-- What the loops of the three requests for metrics find: the latest connection of each protocol.
use bordercontrol.Prelude.{
  ℕ, Option, if◌then◌else◌, ◌≡◌, refl, ap, Bool, true, false, [], ◌∷◌, none, some, ltb, ◌||◌, inl,
  inr, Bool-cases, Option-cases,
}
use bordercontrol.GoMap.{Map, lookup}
use bordercontrol.FeedProtocol.{beast, mlat}
use bordercontrol.Stats.State.{ConnectionDetail, ProtocolDetail, FeederStats, Statistics}
use bordercontrol.Stats.Requests.{
  Newest, no_connection, AllProtocolMetrics, feeders_prepared, all_protocols_prepared,
  feeders_beast_loop, feeders_mlat_loop, feeders_feeder, all_protocols_beast_loop,
  all_protocols_mlat_loop, all_protocols_feeder, ProtocolMetrics, per_protocol_loop, no_metrics,
  feeder_metrics, feeders_beast, feeders_mlat, all_protocols_beast, all_protocols_mlat,
}
use bordercontrol.Stats.Requests.Latest.{newest_of, newest_loop, newest_in, newest}

-- `send` is set with either `connected`.
abbrev SendsConnected : AllProtocolMetrics → Type 0
SendsConnected m = m.send ≡ m.beast_metrics.connected || m.mlat_metrics.connected

abbrev pub with_beast : AllProtocolMetrics → Newest → AllProtocolMetrics
with_beast m r = record m { beast_metrics = r; send = r.connected || m.mlat_metrics.connected }

abbrev pub with_mlat : AllProtocolMetrics → Newest → AllProtocolMetrics
with_mlat m r = record m { mlat_metrics = r; send = m.beast_metrics.connected || r.connected }

-- The latest connections of a feeder.
abbrev pub latest_metrics : FeederStats → AllProtocolMetrics
latest_metrics f = with_mlat (with_beast (feeders_prepared f) (newest beast f)) (newest mlat f)

true_right : (b : Bool) → true ≡ b || true
true_right true = refl
true_right false = refl

feeders_beast_loop_lem :
    (cs : Map ConnectionDetail) (m : AllProtocolMetrics)
    → SendsConnected m
    → feeders_beast_loop cs m ≡ with_beast m (newest_loop cs m.beast_metrics)
unfolding feeders_beast_loop newest_loop
feeders_beast_loop_lem [] m h = ap (λ b. record m { send = b }) h
feeders_beast_loop_lem ((n, c) ∷ cs) m h =
    elim (Bool-cases (ltb m.beast_metrics.connection_time c.time_connected)) [
      | inl later ↦
          rw later
            (feeders_beast_loop_lem cs (record m { beast_metrics = newest_of c; send = true }) refl)
      | inr older ↦ rw older (feeders_beast_loop_lem cs m h)
    ]

feeders_mlat_loop_lem :
    (cs : Map ConnectionDetail) (m : AllProtocolMetrics)
    → SendsConnected m
    → feeders_mlat_loop cs m ≡ with_mlat m (newest_loop cs m.mlat_metrics)
unfolding feeders_mlat_loop newest_loop
feeders_mlat_loop_lem [] m h = ap (λ b. record m { send = b }) h
feeders_mlat_loop_lem ((n, c) ∷ cs) m h =
    elim (Bool-cases (ltb m.mlat_metrics.connection_time c.time_connected)) [
      | inl later ↦ rw later (
          feeders_mlat_loop_lem cs (record m { mlat_metrics = newest_of c; send = true })
            (true_right m.beast_metrics.connected))
      | inr older ↦ rw older (feeders_mlat_loop_lem cs m h)
    ]

feeders_beast_lem :
    (o : Option ProtocolDetail) (f : FeederStats)
    → feeders_beast o (feeders_prepared f) ≡ with_beast (feeders_prepared f) (newest_in o)
feeders_beast_lem none f = refl
feeders_beast_lem (some d) f = feeders_beast_loop_lem d.connection_details (feeders_prepared f) refl

feeders_mlat_lem :
    (o : Option ProtocolDetail) (f : FeederStats) (r : Newest)
    → let m = with_beast (feeders_prepared f) r in feeders_mlat o m ≡ with_mlat m (newest_in o)
feeders_mlat_lem none f r = refl
feeders_mlat_lem (some d) f r =
    feeders_mlat_loop_lem d.connection_details (with_beast (feeders_prepared f) r) refl

pub feeders_feeder_lem : (f : FeederStats) → feeders_feeder f ≡ latest_metrics f
unfolding feeders_feeder newest
feeders_feeder_lem f =
    rw (feeders_beast_lem (lookup beast f.connections) f)
      (feeders_mlat_lem (lookup mlat f.connections) f (newest beast f))

all_protocols_beast_loop_lem :
    (cs : Map ConnectionDetail) (m : AllProtocolMetrics)
    → SendsConnected m
    → all_protocols_beast_loop cs m ≡ with_beast m (newest_loop cs m.beast_metrics)
unfolding all_protocols_beast_loop newest_loop
all_protocols_beast_loop_lem [] m h = ap (λ b. record m { send = b }) h
all_protocols_beast_loop_lem ((n, c) ∷ cs) m h =
    elim (Bool-cases (ltb m.beast_metrics.connection_time c.time_connected)) [
      | inl later ↦ rw later (
          all_protocols_beast_loop_lem cs (record m { beast_metrics = newest_of c; send = true })
            refl)
      | inr older ↦ rw older (all_protocols_beast_loop_lem cs m h)
    ]

all_protocols_mlat_loop_lem :
    (cs : Map ConnectionDetail) (m : AllProtocolMetrics)
    → SendsConnected m
    → all_protocols_mlat_loop cs m ≡ with_mlat m (newest_loop cs m.mlat_metrics)
unfolding all_protocols_mlat_loop newest_loop
all_protocols_mlat_loop_lem [] m h = ap (λ b. record m { send = b }) h
all_protocols_mlat_loop_lem ((n, c) ∷ cs) m h =
    elim (Bool-cases (ltb m.mlat_metrics.connection_time c.time_connected)) [
      | inl later ↦ rw later (
          all_protocols_mlat_loop_lem cs (record m { mlat_metrics = newest_of c; send = true })
            (true_right m.beast_metrics.connected))
      | inr older ↦ rw older (all_protocols_mlat_loop_lem cs m h)
    ]

all_protocols_beast_lem :
    (o : Option ProtocolDetail) (f : FeederStats)
    → all_protocols_beast o (all_protocols_prepared f)
      ≡ with_beast (all_protocols_prepared f) (newest_in o)
all_protocols_beast_lem none f = refl
all_protocols_beast_lem (some d) f =
    all_protocols_beast_loop_lem d.connection_details (all_protocols_prepared f) refl

all_protocols_mlat_lem :
    (o : Option ProtocolDetail) (f : FeederStats) (r : Newest)
    → let m = with_beast (all_protocols_prepared f) r in
      all_protocols_mlat o m ≡ with_mlat m (newest_in o)
all_protocols_mlat_lem none f r = refl
all_protocols_mlat_lem (some d) f r =
    all_protocols_mlat_loop_lem d.connection_details (with_beast (all_protocols_prepared f) r) refl

pub all_protocols_feeder_lem : (f : FeederStats) → all_protocols_feeder f ≡ latest_metrics f
unfolding all_protocols_feeder newest
all_protocols_feeder_lem f =
    rw (all_protocols_beast_lem (lookup beast f.connections) f)
      (all_protocols_mlat_lem (lookup mlat f.connections) f (newest beast f))

-- The metrics of one protocol: with the code and the label of the feeder if there are any.
abbrev pub of_feeder : FeederStats → Newest → ProtocolMetrics
of_feeder f r = record { feeder_code = f.code; label = f.label; metrics = r }

-- Once a connection was taken.
per_protocol_loop-taken :
    (f : FeederStats) (cs : Map ConnectionDetail) (r : Newest)
    → per_protocol_loop f cs (of_feeder f r) ≡ of_feeder f (newest_loop cs r)
unfolding per_protocol_loop newest_loop
per_protocol_loop-taken f [] r = refl
per_protocol_loop-taken f ((n, c) ∷ cs) r =
    elim (Bool-cases (ltb r.connection_time c.time_connected)) [
      | inl later ↦ rw later (per_protocol_loop-taken f cs (newest_of c))
      | inr older ↦ rw older (per_protocol_loop-taken f cs r)
    ]

abbrev pub answer : ProtocolMetrics → Option ProtocolMetrics
answer m = if m.metrics.connected then some m else none

per_protocol_loop_lem :
    (f : FeederStats) (cs : Map ConnectionDetail)
    → answer (per_protocol_loop f cs no_metrics)
      ≡ answer (of_feeder f (newest_loop cs no_connection))
unfolding per_protocol_loop newest_loop
per_protocol_loop_lem f [] = refl
per_protocol_loop_lem f ((n, c) ∷ cs) = elim (Bool-cases (ltb 0 c.time_connected)) [
  | inl later ↦ rw later (ap answer (per_protocol_loop-taken f cs (newest_of c)))
  | inr older ↦ rw older (per_protocol_loop_lem f cs)
]

abbrev pub answer_of : Option FeederStats → ℕ → Option ProtocolMetrics
answer_of none p = none
answer_of (some f) p = answer (of_feeder f (newest p f))

pub feeder_metrics_lem :
    (s : Statistics) (k p : ℕ) → feeder_metrics s k p ≡ answer_of (lookup k s.feeders) p
unfolding feeder_metrics newest
feeder_metrics_lem s k p = elim (Option-cases (lookup k s.feeders)) [
  | inl gone ↦ rw (gone, feeder_metrics) refl
  | inr (f, there) ↦
      rw (there, feeder_metrics)
        (elim (Option-cases (lookup p f.connections)) [
          | inl none_yet ↦ rw none_yet refl
          | inr (d, h) ↦ rw h (per_protocol_loop_lem f d.connection_details)
        ])
]
