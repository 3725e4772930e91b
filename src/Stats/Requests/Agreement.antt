-- ===== src/Stats/Requests/Agreement.antt =====
-- The three requests for metrics, for all feeders, for one, and for one and a protocol, against each
-- other.
use bordercontrol.Prelude.{Option, none, some, if◌then◌else◌}
use bordercontrol.Stats.State.{FeederStats}
use bordercontrol.Stats.Requests.{Newest, AllProtocolMetrics, ProtocolMetrics}
use bordercontrol.Stats.Requests.Loops.{latest_metrics}

abbrev sent : Option FeederStats → Option AllProtocolMetrics
sent none = none
sent (some f) = let m = latest_metrics f in if m.send then some m else none

-- What the answer for all protocols says of one of them.
abbrev pub in_protocol :
    (AllProtocolMetrics → Newest) → Option AllProtocolMetrics → Option ProtocolMetrics
in_protocol pick none = none
in_protocol pick (some m) =
    if (pick m).connected
    then some (record { feeder_code = m.feeder_code; label = m.label; metrics = pick m })
    else none
