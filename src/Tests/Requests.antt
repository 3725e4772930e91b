-- ===== src/Tests/Requests.antt =====
-- Requests for the statistics of the feeder with one connection.
use bordercontrol.Prelude.{◌≡◌, ◌∷◌, [], true, refl, some, none, arith}
use bordercontrol.Stats.Collectors.{unregister_prom_collector, position, swap_remove}
use bordercontrol.GoMap.{lookup, get_or}
use bordercontrol.FeedProtocol.{beast}
use bordercontrol.Stats.State.{ConnectionDetail, feeder_at}
use bordercontrol.Stats.Requests.{feeder_metrics}
use bordercontrol.Stats.Requests.Latest.{newest_of}
use bordercontrol.Stats.Requests.Answers.{IsLatest, feeder_metrics-IsLatest}
use bordercontrol.Tests.Stats.{busy, busy-IsValid}

abbrev detail : ConnectionDetail
detail = record {
  src = "10.0.0.1:4000";
  dst = "10.0.0.2:12345";
  time_connected = 20;
  bytes_in = 0;
  bytes_out = 0;
}

feeder_metrics-IsLatest_example :
    (m : ConnectionDetail) × IsLatest busy 7 beast m
    × (feeder_metrics busy 7 beast
        ≡ some (record {
          feeder_code = (feeder_at busy 7).code;
          label = (feeder_at busy 7).label;
          metrics = newest_of m;
        }))
feeder_metrics-IsLatest_example =
    feeder_metrics-IsLatest busy 7 beast 1 detail busy-IsValid (unfold get_or lookup in refl)
      (omega arith)

moved : unregister_prom_collector true 4 (4 ∷ 3 ∷ 5 ∷ []) ≡ (none, 5 ∷ 3 ∷ [])
unfolding unregister_prom_collector position swap_remove
moved = refl
