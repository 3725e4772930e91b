-- ===== src/FeedProxy/Lifecycle.antt =====
-- bordercontrol/lib/feedproxy/feedproxy_init.go: `Init` and `Close`.
use bordercontrol.Prelude.{
  ℕ, suc, Bool, true, false, List, [], Option, none, some, Result, ok, err, if◌then◌else◌,
}
use bordercontrol.Atc.{Client}
use bordercontrol.Atc.Schema.{Feeder}
use bordercontrol.FeedProxy.Tracker.{IncomingConnectionTracker}
use bordercontrol.Stats.Collectors.{PromError, register_prom_collector, unregister_prom_collector}

-- The package's variables, and the goroutines of its wait group.
pub record Package : Type 0 where
  pub initialised : Bool
  pub tracker : IncomingConnectionTracker
  pub valid_feeders : List Feeder
  pub atc_client : Option Client
  pub goroutines : ℕ

pub data InitError : Type 0 where
  already_initialised not_initialised : InitError
  client_error : ℕ → InitError
  prom_error : PromError → InitError

-- `promCollectorNumFeeders`, the package's one collector.
abbrev pub feeders_collector : ℕ
feeders_collector = 100

-- Once the client is there: the refresh of the feeders starts, the gauge is registered, and the
-- evictor starts. The list is that of the statistics package.
abbrev pub after_register :
    Option PromError × List ℕ → Package → Option InitError × List ℕ × Package
after_register (some e, cs) p = (some (prom_error e), cs, p)
after_register (none, cs) p =
    (none, cs, record p { goroutines = suc p.goroutines; initialised = true })

abbrev pub with_client :
    Result ℕ Client → Option ℕ → List ℕ → Package → Option InitError × List ℕ × Package
with_client (err e) answer cs p = (some (client_error e), cs, p)
with_client (ok c) answer cs p =
    after_register (register_prom_collector answer feeders_collector cs)
      (record p { atc_client = some c; goroutines = suc p.goroutines })

-- `Init`, with the answers of `atc.NewClientWithContext` and of Prometheus.
unfoldable pub init :
    Result ℕ Client → Option ℕ → List ℕ → Package → Option InitError × List ℕ × Package
init client answer cs p =
    if p.initialised
    then (some already_initialised, cs, p)
    else with_client client answer cs (record p {
      tracker = record { connections = []; connection_number = 0 };
      valid_feeders = [];
    })

-- `Close`; the error of the gauge is only logged. It waits for the goroutines.
unfoldable pub close : Bool → List ℕ → Package → Option InitError × List ℕ × Package
close answer cs p =
    if p.initialised
    then (
      none,
      (unregister_prom_collector answer feeders_collector cs).1,
      record p { initialised = false; goroutines = 0 },
    )
    else (some not_initialised, cs, p)
