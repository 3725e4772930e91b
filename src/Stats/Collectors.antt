-- ===== src/Stats/Collectors.antt =====
-- bordercontrol/lib/stats/stats_prom.go: the list of the collectors that are to be unregistered at
-- the end. A collector is a number; what the Prometheus library answers is an argument.
pub mod Removal
use bordercontrol.Prelude.{
  ℕ, suc, ◌-◌, Bool, true, false, List, [], ◌∷◌, ◌++◌, Option, none, some, ◌==◌, if◌then◌else◌,
  length, get_elem?, set, take,
}

pub data PromError : Type 0 where
  -- of `prometheus.Register`
  not_registered : ℕ → PromError
  did_not_unregister could_not_find_counter : PromError

-- `RegisterPromCollector`, with the error of `prometheus.Register`.
unfoldable pub register_prom_collector : Option ℕ → ℕ → List ℕ → Option PromError × List ℕ
register_prom_collector (some e) c cs = (some (not_registered e), cs)
register_prom_collector none c cs = (none, cs ++ c ∷ [])

-- The loop of `UnregisterPromCollector`: the position of the collector.
unfoldable pub position : ℕ → List ℕ → Option ℕ
position c [] = none
position c (d ∷ ds) =
    let rest = position c ds in
    if d == c then some 0 else elim rest [ none ↦ none | some i ↦ some (suc i) ]

-- The last collector is written over the one at position `i`, and the list is cut to length `n`.
abbrev pub written_over_at : List ℕ → ℕ → ℕ → Option ℕ → List ℕ
written_over_at cs i n none = cs
written_over_at cs i n (some last) = take n (set cs i last)

unfoldable pub swap_remove : ℕ → List ℕ → List ℕ
swap_remove i cs = let n = length cs - 1 in written_over_at cs i n (get_elem? cs n)

abbrev pub after_position : List ℕ → Option ℕ → Option PromError × List ℕ
after_position cs none = (some could_not_find_counter, cs)
after_position cs (some i) = (none, swap_remove i cs)

-- `UnregisterPromCollector`, with the answer of `prometheus.Unregister`.
unfoldable pub unregister_prom_collector : Bool → ℕ → List ℕ → Option PromError × List ℕ
unregister_prom_collector false c cs = (some did_not_unregister, cs)
unregister_prom_collector true c cs = after_position cs (position c cs)
