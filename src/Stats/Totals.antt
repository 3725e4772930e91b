-- ===== src/Stats/Totals.antt =====
-- The global byte counters over a sequence of calls.
use bordercontrol.Prelude.{
  ℕ, ◌+◌, ◌%◌, ◌≡◌, List, [], ◌∷◌, none, some, Outcome, returns, panics, ◌==◌, if◌then◌else◌,
}
use bordercontrol.FeedProtocol.{beast, mlat}
use bordercontrol.Stats.State.{Statistics, uint64_mod}
use bordercontrol.Stats.Feeders.{Increment}
use bordercontrol.Stats.Cases.{Reply}
use bordercontrol.Stats.Gauges.{data_in_counter, data_out_counter}
use bordercontrol.Stats.Histories.{Call, increments, reply}

-- The four counters.
pub record Totals : Type 0 where
  pub beast_in : ℕ
  pub beast_out : ℕ
  pub mlat_in : ℕ
  pub mlat_out : ℕ

abbrev pub totals : Statistics → Totals
totals s = record {
  beast_in = s.bytes_in_beast;
  beast_out = s.bytes_out_beast;
  mlat_in = s.bytes_in_mlat;
  mlat_out = s.bytes_out_mlat;
}

-- What an increment counts, if it is for a protocol.
abbrev pub counted : Increment → Totals
counted i = record {
  beast_in = if i.proto == beast then i.bytes_in else 0;
  beast_out = if i.proto == beast then i.bytes_out else 0;
  mlat_in = if i.proto == mlat then i.bytes_in else 0;
  mlat_out = if i.proto == mlat then i.bytes_out else 0;
}

abbrev pub no_bytes : Totals
no_bytes = record { beast_in = 0; beast_out = 0; mlat_in = 0; mlat_out = 0 }

abbrev pub add : Totals → Totals → Totals
add a b = record {
  beast_in = a.beast_in + b.beast_in;
  beast_out = a.beast_out + b.beast_out;
  mlat_in = a.mlat_in + b.mlat_in;
  mlat_out = a.mlat_out + b.mlat_out;
}

abbrev pub wrapped : Totals → Totals
wrapped a = record {
  beast_in = a.beast_in % uint64_mod;
  beast_out = a.beast_out % uint64_mod;
  mlat_in = a.mlat_in % uint64_mod;
  mlat_out = a.mlat_out % uint64_mod;
}

-- The bytes of a call: those of an increment that returned no error.
abbrev pub accepted : Call → Outcome Reply → Totals
accepted (increments i now) (returns (none, t)) = counted i
accepted (increments i now) (returns (some e, t)) = no_bytes
accepted _ _ = no_bytes

-- The bytes that a sequence of calls has accepted.
unfoldable pub all_accepted : List Call → Statistics → Totals
all_accepted [] s = no_bytes
all_accepted (c ∷ cs) s = elim (reply c s) [
  | returns r ↦ add (accepted c (returns r)) (all_accepted cs r.1)
  | panics ↦ no_bytes
]

-- A call adds what it accepts to the counters.
abbrev pub Adds : Call → Statistics → Outcome Reply → Type 0
Adds c s (returns r) = totals r.1 ≡ wrapped (add (totals s) (accepted c (returns r)))
Adds c s panics = ⊥

-- The counters as Prometheus reads them.
abbrev pub exported : Statistics → Totals
exported s = record {
  beast_in = data_in_counter beast s;
  beast_out = data_out_counter beast s;
  mlat_in = data_in_counter mlat s;
  mlat_out = data_out_counter mlat s;
}
