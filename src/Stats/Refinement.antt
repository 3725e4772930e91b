-- ===== src/Stats/Refinement.antt =====
-- The statistics against their specification: a function from a feeder, a protocol and a number to
-- the connection that is registered there.
pub mod Calls
pub mod Simulation
pub mod Accounting
use bordercontrol.Prelude.{
  ℕ, ◌+◌, ◌%◌, ◌^◌, ◌≡◌, refl, sym, ap, ◌∙◌, subst, Bool, true, false, ◌&&◌, List, [], ◌∷◌, Option,
  none, some, Outcome, returns, panics, ◌==◌, if◌then◌else◌, if_elim, arith, returns-injective, inl,
  inr, Bool-cases, ==_iff, Option-cases,
}
use bordercontrol.GoMap.{lookup}
use bordercontrol.GoMap.Laws.{get_or-insert, get_or-lookup, lookup-insert}
use bordercontrol.FeedProtocol.{is_valid}
use bordercontrol.FeedProtocol.Names.{is_valid-get_name}
use bordercontrol.Stats.State.{
  ConnectionDetail, ProtocolDetail, FeederStats, Statistics, StatsError, fresh, uint64_mod,
  zero_feeder_stats,
}
use bordercontrol.Stats.Feeders.{
  FeederDetails, register_feeder, set_feeder_details, Increment, increment_found, add_bytes,
  init_feeder_stats,
}
use bordercontrol.Stats.Connections.{
  Connection, new_connection, register_connection, unregister_connection,
}
use bordercontrol.Stats.Cases.{
  Reply, increment_cases, details_found, register_cases, unregister_cases,
}
use bordercontrol.Stats.Connected.{table, connection_of, table-init_feeder_stats, table-put_feeder}
use bordercontrol.Stats.Counting.{init_feeder_stats-initialised}
use bordercontrol.Stats.Evictor.{stats_evictor_inner_lem}
use bordercontrol.Stats.Histories.{
  Call, registers_feeder, increments, registers, unregisters, evicts, reply, run, reply-IsValid,
  Outcome-cases, run-cons,
}
use bordercontrol.Stats.Init.{fresh-IsValid}
use bordercontrol.Stats.Invariant.{IsValid}
use bordercontrol.Stats.Registering.{is_same, Registered, register-connection_of}
use bordercontrol.Stats.Unregistering.{Unregistered, unregister-connection_of}

abbrev pub Connections : Type 0
Connections = ℕ → ℕ → ℕ → Option ConnectionDetail

abbrev pub no_connections : Connections
no_connections k p n = none

abbrev pub is_some {ℓ} : {A : Type ℓ} → Option A → Bool
is_some none = false
is_some (some a) = true

-- Whether a call succeeds.
unfoldable pub succeeds : Call → Connections → Bool
succeeds (registers_feeder d now) m = true
succeeds (increments i now) m = is_some (m i.api_key i.proto i.conn_num)
succeeds (registers conn connected now) m = is_valid conn.proto
succeeds (unregisters conn now) m =
    is_valid conn.proto && is_some (m conn.api_key conn.proto conn.conn_num)
succeeds (evicts now) m = true

abbrev pub counts_bytes : Increment → Option ConnectionDetail → Option ConnectionDetail
counts_bytes i none = none
counts_bytes i (some c) = some (record {
  src = c.src;
  dst = c.dst;
  time_connected = c.time_connected;
  bytes_in = (c.bytes_in + i.bytes_in) % 2 ^ 64;
  bytes_out = (c.bytes_out + i.bytes_out) % 2 ^ 64;
})

abbrev pub is_counted : Increment → ℕ → ℕ → ℕ → Bool
is_counted i k p n = (i.api_key == k && i.proto == p) && i.conn_num == n

-- The connections after a call. Only BEAST and MLAT have connections.
unfoldable pub after : Call → Connections → Connections
after (registers_feeder d now) m k p n = m k p n
after (increments i now) m k p n = if is_counted i k p n then counts_bytes i (m k p n) else m k p n
after (registers conn connected now) m k p n =
    if is_valid conn.proto && is_same conn k p n
    then some (record {
      src = conn.src_addr;
      dst = conn.dst_addr;
      time_connected = connected;
      bytes_in = 0;
      bytes_out = 0;
    })
    else m k p n
after (unregisters conn now) m k p n =
    if is_valid conn.proto && is_same conn k p n then none else m k p n
after (evicts now) m k p n = m k p n

unfoldable pub all_after : List Call → Connections → Connections
all_after [] m = m
all_after (c ∷ cs) m = all_after cs (after c m)

unfoldable pub all_succeed : List Call → Connections → List Bool
all_succeed [] m = []
all_succeed (c ∷ cs) m = succeeds c m ∷ all_succeed cs (after c m)

abbrev pub is_ok : Option StatsError → Bool
is_ok none = true
is_ok (some e) = false

-- Which calls of a sequence return no error; a panic ends it.
unfoldable pub replies : List Call → Statistics → List Bool
replies [] s = []
replies (c ∷ cs) s = elim (reply c s) [ returns r ↦ is_ok r.0 ∷ replies cs r.1 | panics ↦ [] ]

-- What a state shows.
abbrev pub view : Statistics → Connections
view s k p n = connection_of s k p n
