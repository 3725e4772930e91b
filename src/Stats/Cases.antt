-- ===== src/Stats/Cases.antt =====
-- Every branch of the operations on connections, as rules for proofs: what to show for each way in
-- which a call ends.
use bordercontrol.Prelude.{
  ℕ, ◌≡◌, true, List, Option, none, some, Outcome, returns, Option-cases, inl, inr, if_elim,
}
use bordercontrol.GoMap.{lookup, get_or, insert}
use bordercontrol.GoMap.Laws.{get_or-lookup, get_or-lookup-none}
use bordercontrol.FeedProtocol.{is_valid}
use bordercontrol.FeedProtocol.Names.{name-roundtrip}
use bordercontrol.Stats.State.{
  ConnectionDetail, ProtocolDetail, FeederStats, Statistics, StatsError, api_key_not_found,
  proto_not_found, conn_num_not_found, not_initialised, zero_feeder_stats, zero_protocol_detail,
  feeder_at, protocol_at,
}
use bordercontrol.Stats.Feeders.{
  init_feeder_stats, Increment, increment_found, increment_byte_counters, with_connection,
}
use bordercontrol.Stats.Connections.{
  Connection, connected_detail, add_connection, register_connection, disconnected_detail,
  delete_counters, drop_idle_feeder, remove_connection, remove_from, unregister_connection,
}
use bordercontrol.Stats.Invariant.{IsValid}
use bordercontrol.Stats.Init.{init_feeder_stats-IsValid, init_feeder_stats-lookup}

abbrev pub Reply : Type 0
Reply = Option StatsError × Statistics

-- An increment for a connection that is not registered.
abbrev pub Missing : Increment → Statistics → Type 0
Missing i s =
    lookup i.conn_num (protocol_at (feeder_at s i.api_key) i.proto).connection_details ≡ none

Missing-feeder : (i : Increment) (s : Statistics) → lookup i.api_key s.feeders ≡ none → Missing i s
unfolding get_or lookup
Missing-feeder i s gone = rw (get_or-lookup-none zero_feeder_stats i.api_key s.feeders gone)

Missing-protocol :
    (i : Increment) (s : Statistics) {y : FeederStats}
    → lookup i.api_key s.feeders ≡ some y
    → lookup i.proto y.connections ≡ none
    → Missing i s
unfolding lookup
Missing-protocol i s {y} hy gone =
    rw (get_or-lookup zero_feeder_stats i.api_key s.feeders hy)
      (rw (get_or-lookup-none zero_protocol_detail i.proto y.connections gone))

pub details_found :
    (i : Increment) (s : Statistics) {y : FeederStats} {d : ProtocolDetail}
    → lookup i.api_key s.feeders ≡ some y
    → lookup i.proto y.connections ≡ some d
    → protocol_at (feeder_at s i.api_key) i.proto ≡ d
details_found i s {y} {d} hy hd =
    rw (get_or-lookup zero_feeder_stats i.api_key s.feeders hy)
      (get_or-lookup zero_protocol_detail i.proto y.connections hd)

module _ {ℓ} (P : Outcome Reply → Type ℓ) (i : Increment) (now : ℕ) (s : Statistics) where
  pub increment_cases :
      ((e : StatsError) → Missing i s → P (returns (some e, s)))
      → ((y : FeederStats) (d : ProtocolDetail) (c : ConnectionDetail)
          → lookup i.api_key s.feeders ≡ some y
          → lookup i.proto y.connections ≡ some d
          → lookup i.conn_num d.connection_details ≡ some c
          → P (increment_found i now s y d c))
      → P (increment_byte_counters i now s)
  unfolding increment_byte_counters
  increment_cases failed found = elim (Option-cases (lookup i.api_key s.feeders)) [
    | inl gone ↦
        rw (gone, increment_byte_counters) (failed api_key_not_found (Missing-feeder i s gone))
    | inr (y, hy) ↦ elim (Option-cases (lookup i.proto y.connections)) [
      | inl gone ↦
          rw (hy, increment_byte_counters)
            (rw gone (failed proto_not_found (Missing-protocol i s hy gone)))
      | inr (d, hd) ↦ elim (Option-cases (lookup i.conn_num d.connection_details)) [
        | inl gone ↦
            rw (hy, increment_byte_counters)
              (rw hd (rw gone (failed conn_num_not_found (rw (details_found i s hy hd) gone))))
        | inr (c, hc) ↦ rw (hy, increment_byte_counters) (rw hd (rw hc (found y d c hy hd hc)))
      ]
    ]
  ]

-- The feeder after `RegisterConnection`, and after `UnregisterConnection` has deleted from it.
abbrev pub connected_feeder : FeederStats → ProtocolDetail → Connection → ℕ → ℕ → FeederStats
connected_feeder f d conn connected now =
    record (with_connection f conn.proto (connected_detail d conn connected)) { time_updated = now }

abbrev pub disconnected_feeder : FeederStats → ProtocolDetail → Connection → ℕ → FeederStats
disconnected_feeder f d conn now =
    record (with_connection f conn.proto (disconnected_detail d conn.conn_num)) {
      time_updated = now;
    }

abbrev pub put_feeder : ℕ → FeederStats → Statistics → Statistics
put_feeder k f s = record s { feeders = insert k f s.feeders }

-- On a valid state the feeder and the protocol of a connection are found after `initFeederStats`.
abbrev pub Found : Connection → Statistics → FeederStats → ProtocolDetail → Type 0
Found conn s f d =
    (is_valid conn.proto ≡ true)
    × (lookup conn.api_key (init_feeder_stats conn.api_key s).feeders ≡ some f)
    × (lookup conn.proto f.connections ≡ some d)

-- The calls that fail before they read a table: not initialised, or no such protocol.
abbrev pub Refused : Connection → Statistics → Type 0
Refused conn s = (s.initialised ≡ true) → (is_valid conn.proto ≡ true) → ⊥

Found-table :
    (conn : Connection) (s : Statistics)
    → IsValid s
    → is_valid conn.proto ≡ true
    → (f : FeederStats) × (d : ProtocolDetail) × Found conn s f d
Found-table conn s v known =
    let (f, hf) = init_feeder_stats-lookup conn.api_key s in
    let vf = (init_feeder_stats-IsValid conn.api_key s v).feeders.each conn.api_key f hf in
    let (d, hd) = vf.complete conn.proto known in (f, d, (known, hf, hd))

add_connection-found :
    (conn : Connection) (connected now : ℕ) (s : Statistics) {f : FeederStats} {d : ProtocolDetail}
    → lookup conn.api_key s.feeders ≡ some f
    → lookup conn.proto f.connections ≡ some d
    → add_connection conn connected now s
      ≡ returns (put_feeder conn.api_key (connected_feeder f d conn connected now) s)
unfolding add_connection
add_connection-found conn connected now s hf hd = rw (hf, add_connection) (rw hd)

module _ {ℓ} (P : Outcome Reply → Type ℓ) (conn : Connection) (connected now : ℕ)
    (s : Statistics) where
  pub register_cases :
      IsValid s
      → ((e : StatsError) → Refused conn s → P (returns (some e, s)))
      → ((f : FeederStats) (d : ProtocolDetail)
          → s.initialised ≡ true
          → Found conn s f d
          → P (
              returns (
                none,
                put_feeder conn.api_key
                    (connected_feeder f d conn connected now)
                    (init_feeder_stats conn.api_key s),
              )))
      → P (register_connection conn connected now s)
  unfolding register_connection
  register_cases v failed added =
      if_elim P s.initialised
        (λ init.
          if_elim P (is_valid conn.proto)
            (λ known.
              let (f, d, found) = Found-table conn s v known in
              rw
                (add_connection-found conn connected now (init_feeder_stats conn.api_key s) found.1
                  found.2)
                (added f d init found))
            (λ unknown. failed _ (λ _ known. cc)))
        (λ shut. failed not_initialised (λ init _. cc))

module _ {ℓ} (P : Reply → Type ℓ) (conn : Connection) (now : ℕ) (s : Statistics) where
  remove_cases :
      {f : FeederStats} {d : ProtocolDetail}
      → lookup conn.api_key s.feeders ≡ some f
      → lookup conn.proto f.connections ≡ some d
      → (lookup conn.conn_num d.connection_details ≡ none → P (some conn_num_not_found, s))
      → ((c : ConnectionDetail)
          → lookup conn.conn_num d.connection_details ≡ some c
          → P (
            none,
            drop_idle_feeder conn.api_key
                (put_feeder conn.api_key (disconnected_feeder f d conn now) s),
          ))
      → P (remove_connection conn now s)
  unfolding remove_connection remove_from
  remove_cases {f} {d} hf hd missing removed =
      rw (get_or-lookup zero_feeder_stats conn.api_key s.feeders hf, remove_connection)
        (rw (get_or-lookup zero_protocol_detail conn.proto f.connections hd)
          (elim (Option-cases (lookup conn.conn_num d.connection_details)) [
            | inl gone ↦ rw (gone, remove_from) (missing gone)
            | inr (c, hc) ↦ rw (hc, remove_from) (removed c hc)
          ]))

-- The state in which `UnregisterConnection` takes its lock the second time.
abbrev pub before_removal : Connection → Statistics → List ℕ → Statistics
before_removal conn s n = delete_counters conn n (init_feeder_stats conn.api_key s)

module _ {ℓ} (P : Reply → Type ℓ) (conn : Connection) (now : ℕ) (s : Statistics) where
  pub unregister_cases :
      IsValid s
      → ((e : StatsError) → Refused conn s → P (some e, s))
      → ((n : List ℕ) (f : FeederStats) (d : ProtocolDetail)
          → s.initialised ≡ true
          → Found conn s f d
          → lookup conn.conn_num d.connection_details ≡ none
          → P (some conn_num_not_found, before_removal conn s n))
      → ((n : List ℕ) (f : FeederStats) (d : ProtocolDetail) (c : ConnectionDetail)
          → s.initialised ≡ true
          → Found conn s f d
          → lookup conn.conn_num d.connection_details ≡ some c
          → P (
            none,
            drop_idle_feeder conn.api_key (
                put_feeder conn.api_key
                  (disconnected_feeder f d conn now)
                  (before_removal conn s n)),
          ))
      → P (unregister_connection conn now s)
  unfolding unregister_connection
  unregister_cases v failed missing removed =
      if_elim P s.initialised
        (λ init. elim (name-roundtrip conn.proto) [
          | inl (n, known) ↦
              let (f, d, found) = Found-table conn s v known.0 in
              rw known.1 (
                remove_cases P conn now (before_removal conn s n) found.1 found.2
                  (missing n f d init found) (λ c. removed n f d c init found))
          | inr unknown ↦ rw unknown.1 (failed _ (λ _ known. unknown.0 known))
        ])
        (λ shut. failed not_initialised (λ init _. cc))
