-- ===== src/Tests/Stats.antt =====
-- The statistics of one feeder with one connection, reached by calls.
use bordercontrol.Prelude.{
  panics, Result, ok, err, ℕ, ◌≡◌, refl, true, [], ◌∷◌, List, ◌∙◌, sym, subst, returns,
  returns-injective, ◌⊎◌, ◌++◌, some, none, ◌+◌, ◌==◌,
}
use bordercontrol.GoMap.{lookup, insert, get_or}
use bordercontrol.FeedProtocol.{marshal_json, beast, mlat, is_valid}
use bordercontrol.FeedProtocol.Names.{HasName, HasNoName, HasJson, json-roundtrip}
use bordercontrol.Stats.State.{Statistics, fresh, zero_protocol_detail}
use bordercontrol.Stats.Feeders.{
  FeederDetails, register_feeder, set_feeder_details, init_feeder_stats, Increment,
}
use bordercontrol.Stats.Connections.{
  Connection, register_connection, add_connection, unregister_connection,
}
use bordercontrol.Stats.Connected.{connection_of, table}
use bordercontrol.Stats.Counting.{is_none}
use bordercontrol.Stats.Invariant.{IsValid}
use bordercontrol.Stats.Histories.{
  Call, registers_feeder, increments, registers, unregisters, reply, run, run-fresh-IsValid,
}
use bordercontrol.Stats.Refinement.{no_connections, all_after, all_succeed, replies, view}
use bordercontrol.Stats.Refinement.Simulation.{run-fresh-refines}
use bordercontrol.Stats.Refinement.Accounting.{
  with_bytes, total_in, total_out, registered_detail, run-fresh-counted,
}
use bordercontrol.Stats.Forgetting.{unregister-Forgets}

abbrev pub feeder : FeederDetails
feeder = record { label = "home"; feeder_code = "YSSY-0001"; api_key = 7 }

abbrev pub conn : Connection
conn = record {
  api_key = 7;
  src_addr = "10.0.0.1:4000";
  dst_addr = "10.0.0.2:12345";
  proto = beast;
  feeder_code = "YSSY-0001";
  conn_num = 1;
}

abbrev pub conn2 : Connection
conn2 = record conn { conn_num = 2 }

abbrev pub bytes : Increment
bytes = record { api_key = 7; conn_num = 1; proto = beast; bytes_in = 100; bytes_out = 5 }

abbrev pub calls : List Call
calls = registers_feeder feeder 10 ∷ registers conn 20 30 ∷ []

abbrev pub busy : Statistics
busy = record fresh {
  feeders =
      (
        7,
        record {
          label = "home";
          code = "YSSY-0001";
          connections =
              (
                beast,
                record {
                  status = true;
                  connection_count = 1;
                  most_recent_connection = 20;
                  connection_details =
                      (
                        1,
                        record {
                          src = "10.0.0.1:4000";
                          dst = "10.0.0.2:12345";
                          time_connected = 20;
                          bytes_in = 0;
                          bytes_out = 0;
                        },
                      )
                      ∷ [];
                },
              )
              ∷ (mlat, zero_protocol_detail)
              ∷ [];
          time_updated = 30;
        },
      )
      ∷ [];
}

run-busy : run calls fresh ≡ returns busy
unfolding run reply register_feeder set_feeder_details init_feeder_stats register_connection
    add_connection lookup insert get_or is_valid
run-busy = refl

pub busy-IsValid : IsValid busy
busy-IsValid =
    let (t, h, v) = run-fresh-IsValid calls in
    subst IsValid (returns-injective (sym h ∙ run-busy)) v

abbrev one_more : List Call
one_more = registers_feeder feeder 10 ∷ registers conn 20 30 ∷ increments bytes 40 ∷ []

-- What follows the registration of `conn`: a report, another connection of the feeder that comes and
-- goes, and another report.
abbrev follow : List Call
follow =
    increments bytes 40 ∷ registers conn2 50 60 ∷ unregisters conn2 70 ∷ increments bytes 80 ∷ []

follow_bytes : (total_in 7 beast 1 follow ≡ 200) × (total_out 7 beast 1 follow ≡ 10)
unfolding total_in total_out
follow_bytes = (refl, refl)

run-fresh-counted_example :
    (t : Statistics) × (run
        ((registers_feeder feeder 10 ∷ []) ++ registers conn 20 30 ∷ follow)
        fresh
      ≡ returns t)
    × (connection_of t 7 beast 1
        ≡ some (
            with_bytes
              (total_in 7 beast 1 follow)
              (total_out 7 beast 1 follow)
              (registered_detail conn 20)))
run-fresh-counted_example =
    run-fresh-counted (registers_feeder feeder 10 ∷ []) follow conn 20 30 (unfold is_valid in refl)
      (refl, (refl, (refl, (refl, tt))))

-- A text between quotes.
abbrev quoted : List ℕ → List ℕ
quoted n = b'"' ∷ n ++ b'"' ∷ []

abbrev and_before : ℕ → Result ℕ (List ℕ) → Result ℕ (List ℕ)
and_before c (err e) = err e
and_before c (ok n) = ok (c ∷ n)

abbrev until_quote : List ℕ → Result ℕ (List ℕ)
until_quote [] = err 0
until_quote (c ∷ []) = ok []
until_quote (c ∷ d ∷ cs) = and_before c (until_quote (d ∷ cs))

abbrev unquoted : List ℕ → Result ℕ (List ℕ)
unquoted [] = err 0
unquoted (c ∷ cs) = until_quote cs

until_quote-append : (n : List ℕ) → until_quote (n ++ b'"' ∷ []) ≡ ok n
until_quote-append [] = refl
until_quote-append (c ∷ []) = refl
until_quote-append (c ∷ d ∷ n) = rw (until_quote-append (d ∷ n)) refl

json-roundtrip_example :
    ((n : List ℕ) × HasName mlat n × HasJson quoted unquoted mlat 7 n)
    ⊎ (HasNoName mlat × (marshal_json quoted mlat ≡ panics))
json-roundtrip_example = json-roundtrip quoted unquoted until_quote-append mlat 7

unregister-Forgets_example :
    ((unregister_connection conn 70 busy).0 ≡ none)
    × (is_none (lookup 7 (unregister_connection conn 70 busy).1.feeders)
        ≡ ((table busy 7 beast).connection_count + (table busy 7 mlat).connection_count == 1))
unfolding lookup is_valid get_or
unregister-Forgets_example = unregister-Forgets conn 70 busy _ busy-IsValid refl refl refl

run-fresh-IsValid_example : (t : Statistics) × (run one_more fresh ≡ returns t) × IsValid t
run-fresh-IsValid_example = run-fresh-IsValid one_more

run-fresh-refines_example :
    (t : Statistics) × (run one_more fresh ≡ returns t)
    × (replies one_more fresh ≡ all_succeed one_more no_connections)
    × (view t ≡ all_after one_more no_connections)
run-fresh-refines_example = run-fresh-refines one_more
