-- ===== src/FeedProxy/Auth.antt =====
-- bordercontrol/lib/feedproxy/feedproxy_connections.go: a feeder is authenticated, and checked
-- again later.
pub mod Laws
use bordercontrol.Prelude.{
  ℕ, ◌+◌, Bool, true, false, List, Option, none, some, ltb, if◌then◌else◌, Result, ok, err,
}
use bordercontrol.Stats.State.{Statistics, StatsError}
use bordercontrol.Stats.Feeders.{FeederDetails, register_feeder}
use bordercontrol.Atc.Schema.{Feeder}
use bordercontrol.FeedProxy.Feeders.{
  FeederClient, zero_feeder_client, is_valid_api_key, get_feeder_info,
}

pub data AuthError : Type 0 where
  tls_handshake_incomplete client_sent_invalid_api_key feeder_not_found : AuthError
  -- the error of `uuid.Parse`, as a code
  bad_uuid : ℕ → AuthError
  stats_error : StatsError → AuthError

-- What `authenticateFeeder` reads of its surroundings: whether the handshake is complete, the SNI
-- through `uuid.Parse`, the list of valid feeders at each of its two reads, and the time at which
-- the feeder is registered.
pub record AuthEnv : Type 0 where
  pub handshake_complete : Bool
  pub sni : Result ℕ ℕ
  pub feeders : List Feeder
  pub feeders_later : List Feeder
  pub now : ℕ

abbrev pub feeder_details : FeederClient → FeederDetails
feeder_details c = record {
  label = c.label;
  feeder_code = c.feeder_code;
  api_key = c.client_api_key;
}

abbrev registered :
    FeederClient → Option StatsError × Statistics → Result AuthError FeederClient × Statistics
registered c (none, s) = (ok c, s)
registered c (some e, s) = (err (stats_error e), s)

-- `authenticateFeeder`. The statistics are the part of its surroundings that it writes.
unfoldable pub authenticate_feeder :
    AuthEnv → Statistics → Result AuthError FeederClient × Statistics
authenticate_feeder env s =
    if env.handshake_complete
    then elim env.sni [
      | err e ↦ (err (bad_uuid e), s)
      | ok key ↦
          if is_valid_api_key key env.feeders
          then elim (get_feeder_info (record zero_feeder_client { client_api_key = key })
              env.feeders_later) [
                | none ↦ (err feeder_not_found, s)
                | some c ↦ registered c (register_feeder (feeder_details c) env.now s)
              ]
          else (err client_sent_invalid_api_key, s)
    ]
    else (err tls_handshake_incomplete, s)

-- `feederStillValid`: the first clock reading, the interval, the list, and the second reading. It
-- returns whether the feeder is still valid, and the time of the last check.
unfoldable pub feeder_still_valid : ℕ → List Feeder → ℕ → ℕ → ℕ → ℕ → Bool × ℕ
feeder_still_valid key feeders interval now later last_auth_check =
    if ltb (last_auth_check + interval) now
    then (if is_valid_api_key key feeders then (true, later) else (false, last_auth_check))
    else (true, last_auth_check)
