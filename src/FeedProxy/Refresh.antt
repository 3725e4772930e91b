-- ===== src/FeedProxy/Refresh.antt =====
-- What the refresh of the feeder list from ATC does to the feeders that are connected.
pub mod Loop
pub mod Revoked
use bordercontrol.Prelude.{
  ℕ, ◌+◌, ◌<◌, ◌≡◌, true, false, List, [], some, arith, Outcome, returns, sym, ◌∙◌,
  returns-injective, ok, err,
}
use bordercontrol.Atc.Schema.{Feeder}
use bordercontrol.Atc.{AtcError, AtcEnv, Client, get_feeders}
use bordercontrol.Atc.Retry.{get_feeders-error}
use bordercontrol.Stats.State.{Statistics}
use bordercontrol.FeedProxy.Feeders.{update_feeder_db, is_valid_api_key}
use bordercontrol.FeedProxy.Auth.{
  AuthEnv, authenticate_feeder, feeder_still_valid, client_sent_invalid_api_key,
}

-- One round of `updateFeederDB` with the client of ATC.
unfoldable pub refresh : AtcEnv → Client → List Feeder → Outcome (List Feeder)
refresh env c old = update_feeder_db (get_feeders env c).feeders old

-- If ATC cannot be asked, the refresh empties the list of valid feeders.
pub refresh-error :
    (env : AtcEnv) (c : Client) (old : List Feeder) (e : AtcError)
    → (get_feeders env c).error ≡ some e
    → refresh env c old ≡ returns []
unfolding refresh update_feeder_db
refresh-error env c old e h = rw (get_feeders-error env c e h)

-- After a refresh that ATC answers with an error no feeder is valid: a connected feeder whose next
-- check is due is dropped at it, and a feeder that connects with a complete handshake and a UUID is
-- turned away as invalid.
pub refresh_error_drops :
    (env : AtcEnv) (c : Client) (old new : List Feeder) (e : AtcError)
    (key interval now later last : ℕ) (a : AuthEnv) (s : Statistics)
    → (get_feeders env c).error ≡ some e
    → refresh env c old ≡ returns new
    → last + interval < now
    → a.handshake_complete ≡ true
    → a.sni ≡ ok key
    → a.feeders ≡ new
    → ((feeder_still_valid key new interval now later last).0 ≡ false)
      × ((authenticate_feeder a s).0 ≡ err client_sent_invalid_api_key)
unfolding feeder_still_valid authenticate_feeder is_valid_api_key
refresh_error_drops env c old new e key interval now later last a s h r late done sni same =
    let empty : new ≡ [] = returns-injective (sym r ∙ refresh-error env c old e h) in
    (rw empty (ground arith), rw (done, sni, same, empty))
