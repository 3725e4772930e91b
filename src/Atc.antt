-- ===== src/Atc.antt =====
-- bordercontrol/lib/atc/atc.go: the client of the ATC API. The HTTP exchanges and what
-- `json.Unmarshal` makes of a body are the environment's; a token is a number, and 0 stands for the
-- empty text.
pub mod Schema
pub mod Retry
use bordercontrol.Prelude.{
  ℕ, zero, suc, Bool, true, false, List, [], ◌∷◌, ◌++◌, Option, none, some, ◌==◌, ◌||◌,
  if◌then◌else◌, Result, ok, err,
}
use Schema.{Feeder}

pub data AtcError : Type 0 where
  no_auth_token request_failed : AtcError
  unsupported_response : ℕ → AtcError
  -- an error of the HTTP client, or of `json.Unmarshal`
  http_error json_error : ℕ → AtcError

abbrev pub status_ok : ℕ
status_ok = 200

abbrev pub status_unauthorized : ℕ
status_unauthorized = 401

-- What comes back to a sign-in: an error, or a status and the header `Authorization`.
pub data SignIn : Type 0 where
  failed : ℕ → SignIn
  answered : ℕ → ℕ → SignIn

-- What comes back to a request for the feeders: the request may not be built, the exchange may fail,
-- or there is a status, and the body unmarshals to a pointer (nil for the body "null") or does not.
pub data Fetch : Type 0 where
  not_built failed : ℕ → Fetch
  answered : ℕ → Result ℕ (Option (List Feeder)) → Fetch

-- `round` is the variable `i` of `GetFeeders`; the answer to a fetch may depend on the token sent.
pub record AtcEnv : Type 0 where
  pub sign_in : ℕ → SignIn
  pub fetch : ℕ → ℕ → Fetch

-- `Client.authorization`
pub record Client : Type 0 where
  pub authorization : ℕ

abbrev pub signed_in : Client → SignIn → Option AtcError × Client
signed_in c (failed e) = (some (http_error e), c)
signed_in c (answered status token) =
    if status == status_ok
    then (if token == 0
        then (some no_auth_token, record { authorization = token })
        else (none, record { authorization = token }))
    else (some (unsupported_response status), c)

unfoldable pub authenticate : Bool → SignIn → Client → Option AtcError × Client
authenticate force answer c =
    if c.authorization == 0 || force then signed_in c answer else (none, c)

-- What `GetFeeders` returns, with the client after it and the tokens of the requests, in their order.
pub record Fetched : Type 0 where
  pub feeders : Option (List Feeder)
  pub error : Option AtcError
  pub client : Client
  pub sent : List ℕ

-- `&Feeders{}` and an error.
abbrev pub fetch_error : AtcError → Client → List ℕ → Fetched
fetch_error e c sent = record { feeders = some []; error = some e; client = c; sent = sent }

abbrev unmarshalled : Result ℕ (Option (List Feeder)) → Client → List ℕ → Fetched
unmarshalled (ok f) c sent = record { feeders = f; error = none; client = c; sent = sent }
unmarshalled (err e) c sent = fetch_error (json_error e) c sent

-- The end of a round, for a fetch that was answered; `again` is the next round.
abbrev after_fetch : Fetch → Client → List ℕ → Fetched → Fetched
after_fetch (not_built e) c sent again = fetch_error (http_error e) c sent
after_fetch (failed e) c sent again = fetch_error (http_error e) c sent
after_fetch (answered status body) c sent again =
    if status == status_ok
    then unmarshalled body c sent
    else if status == status_unauthorized
    then again
    else fetch_error (unsupported_response status) c sent

-- The loop of `GetFeeders` with `left` rounds to go before `i > 1`. The error of `authenticate` is
-- not looked at. A request that cannot be built is not sent.
unfoldable pub get_feeders_loop : ℕ → ℕ → Bool → AtcEnv → Client → List ℕ → Fetched
unfolding authenticate
get_feeders_loop zero i force env c sent = fetch_error request_failed c sent
get_feeders_loop (suc left) i force env c sent =
    let c' = (authenticate force (env.sign_in i) c).1 in
    let tried = sent ++ c'.authorization ∷ [] in
    let again = get_feeders_loop left (suc i) true env c' tried in
    after_fetch (env.fetch i c'.authorization) c' tried again

unfoldable pub get_feeders : AtcEnv → Client → Fetched
unfolding get_feeders_loop
get_feeders env c = get_feeders_loop 2 0 false env c []
