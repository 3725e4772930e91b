-- ===== src/Stats/Api.antt =====
-- bordercontrol/lib/stats/stats.go: the HTTP API. Paths are lists of code points; what `uuid.Parse`
-- and the marshalling into JSON answer is an argument.
pub mod Answers
use bordercontrol.Prelude.{
  ℕ, Bool, true, false, ◌&&◌, ◌||◌, List, [], ◌∷◌, ◌++◌, map, Option, none, some, Result, ok, err,
  ◌==◌, leb, if◌then◌else◌, codes,
}
use bordercontrol.GoMap.{Map, lookup}
use bordercontrol.FeedProtocol.{to_lower}
use bordercontrol.Stats.State.{FeederStats, Statistics}

-- What the regular expression of a UUID wants of a character.
pub data Token : Type 0 where
  hex dash : Token

unfoldable pub fits : Token → ℕ → Bool
fits hex c = (leb b'0' c && leb c b'9') || (leb b'a' c && leb c b'f')
fits dash c = c == b'-'

abbrev four : List Token → List Token
four ts = hex ∷ hex ∷ hex ∷ hex ∷ ts

-- `[0-9a-f]{8}-[0-9a-f]{4}-[0-9a-f]{4}-[0-9a-f]{4}-[0-9a-f]{12}`
abbrev pub match_uuid : List Token
match_uuid = four (four (dash ∷ four (dash ∷ four (dash ∷ four (dash ∷ four (four (four [])))))))

abbrev pub before : ℕ → Option (List ℕ × List ℕ) → Option (List ℕ × List ℕ)
before c none = none
before c (some (u, rest)) = some (c ∷ u, rest)

-- A match at the start of a text: what matches, and the rest.
unfoldable pub match_at : List Token → List ℕ → Option (List ℕ × List ℕ)
match_at [] cs = some ([], cs)
match_at (t ∷ ts) [] = none
match_at (t ∷ ts) (c ∷ cs) = let rest = before c (match_at ts cs) in if fits t c then rest else none

-- `matchUUID.Find`: the leftmost match; no match is no text.
unfoldable pub find_uuid : List ℕ → List ℕ
find_uuid [] = []
find_uuid (c ∷ cs) = elim (match_at match_uuid (c ∷ cs)) [
  | some (u, rest) ↦ u
  | none ↦ find_uuid cs
]

-- `/?$`
abbrev pub is_end : List ℕ → Bool
is_end [] = true
is_end (c ∷ []) = c == b'/'
is_end (c ∷ d ∷ cs) = false

abbrev pub ends_well : Option (List ℕ × List ℕ) → Bool
ends_well none = false
ends_well (some (u, rest)) = is_end rest

-- The text after a literal start of the expression.
unfoldable pub strip : List ℕ → List ℕ → Option (List ℕ)
strip [] cs = some cs
strip (p ∷ ps) [] = none
strip (p ∷ ps) (c ∷ cs) = let rest = strip ps cs in if p == c then rest else none

abbrev pub single_feeder_prefix : List ℕ
single_feeder_prefix = codes "/api/v1/feeder/"

abbrev pub match_rest : Option (List ℕ) → Bool
match_rest none = false
match_rest (some rest) = ends_well (match_at match_uuid rest)

-- `matchUrlSingleFeeder.Match`
unfoldable pub match_url_single_feeder : List ℕ → Bool
match_url_single_feeder path = match_rest (strip single_feeder_prefix path)

-- The status, and the body with the content type of JSON.
pub data Response : Type 0 where
  bad_request internal_server_error : Response
  json : List ℕ → Response

abbrev pub written : Result ℕ (List ℕ) → Response
written (err e) = internal_server_error
written (ok body) = json body

-- `apiReturnAllFeeders`
unfoldable pub api_return_all_feeders :
    (Map FeederStats → Result ℕ (List ℕ)) → Statistics → Response
api_return_all_feeders marshal s = written (marshal s.feeders)

abbrev pub feeder_response : (FeederStats → Result ℕ (List ℕ)) → Option FeederStats → Response
feeder_response marshal none = bad_request
feeder_response marshal (some f) = written (marshal f)

abbrev pub keyed_response : (FeederStats → Result ℕ (List ℕ)) → Statistics → Result ℕ ℕ → Response
keyed_response marshal s (err e) = bad_request
keyed_response marshal s (ok k) = feeder_response marshal (lookup k s.feeders)

-- `apiReturnSingleFeeder`
unfoldable pub api_return_single_feeder :
    (List ℕ → Result ℕ ℕ) → (FeederStats → Result ℕ (List ℕ)) → List ℕ → Statistics → Response
api_return_single_feeder parse marshal path s =
    let lower = map to_lower path in
    if match_url_single_feeder lower
    then keyed_response marshal s (parse (find_uuid lower))
    else bad_request
