-- ===== src/FeedProxy/Feeders.antt =====
-- bordercontrol/lib/feedproxy/feedproxy_metadata.go: the list of valid feeders that is read from
-- ATC.
use bordercontrol.Prelude.{
  ℕ, String, Bool, true, false, List, [], ◌∷◌, Option, none, some, ◌==◌, if◌then◌else◌, length,
  Outcome, returns, panics,
}
use bordercontrol.Atc.Schema.{Feeder}

-- `feederClient`
pub record FeederClient : Type 0 where
  pub client_api_key : ℕ
  pub ref_lat : ℕ
  pub ref_lon : ℕ
  pub mux : String
  pub label : String
  pub feeder_code : String

abbrev pub zero_feeder_client : FeederClient
zero_feeder_client = record {
  client_api_key = 0;
  ref_lat = 0;
  ref_lon = 0;
  mux = "";
  label = "";
  feeder_code = "";
}

-- `feedersGaugeFunc`, as a number.
unfoldable pub feeders_gauge : List Feeder → ℕ
feeders_gauge fs = length fs

unfoldable pub is_valid_api_key : ℕ → List Feeder → Bool
is_valid_api_key k [] = false
is_valid_api_key k (f ∷ fs) = if f.api_key == k then true else is_valid_api_key k fs

abbrev pub with_info : FeederClient → Feeder → FeederClient
with_info c f = record c {
  ref_lat = f.latitude;
  ref_lon = f.longitude;
  mux = f.mux;
  label = f.label;
  feeder_code = f.feeder_code;
}

-- `getFeederInfo`: `none` is `ErrFeederNotFound`, and the client is then as before.
unfoldable pub get_feeder_info : FeederClient → List Feeder → Option FeederClient
get_feeder_info c [] = none
get_feeder_info c (f ∷ fs) =
    let rest = get_feeder_info c fs in
    if f.api_key == c.client_api_key then some (with_info c f) else rest

-- One round of `updateFeederDB`, with the pointer that `getDataFromATC` returns. An error beside it
-- is only logged, and the list is replaced all the same; a nil pointer is dereferenced.
unfoldable pub update_feeder_db : Option (List Feeder) → List Feeder → Outcome (List Feeder)
update_feeder_db r old = elim r [ none ↦ panics | some fs ↦ returns fs ]
