-- ===== src/Atc/Schema.antt =====
-- bordercontrol/lib/atc/atc.go: the data that ATC sends.
use bordercontrol.Prelude.{ℕ, String, Bool}

-- `Feeder`. A float64 or an int is its bit pattern.
pub record Feeder : Type 0 where
  pub altitude : ℕ
  pub api_key : ℕ
  pub feeder_code : String
  pub feed_direction : String
  pub feed_protocol : String
  pub id : ℕ
  pub label : String
  pub latitude : ℕ
  pub longitude : ℕ
  pub mlat_enabled : Bool
  pub mux : String
  pub user : String
