-- ===== src/FeedProxy/Refresh/Loop.antt =====
-- bordercontrol/lib/feedproxy/feedproxy_metadata.go: the loop of `updateFeederDB`, and the list of
-- valid feeders that it leaves for the connections to read.
use bordercontrol.Prelude.{ℕ, List, [], ◌∷◌, Outcome, returns, panics, leb, if◌then◌else◌}
use bordercontrol.Atc.Schema.{Feeder}
use bordercontrol.Atc.{AtcEnv, Client, get_feeders}
use bordercontrol.FeedProxy.Refresh.{refresh}

-- A round of the loop: what ATC answers, and when the list is written.
pub record Refreshing : Type 0 where
  pub answers : AtcEnv
  pub written_at : ℕ

-- The lists that were written, newest first.
abbrev pub Written : Type 0
Written = List (ℕ × List Feeder)

abbrev pub latest : Written → List Feeder
latest [] = []
latest ((w, fs) ∷ h) = fs

-- `validFeeders.Feeders` at a time.
unfoldable pub valid_at : ℕ → Written → List Feeder
valid_at t [] = []
valid_at t ((w, fs) ∷ h) = let before = valid_at t h in if leb w t then fs else before

-- The rounds until the context is done. The client keeps its token from one to the next.
unfoldable pub update_feeder_dbs : List Refreshing → Client → Written → Outcome Written
update_feeder_dbs [] c h = returns h
update_feeder_dbs (r ∷ rs) c h = elim (refresh r.answers c (latest h)) [
  | panics ↦ panics
  | returns fs ↦ update_feeder_dbs rs (get_feeders r.answers c).client ((r.written_at, fs) ∷ h)
]
