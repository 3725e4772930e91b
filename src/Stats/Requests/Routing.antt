-- ===== src/Stats/Requests/Routing.antt =====
-- bordercontrol/lib/stats/stats_nats.go: which handler answers a request for one feeder and protocol.
use bordercontrol.Prelude.{
  ℕ, Bool, true, false, List, [], ◌∷◌, ◌++◌, Option, none, some, Result, ok, err, map, ◌==◌, ◌||◌,
  if◌then◌else◌, codes,
}
use bordercontrol.FeedProtocol.{
  beast, mlat, protocol_name_beast, protocol_name_mlat, UnknownProtocol, number, to_upper, text_eq,
}
use bordercontrol.Stats.State.{Statistics}
use bordercontrol.Stats.Requests.{ProtocolMetrics, feeder_connected, feeder_metrics}

-- The last part of a subject, after its last ".".
unfoldable pub last_token : List ℕ → List ℕ → List ℕ
last_token current [] = current
last_token current (c ∷ cs) =
    let next = last_token [] cs in
    let more = last_token (current ++ c ∷ []) cs in if c == b'.' then next else more

unfoldable pub get_protocol_from_last_token : List ℕ → Result UnknownProtocol ℕ
unfolding last_token
get_protocol_from_last_token subject =
    let token = map to_upper (last_token [] subject) in
    if text_eq token protocol_name_beast
    then ok beast
    else if text_eq token protocol_name_mlat
    then ok mlat
    else err (number 0)

abbrev pub subj_connected_beast : List ℕ
subj_connected_beast = codes "pw_bordercontrol.feeder.connected.beast"

abbrev pub subj_connected_mlat : List ℕ
subj_connected_mlat = codes "pw_bordercontrol.feeder.connected.mlat"

abbrev pub subj_metrics_beast : List ℕ
subj_metrics_beast = codes "pw_bordercontrol.feeder.metrics.beast"

abbrev pub subj_metrics_mlat : List ℕ
subj_metrics_mlat = codes "pw_bordercontrol.feeder.metrics.mlat"

pub data FeederReply : Type 0 where
  connected_reply : FeederReply
  metrics_reply : ProtocolMetrics → FeederReply

abbrev pub reply_connected : Bool → Option FeederReply
reply_connected true = some connected_reply
reply_connected false = none

abbrev pub reply_metrics : Option ProtocolMetrics → Option FeederReply
reply_metrics none = none
reply_metrics (some m) = some (metrics_reply m)

-- The switch on the subject.
unfoldable pub route : Statistics → List ℕ → ℕ → ℕ → Option FeederReply
route s subject k p =
    if text_eq subject subj_connected_beast || text_eq subject subj_connected_mlat
    then reply_connected (feeder_connected s k p)
    else if text_eq subject subj_metrics_beast || text_eq subject subj_metrics_mlat
    then reply_metrics (feeder_metrics s k p)
    else none

-- `natsSubjFeederHandler`, with the key that is read from the message.
unfoldable pub feeder_handler : Statistics → List ℕ → Result ℕ ℕ → Option FeederReply
feeder_handler s subject key = elim (get_protocol_from_last_token subject) [
  | err e ↦ none
  | ok p ↦ elim key [ err e ↦ none | ok k ↦ route s subject k p ]
]
