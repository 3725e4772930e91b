-- ===== src/Nats.antt =====
-- bordercontrol/lib/nats_io/nats_io.go: the connection to NATS. What the operating system, the
-- client of NATS and the regular expressions answer is an argument.
use text.Mathlib.Text.{◌==◌}
use bordercontrol.Prelude.{
  ℕ, String, Bool, true, false, List, [], ◌∷◌, Option, none, some, Result, ok, err, if◌then◌else◌,
}

pub data NatsError : Type 0 where
  not_initialised : NatsError
  -- of the host name, of the connection, of a regular expression
  host_error connect_error regexp_error : ℕ → NatsError

-- `initialised`, the fields of `natsConfig` that are read, and the subjects that are subscribed to.
pub record NatsState : Type 0 where
  pub initialised : Bool
  pub instance_name : String
  pub url : String
  pub subjects : List String

abbrev pub nats_subj_ping : String
nats_subj_ping = "pw_bordercontrol.ping"

-- `Sub`, with the error of the subscription, which is only logged.
abbrev pub subscribed : String → Option ℕ → NatsState → NatsState
subscribed subj none s = record s { subjects = subj ∷ s.subjects }
subscribed subj (some e) s = s

unfoldable pub sub : String → Option ℕ → NatsState → Option NatsError × NatsState
sub subj answer s =
    if s.initialised then (none, subscribed subj answer s) else (some not_initialised, s)

-- `Init` once the instance has a name.
abbrev pub connect : Result ℕ ℕ → Option ℕ → NatsState → Option NatsError × NatsState
connect (err e) answer s = (some (connect_error e), s)
connect (ok c) answer s = sub nats_subj_ping answer (record s { initialised = true })

abbrev pub named : Result ℕ ℕ → Option ℕ → NatsState → Option NatsError × NatsState
named connection answer s = if s.url == "" then (none, s) else connect connection answer s

abbrev pub name_instance :
    Result ℕ String → Result ℕ ℕ → Option ℕ → NatsState → Option NatsError × NatsState
name_instance (ok host) connection answer s =
    named connection answer (record s { instance_name = host })
name_instance (err e) connection answer s = (some (host_error e), record s { instance_name = "" })

-- `Init` for a configuration with a name and a URL; on an error the host's name is empty.
unfoldable pub init :
    String
    → String
    → Result ℕ String
    → Result ℕ ℕ
    → Option ℕ
    → NatsState
    → Option NatsError × NatsState
init name url host connection answer s =
    let s' = record s { instance_name = name; url = url } in
    if name == "" then name_instance host connection answer s' else named connection answer s'

-- Closing the connection ends its subscriptions.
unfoldable pub close : NatsState → Option NatsError × NatsState
close s =
    if s.initialised
    then (none, record { initialised = false; instance_name = ""; url = ""; subjects = [] })
    else (some not_initialised, s)

unfoldable pub get_instance : NatsState → Result NatsError String
get_instance s = if s.initialised then ok s.instance_name else err not_initialised

-- Whether a message is for this instance, with the error; `matches` is `regexp.MatchString`, which
-- says false beside an error.
abbrev pub after_match : Result ℕ Bool → Bool × Option NatsError
after_match (ok b) = (b, none)
after_match (err e) = (false, some (regexp_error e))

unfoldable pub this_instance :
    (String → String → Result ℕ Bool) → String → NatsState → Bool × Option NatsError
this_instance matches sent_to s =
    if s.initialised
    then (if sent_to == "*"
        then (true, none)
        else if sent_to == s.instance_name
        then (true, none)
        else after_match (matches sent_to s.instance_name))
    else (false, some not_initialised)

-- The handler of `SignalSendOnSubj`: whether it sends the signal and acknowledges the message.
abbrev pub signals : Bool × Option NatsError → Bool
signals (b, some e) = false
signals (b, none) = b

unfoldable pub signal_handler : (String → String → Result ℕ Bool) → String → NatsState → Bool
signal_handler matches sent_to s = signals (this_instance matches sent_to s)

-- `PingHandler`: the instance in its reply.
unfoldable pub ping_handler : NatsState → Option String
unfolding get_instance
ping_handler s = elim (get_instance s) [ ok name ↦ some name | err e ↦ none ]
