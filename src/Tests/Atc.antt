-- ===== src/Tests/Atc.antt =====
-- `GetFeeders` with a token that has expired.
use bordercontrol.Prelude.{◌≡◌, ◌==◌, if◌then◌else◌, refl, [], ◌∷◌, some, none, ok}
use bordercontrol.Atc.{AtcEnv, Client, SignIn, Fetch, get_feeders, status_ok, status_unauthorized}
use bordercontrol.Atc.Retry.{
  is_unauthorized, last_answer, first_answer, second_answer, first_client, second_client,
  get_feeders-sent,
}

-- Only token 5 is good.
abbrev pub env : AtcEnv
env = record {
  sign_in = λ i. SignIn.answered status_ok 5;
  fetch = λ i token.
      if token == 5
      then Fetch.answered status_ok (ok (some []))
      else Fetch.answered status_unauthorized (ok none);
}

abbrev pub expired : Client
expired = record { authorization = 3 }

renewed : ((get_feeders env expired).sent ≡ 3 ∷ 5 ∷ []) × ((get_feeders env expired).error ≡ none)
unfolding get_feeders
renewed = (refl, refl)

get_feeders-sent_example : get_feeders env expired ≡ (
    if is_unauthorized (first_answer env expired)
    then last_answer
        (second_answer env expired)
        (second_client env expired)
        ((first_client env expired).authorization ∷ (second_client env expired).authorization ∷ [])
    else last_answer
        (first_answer env expired)
        (first_client env expired)
        ((first_client env expired).authorization ∷ []))
get_feeders-sent_example = get_feeders-sent env expired
