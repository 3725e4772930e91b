-- ===== src/Atc/Retry.antt =====
-- The two tries of `GetFeeders`, and what it returns.
use bordercontrol.Prelude.{
  ℕ, ◌≡◌, refl, ap, sym, subst, ◌∙◌, Bool-cases, inl, inr, true, false, List, [], ◌∷◌, none, some,
  ok, err, arith, ==_iff, Bool, false, if◌then◌else◌, ◌==◌,
}
use bordercontrol.Atc.{
  AtcError, request_failed, http_error, json_error, unsupported_response, fetch_error, Fetch,
  AtcEnv, Client, SignIn, signed_in, Fetched, get_feeders, status_ok, status_unauthorized,
  authenticate, after_fetch,
}

-- The token after a sign-in: that of the answer if its status is 200, which may be no token, and the
-- old one if not.
abbrev pub token_after : SignIn → ℕ → ℕ
token_after (SignIn.failed e) old = old
token_after (SignIn.answered status token) old = if status == 200 then token else old

-- The token that the first request is sent with: the client's, or if it has none, that of a sign-in.
abbrev pub first_token : AtcEnv → ℕ → ℕ
first_token env t = if t == 0 then token_after (env.sign_in 0) t else t

-- That of the second: of a sign-in that is made whatever the first was.
abbrev pub second_token : AtcEnv → ℕ → ℕ
second_token env t = token_after (env.sign_in 1) (first_token env t)

abbrev pub first_client : AtcEnv → Client → Client
first_client env c = record { authorization = first_token env c.authorization }

abbrev pub second_client : AtcEnv → Client → Client
second_client env c = record { authorization = second_token env c.authorization }

signed_in-token :
    (c : Client) (answer : SignIn)
    → (signed_in c answer).1 ≡ record { authorization = token_after answer c.authorization }
signed_in-token c (SignIn.failed e) = refl
signed_in-token c (SignIn.answered status token) = ground arith

authenticate-force :
    (answer : SignIn) (c : Client)
    → (authenticate true answer c).1 ≡ record { authorization = token_after answer c.authorization }
unfolding authenticate
authenticate-force answer c = ground (arith, signed_in-token c answer)

authenticate-first :
    (env : AtcEnv) (c : Client) → (authenticate false (env.sign_in 0) c).1 ≡ first_client env c
unfolding authenticate
authenticate-first env c = elim (Bool-cases (c.authorization == 0)) [
  | inl none_yet ↦
      rw none_yet
        (ground (arith, signed_in-token c (env.sign_in 0), (==_iff c.authorization 0).0 none_yet))
  | inr there ↦ rw there refl
]

-- The two rounds, with the client as it is in each.
abbrev rounds : AtcEnv → Client → Client → Fetched
rounds env c1 c2 =
    let sent = c1.authorization ∷ c2.authorization ∷ [] in
    let again =
      after_fetch (env.fetch 1 c2.authorization) c2 sent (fetch_error request_failed c2 sent) in
    after_fetch (env.fetch 0 c1.authorization) c1 (c1.authorization ∷ []) again

get_feeders-rounds :
    (env : AtcEnv) (c : Client)
    → get_feeders env c ≡ rounds env (first_client env c) (second_client env c)
unfolding get_feeders
get_feeders-rounds env c =
    ap (λ c1. rounds env c1 (authenticate true (env.sign_in 1) c1).1) (authenticate-first env c)
    ∙ ap (λ c2. rounds env (first_client env c) c2)
        (authenticate-force (env.sign_in 1) (first_client env c))

-- An answer with status 401.
abbrev pub is_unauthorized : Fetch → Bool
is_unauthorized (Fetch.not_built e) = false
is_unauthorized (Fetch.failed e) = false
is_unauthorized (Fetch.answered status body) = status == status_unauthorized

-- What `GetFeeders` returns for the answer that it does not try again after.
abbrev pub last_answer : Fetch → Client → List ℕ → Fetched
last_answer (Fetch.not_built e) c sent = fetch_error (http_error e) c sent
last_answer (Fetch.failed e) c sent = fetch_error (http_error e) c sent
last_answer (Fetch.answered status (ok f)) c sent =
    if status == status_ok
    then record { feeders = f; error = none; client = c; sent = sent }
    else if status == status_unauthorized
    then fetch_error request_failed c sent
    else fetch_error (unsupported_response status) c sent
last_answer (Fetch.answered status (err e)) c sent =
    if status == status_ok
    then fetch_error (json_error e) c sent
    else if status == status_unauthorized
    then fetch_error request_failed c sent
    else fetch_error (unsupported_response status) c sent

after_fetch_last :
    (f : Fetch) (c : Client) (sent : List ℕ) (again : Fetched)
    → after_fetch f c sent again ≡ (if is_unauthorized f then again else last_answer f c sent)
after_fetch_last (Fetch.not_built e) c sent again = refl
after_fetch_last (Fetch.failed e) c sent again = refl
after_fetch_last (Fetch.answered status (ok f)) c sent again =
    ground (arith, ==_iff status status_ok, ==_iff status status_unauthorized)
after_fetch_last (Fetch.answered status (err e)) c sent again =
    ground (arith, ==_iff status status_ok, ==_iff status status_unauthorized)

after_fetch_second :
    (f : Fetch) (c : Client) (sent : List ℕ)
    → after_fetch f c sent (fetch_error request_failed c sent) ≡ last_answer f c sent
after_fetch_second (Fetch.not_built e) c sent = refl
after_fetch_second (Fetch.failed e) c sent = refl
after_fetch_second (Fetch.answered status (ok f)) c sent = ground arith
after_fetch_second (Fetch.answered status (err e)) c sent = ground arith

after_fetch_error :
    (f : Fetch) (c : Client) (sent : List ℕ) (again : Fetched) (e : AtcError)
    → (again.error ≡ some e → again.feeders ≡ some [])
    → (after_fetch f c sent again).error ≡ some e
    → (after_fetch f c sent again).feeders ≡ some []
after_fetch_error (Fetch.not_built x) c sent again e h k = refl
after_fetch_error (Fetch.failed x) c sent again e h k = refl
after_fetch_error (Fetch.answered status (ok f)) c sent again e h k = ground arith
after_fetch_error (Fetch.answered status (err x)) c sent again e h k = ground arith

module _ (env : AtcEnv) (c : Client) where
  abbrev pub first_answer : Fetch
  first_answer = env.fetch 0 (first_client env c).authorization

  abbrev pub second_answer : Fetch
  second_answer = env.fetch 1 (second_client env c).authorization

  -- `GetFeeders` tries with the client's token, or with that of a sign-in if it has none. It sends
  -- one request if its answer is not 401, and otherwise a second and last one, with the token of a
  -- sign-in that is made whatever token there was, or the old one if that fails. What it returns is what the
  -- last of these answers says: the feeders, or an empty list and an error, which for a second 401
  -- is `ErrRequestFailed`.
  pub get_feeders-sent :
      let first = (first_client env c).authorization in
      let second = (second_client env c).authorization in
      get_feeders env c ≡ (
        if is_unauthorized first_answer
        then last_answer second_answer (second_client env c) (first ∷ second ∷ [])
        else last_answer first_answer (first_client env c) (first ∷ []))
  get_feeders-sent =
      rw (get_feeders-rounds env c, after_fetch_last first_answer (first_client env c) _ _)
        (rw (after_fetch_second second_answer (second_client env c) _))

  -- Whenever `GetFeeders` returns an error, the list beside it is there, and is empty.
  pub get_feeders-error :
      (e : AtcError) → (get_feeders env c).error ≡ some e → (get_feeders env c).feeders ≡ some []
  get_feeders-error e =
      subst (λ r. r.error ≡ some e → r.feeders ≡ some []) (sym (get_feeders-rounds env c))
        (after_fetch_error first_answer (first_client env c) _ _ e
          (after_fetch_error second_answer (second_client env c) _ _ e (λ _. refl)))
