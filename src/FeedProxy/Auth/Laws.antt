-- ===== src/FeedProxy/Auth/Laws.antt =====
-- Who is authenticated, and with what.
use bordercontrol.Prelude.{
  ℕ, ◌≡◌, ◌↔◌, true, List, [], ◌∷◌, some, ok, err, arith, Result, sym, subst, Option-cases,
  Result-cases, inl, inr,
}
use bordercontrol.Stats.State.{Statistics}
use bordercontrol.Stats.Feeders.{register_feeder}
use bordercontrol.Atc.Schema.{Feeder}
use bordercontrol.FeedProxy.Feeders.{
  FeederClient, zero_feeder_client, is_valid_api_key, get_feeder_info,
}
use bordercontrol.FeedProxy.Auth.{AuthEnv, AuthError, authenticate_feeder, feeder_details}

abbrev pub client_of : ℕ → FeederClient
client_of key = record zero_feeder_client { client_api_key = key }

-- Everything that has to hold for `c` to be let in.
abbrev pub IsAuthorised : AuthEnv → Statistics → FeederClient → Type 0
IsAuthorised env s c =
    (env.handshake_complete ≡ true)
    × (env.sni ≡ ok c.client_api_key)
    × (is_valid_api_key c.client_api_key env.feeders ≡ true)
    × (get_feeder_info (client_of c.client_api_key) env.feeders_later ≡ some c)
    × (s.initialised ≡ true)

get_feeder_info-key :
    (c : FeederClient) (fs : List Feeder) {d : FeederClient}
    → get_feeder_info c fs ≡ some d
    → d.client_api_key ≡ c.client_api_key
unfolding get_feeder_info
get_feeder_info-key c [] h = cc
get_feeder_info-key c (f ∷ fs) {d} h = ground (arith, get_feeder_info-key c fs {d = d})

-- A feeder is let in exactly if the TLS handshake is complete, the SNI is a UUID that is valid, its
-- data is still found at the second read of the list, and the statistics are initialised.
pub authenticate_feeder_iff :
    (env : AuthEnv) (s : Statistics) (c : FeederClient)
    → ((authenticate_feeder env s).0 ≡ ok c) ↔ IsAuthorised env s c
unfolding authenticate_feeder register_feeder
authenticate_feeder_iff env s c = (
  λ h. elim (Result-cases env.sni) [
    | inl (key, sni) ↦ elim (Option-cases (get_feeder_info (client_of key) env.feeders_later)) [
      | inl gone ↦ ground arith
      | inr (d, found) ↦ ground (arith, get_feeder_info-key (client_of key) env.feeders_later found)
    ]
    | inr (e, bad) ↦ ground arith
  ],
  λ h. ground arith,
)

-- Who is not let in leaves the statistics as they were.
pub authenticate_feeder-err :
    (env : AuthEnv) (s : Statistics) (e : AuthError)
    → (authenticate_feeder env s).0 ≡ err e
    → (authenticate_feeder env s).1 ≡ s
unfolding authenticate_feeder register_feeder
authenticate_feeder-err env s e h = ground arith

-- A rule for what follows an authentication: it is refused and nothing changes, or the feeder is
-- authorised and registered.
pub authenticate_feeder_cases :
    (P : Result AuthError FeederClient × Statistics → Type 0) (env : AuthEnv) (s : Statistics)
    → ((e : AuthError) → P (err e, s))
    → ((c : FeederClient)
        → IsAuthorised env s c
        → P (ok c, (register_feeder (feeder_details c) env.now s).1))
    → P (authenticate_feeder env s)
authenticate_feeder_cases P env s refused let_in =
    elim (Result-cases (authenticate_feeder env s).0) [
      | inl (c, h) ↦
          let good = (authenticate_feeder_iff env s c).0 h in
          let same : (authenticate_feeder env s).1
              ≡ (register_feeder (feeder_details c) env.now s).1 =
            unfold authenticate_feeder register_feeder in ground arith in
          subst P (λ i. (sym h i, sym same i)) (let_in c good)
      | inr (e, h) ↦
          let same = authenticate_feeder-err env s e h in
          subst P (λ i. (sym h i, sym same i)) (refused e)
    ]
