-- ===== src/FeedProxy/Proxying/Revocation.antt =====
-- How long a feeder that is no longer valid is still proxied.
use bordercontrol.Prelude.{
  ℕ, ◌+◌, ◌≤◌, ◌<◌, ◌≡◌, refl, ◌⊎◌, inl, inr, true, false, List, [], ◌∷◌, Option, none, some, arith,
}
use bordercontrol.Atc.Schema.{Feeder}
use bordercontrol.FeedProxy.Feeders.{is_valid_api_key}
use bordercontrol.FeedProxy.Auth.{feeder_still_valid}
use bordercontrol.FeedProxy.Proxying.{
  ProxyDirection, ProtocolProxyConfig, ProxyError, Round, Progress, Proxied, after_round,
  proxy_round, protocol_proxy,
}
use bordercontrol.FeedProxy.Proxying.Validity.{Passes, proxy_round-Passes}

-- A check that passes was not due, or it found the key and set the time.
feeder_still_valid_cases :
    (key : ℕ) (feeders : List Feeder) (interval now later last last' : ℕ)
    → feeder_still_valid key feeders interval now later last ≡ (true, last')
    → ((now ≤ last + interval) × (last' ≡ last))
      ⊎ ((is_valid_api_key key feeders ≡ true) × (last' ≡ later))
unfolding feeder_still_valid
feeder_still_valid_cases key feeders interval now later last last' h = ground arith

module _ (conf : ProtocolProxyConfig) (dir : ProxyDirection) (revoked slack : ℕ) where
  -- The key is not in the list that the round reads, if it reads it at `revoked` or later; the time
  -- of the last check is set within `slack` of the check, in this direction and in the other.
  pub record IsRevoked (r : Round) : Type 0 where
    pub gone : revoked ≤ r.check_now → is_valid_api_key conf.client_api_key r.feeders ≡ false
    pub prompt : r.check_later ≤ r.check_now + slack
    pub other : (last : ℕ) → last ≤ revoked + slack → r.other_check last ≤ revoked + slack

  abbrev pub AllRevoked : List Round → Type 0
  AllRevoked [] = Unit
  AllRevoked (r ∷ rs) = IsRevoked r × AllRevoked rs

  -- The check of each round is made at most the interval and the slack after `revoked`.
  abbrev pub AllInTime : List Round → Type 0
  AllInTime [] = Unit
  AllInTime (r ∷ rs) =
      (r.check_now ≤ revoked + slack + conf.feeder_validity_check_interval) × AllInTime rs

  Passes-InTime :
      (r : Round) (p q : Progress)
      → IsRevoked r
      → p.last_auth_check ≤ revoked + slack
      → Passes conf dir r p q
      → (r.check_now ≤ revoked + slack + conf.feeder_validity_check_interval)
        × (q.last_auth_check ≤ revoked + slack)
  Passes-InTime r p q v early h =
      let last = r.other_check p.last_auth_check in
      let l : last ≤ revoked + slack = v.other p.last_auth_check early in
      elim (feeder_still_valid_cases _ _ _ _ _ _ _ h) [
        | inl (waits, same) ↦ (omega arith, omega arith)
        | inr (valid, set) ↦
            let before : r.check_now < revoked = grind (arith, v.gone) in
            (omega arith, omega (arith, v.prompt))
      ]

  after_round-none :
      (e : Option (Option ProxyError)) (p : Progress) (rest : Proxied)
      → (after_round e p rest).0 ≡ none
      → (e ≡ none) × (rest.0 ≡ none)
  after_round-none none p rest h = (refl, h)
  after_round-none (some e) p rest h = cc

  -- If the key of a feeder is in no list that is read at a time or later, and the time of the last
  -- check is at first, and is set in either direction, no more than some slack after that time or
  -- after its check: the loop goes on after no round whose check is later than the time, the slack
  -- and the interval between checks.
  pub protocol_proxy-AllInTime :
      (rs : List Round) (p : Progress)
      → AllRevoked rs
      → p.last_auth_check ≤ revoked + slack
      → (protocol_proxy conf dir rs p).0 ≡ none
      → AllInTime rs
  unfolding protocol_proxy
  protocol_proxy-AllInTime [] p all early h = tt
  protocol_proxy-AllInTime (r ∷ rs) p (v, all) early h =
      let p' = (proxy_round conf dir r p).1 in
      let (e, e') =
        after_round-none (proxy_round conf dir r p).0 p' (protocol_proxy conf dir rs p') h in
      let (now, last) = Passes-InTime r p p' v early (proxy_round-Passes conf dir r p e) in
      (now, protocol_proxy-AllInTime rs p' all last e')
