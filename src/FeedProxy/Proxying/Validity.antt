-- ===== src/FeedProxy/Proxying/Validity.antt =====
-- Whether a proxied feeder is still valid, at each round of `protocolProxy`.
use bordercontrol.Prelude.{
  ℕ, ◌+◌, ◌≤◌, ◌≡◌, refl, Bool, true, false, Option, none, some, ltb, if_elim, arith, ◌⊎◌,
}
use bordercontrol.Stats.State.{StatsError, second}
use bordercontrol.FeedProxy.Feeders.{is_valid_api_key}
use bordercontrol.FeedProxy.Auth.{feeder_still_valid}
use bordercontrol.FeedProxy.Proxying.{
  ProxyDirection, ProtocolProxyConfig, Read, bytes, deadline_exceeded, failed, Round, Progress,
  Proxied, check_feeder, after_validity, after_report, update_stats, after_write, after_read,
  after_read_deadline, proxy_round,
}

module _ (conf : ProtocolProxyConfig) (dir : ProxyDirection) (r : Round) where
  -- The key is valid at the check of the round, or the check is not due.
  abbrev pub IsStillValid : Progress → Type 0
  IsStillValid p =
      (is_valid_api_key conf.client_api_key r.feeders ≡ true)
      ⊎ (r.check_now ≤ r.other_check p.last_auth_check + conf.feeder_validity_check_interval)

  -- The check of the feeder in the round says that it may go on.
  abbrev pub Passes : Progress → Progress → Type 0
  Passes p q =
      feeder_still_valid conf.client_api_key r.feeders conf.feeder_validity_check_interval
        r.check_now r.check_later (r.other_check p.last_auth_check)
      ≡ (true, q.last_auth_check)

  abbrev GoesOn : Progress → Proxied → Type 0
  GoesOn p (some e, q) = Unit
  GoesOn p (none, q) = Passes p q

  after_validity-GoesOn :
      (p p' : Progress) (c : Bool × ℕ)
      → feeder_still_valid conf.client_api_key r.feeders conf.feeder_validity_check_interval
          r.check_now r.check_later
          (r.other_check p.last_auth_check)
        ≡ c
      → GoesOn p (after_validity p' c)
  after_validity-GoesOn p p' (true, last) h = h
  after_validity-GoesOn p p' (false, last) h = tt

  check_feeder-GoesOn : (p : Progress) → GoesOn p (check_feeder conf r p)
  unfolding check_feeder
  check_feeder-GoesOn p = after_validity-GoesOn p p _ refl

  after_report-GoesOn :
      (p : Progress) (e : Option StatsError) → GoesOn p (after_report conf dir r p e)
  unfolding check_feeder feeder_still_valid
  after_report-GoesOn p (some e) = tt
  after_report-GoesOn p none = check_feeder-GoesOn _

  update_stats-GoesOn : (p : Progress) → GoesOn p (update_stats conf dir r p)
  unfolding update_stats
  update_stats-GoesOn p =
      if_elim (GoesOn p) (ltb (p.timer + second) r.now)
        (λ _. after_report-GoesOn (record p { timer = r.reset_at }) r.report)
        (λ _. check_feeder-GoesOn p)

  after_write-GoesOn :
      (n : ℕ) (p : Progress) (d e : Option ℕ) → GoesOn p (after_write conf dir r n p d e)
  after_write-GoesOn n p (some x) e = tt
  after_write-GoesOn n p none (some x) = tt
  after_write-GoesOn n p none none = update_stats-GoesOn _

  after_read-GoesOn : (p : Progress) (d : Read) → GoesOn p (after_read conf dir r p d)
  after_read-GoesOn p (failed e) = tt
  after_read-GoesOn p deadline_exceeded = update_stats-GoesOn p
  after_read-GoesOn p (bytes n) = after_write-GoesOn n p r.write_deadline r.write

  after_read_deadline-GoesOn :
      (p : Progress) (d : Option ℕ) → GoesOn p (after_read_deadline conf dir r p d)
  after_read_deadline-GoesOn p (some e) = tt
  after_read_deadline-GoesOn p none = after_read-GoesOn p r.read

  proxy_round-GoesOn : (p : Progress) → GoesOn p (proxy_round conf dir r p)
  unfolding proxy_round
  proxy_round-GoesOn p =
      if_elim (GoesOn p) r.done (λ _. tt) (λ _. after_read_deadline-GoesOn p r.read_deadline)

  GoesOn-Passes : (p : Progress) (q : Proxied) → q.0 ≡ none → GoesOn p q → Passes p q.1
  GoesOn-Passes p (none, q) h v = v
  GoesOn-Passes p (some e, q) h v = cc

  pub proxy_round-Passes :
      (p : Progress) → (proxy_round conf dir r p).0 ≡ none → Passes p (proxy_round conf dir r p).1
  proxy_round-Passes p h = GoesOn-Passes p _ h (proxy_round-GoesOn p)

  -- The loop goes on after a round only if the feeder's key was valid at the check of that round, or
  -- the interval since the last check had not passed.
  pub proxy_round-IsStillValid :
      (p : Progress) → (proxy_round conf dir r p).0 ≡ none → IsStillValid p
  unfolding feeder_still_valid
  proxy_round-IsStillValid p h = let e = proxy_round-Passes p h in ground (arith, e)
