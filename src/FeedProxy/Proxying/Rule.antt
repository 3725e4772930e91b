-- ===== src/FeedProxy/Proxying/Rule.antt =====
-- A rule for `protocolProxy`: what holds of the variables after each thing that a round does to
-- them holds after the loop.
use bordercontrol.Prelude.{
  ℕ, ◌+◌, ◌%◌, ◌<◌, Bool, true, false, List, [], ◌∷◌, Option, none, some, ltb, if_elim, arith,
}
use bordercontrol.Stats.State.{StatsError, second, uint64_mod}
use bordercontrol.FeedProxy.Proxying.{
  ProxyDirection, ProtocolProxyConfig, ProxyError, Read, bytes, deadline_exceeded, failed, Round,
  Progress, increment, Proxied, check_feeder, after_validity, after_round, after_report,
  update_stats, after_write, after_read, after_read_deadline, proxy_round, protocol_proxy,
}

module _ (conf : ProtocolProxyConfig) (dir : ProxyDirection) (P : Progress → Type 0) where
  -- A write, a check of the feeder, the reset of the timer, and with it a report.
  pub record IsKept (r : Round) : Type 0 where
    pub written :
        (n : ℕ) (p : Progress)
        → P p
        → P (record p { byte_count = (p.byte_count + n) % uint64_mod; written = n ∷ p.written })
    pub checked : (last : ℕ) (p : Progress) → P p → P (record p { last_auth_check = last })
    pub reset :
        (p : Progress) → P p → p.timer + second < r.now → P (record p { timer = r.reset_at })
    pub reported :
        (p : Progress)
        → P p
        → p.timer + second < r.now
        → P (record p {
          timer = r.reset_at;
          byte_count = 0;
          reported = increment conf dir p.byte_count ∷ p.reported;
        })

  module _ (r : Round) (kept : IsKept r) where
    after_validity-kept : (p : Progress) (c : Bool × ℕ) → P p → P (after_validity p c).1
    after_validity-kept p (true, last) h = kept.checked last p h
    after_validity-kept p (false, last) h = kept.checked last p h

    after_report-kept :
        (p : Progress) (e : Option StatsError)
        → P p
        → p.timer + second < r.now
        → P (after_report conf dir r (record p { timer = r.reset_at }) e).1
    unfolding check_feeder
    after_report-kept p (some e) h late = kept.reset p h late
    after_report-kept p none h late = after_validity-kept _ _ (kept.reported p h late)

    update_stats-kept : (p : Progress) → P p → P (update_stats conf dir r p).1
    unfolding update_stats check_feeder
    update_stats-kept p h =
        if_elim {A = Proxied} (λ q. P q.1) (ltb (p.timer + second) r.now)
          (λ late. after_report-kept p r.report h (ground arith)) (λ _. after_validity-kept p _ h)

    after_write-kept :
        (n : ℕ) (p : Progress) (d e : Option ℕ) → P p → P (after_write conf dir r n p d e).1
    after_write-kept n p (some x) e h = h
    after_write-kept n p none (some x) h = h
    after_write-kept n p none none h = update_stats-kept _ (kept.written n p h)

    after_read-kept : (p : Progress) (d : Read) → P p → P (after_read conf dir r p d).1
    after_read-kept p (failed e) h = h
    after_read-kept p deadline_exceeded h = update_stats-kept p h
    after_read-kept p (bytes n) h = after_write-kept n p r.write_deadline r.write h

    after_read_deadline-kept :
        (p : Progress) (d : Option ℕ) → P p → P (after_read_deadline conf dir r p d).1
    after_read_deadline-kept p (some e) h = h
    after_read_deadline-kept p none h = after_read-kept p r.read h

    pub proxy_round-kept : (p : Progress) → P p → P (proxy_round conf dir r p).1
    unfolding proxy_round
    proxy_round-kept p h =
        if_elim {A = Proxied} (λ q. P q.1) r.done (λ _. h)
          (λ _. after_read_deadline-kept p r.read_deadline h)

  abbrev pub AllKept : List Round → Type 0
  AllKept [] = Unit
  AllKept (r ∷ rs) = IsKept r × AllKept rs

  after_round-kept :
      (p : Progress) (end : Option (Option ProxyError)) (rest : Proxied)
      → P p
      → P rest.1
      → P (after_round end p rest).1
  after_round-kept p none rest h k = k
  after_round-kept p (some e) rest h k = h

  pub protocol_proxy-kept :
      (rs : List Round) (p : Progress) → AllKept rs → P p → P (protocol_proxy conf dir rs p).1
  unfolding protocol_proxy
  protocol_proxy-kept [] p all h = h
  protocol_proxy-kept (r ∷ rs) p (kept, all) h =
      let h' = proxy_round-kept r kept p h in
      after_round-kept _ (proxy_round conf dir r p).0 _ h' (protocol_proxy-kept rs _ all h')
