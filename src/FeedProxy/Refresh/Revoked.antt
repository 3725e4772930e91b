-- ===== src/FeedProxy/Refresh/Revoked.antt =====
-- A feeder that ATC no longer lists, from the refresh that misses it to the end of its connection.
use bordercontrol.Prelude.{
  ℕ, ◌+◌, ◌≤◌, ◌≡◌, refl, sym, ◌∙◌, subst, false, List, [], ◌∷◌, Option, none, some, returns,
  panics, leb, if_elim, arith, returns-injective, Option-cases, inl, inr,
}
use bordercontrol.Atc.Schema.{Feeder}
use bordercontrol.Atc.{Client, get_feeders}
use bordercontrol.FeedProxy.Feeders.{update_feeder_db, is_valid_api_key}
use bordercontrol.FeedProxy.Proxying.{
  ProxyDirection, ProtocolProxyConfig, Round, Progress, protocol_proxy,
}
use bordercontrol.FeedProxy.Proxying.Revocation.{AllRevoked, AllInTime, protocol_proxy-AllInTime}
use bordercontrol.FeedProxy.Refresh.{refresh}
use bordercontrol.FeedProxy.Refresh.Loop.{Refreshing, Written, valid_at, update_feeder_dbs}

-- A list without the key, if there is one.
abbrev pub IsMissing : ℕ → Option (List Feeder) → Type 0
IsMissing key none = Unit
IsMissing key (some fs) = is_valid_api_key key fs ≡ false

-- No round gets a list with the key from ATC.
abbrev pub AllMissing : ℕ → List Refreshing → Client → Type 0
AllMissing key [] c = Unit
AllMissing key (r ∷ rs) c =
    let f = get_feeders r.answers c in IsMissing key f.feeders × AllMissing key rs f.client

-- At a time and after it the key is not valid.
abbrev IsGoneFrom : ℕ → ℕ → Written → Type 0
IsGoneFrom key t h = (u : ℕ) → t ≤ u → is_valid_api_key key (valid_at u h) ≡ false

written-IsGoneFrom :
    (key t w : ℕ) (fs : List Feeder) (h : Written)
    → is_valid_api_key key fs ≡ false
    → IsGoneFrom key t h
    → IsGoneFrom key t ((w, fs) ∷ h)
unfolding valid_at
written-IsGoneFrom key t w fs h missing gone u late =
    if_elim (λ gs. is_valid_api_key key gs ≡ false) (leb w u) (λ _. missing) (λ _. gone u late)

update_feeder_dbs-cons :
    (r : Refreshing) (rs : List Refreshing) (c : Client) (h : Written) {fs : List Feeder}
    → (get_feeders r.answers c).feeders ≡ some fs
    → update_feeder_dbs (r ∷ rs) c h
      ≡ update_feeder_dbs rs (get_feeders r.answers c).client ((r.written_at, fs) ∷ h)
unfolding update_feeder_dbs refresh update_feeder_db
update_feeder_dbs-cons r rs c h e = rw (e, update_feeder_dbs) refl

update_feeder_dbs-none :
    (r : Refreshing) (rs : List Refreshing) (c : Client) (h : Written)
    → (get_feeders r.answers c).feeders ≡ none
    → update_feeder_dbs (r ∷ rs) c h ≡ panics
unfolding update_feeder_dbs refresh update_feeder_db
update_feeder_dbs-none r rs c h e = rw (e, update_feeder_dbs) refl

update-IsGoneFrom :
    (key t : ℕ) (rs : List Refreshing) (c : Client) (h h' : Written)
    → AllMissing key rs c
    → IsGoneFrom key t h
    → update_feeder_dbs rs c h ≡ returns h'
    → IsGoneFrom key t h'
unfolding update_feeder_dbs
update-IsGoneFrom key t [] c h h' all gone e = subst (IsGoneFrom key t) (returns-injective e) gone
update-IsGoneFrom key t (r ∷ rs) c h h' (m, all) gone e =
    elim (Option-cases (get_feeders r.answers c).feeders) [
      | inl nil ↦
          let panicked : panics ≡ returns h' = sym (update_feeder_dbs-none r rs c h nil) ∙ e in
          cc panicked
      | inr (fs, there) ↦
          update-IsGoneFrom key t rs (get_feeders r.answers c).client ((r.written_at, fs) ∷ h) h'
            all (written-IsGoneFrom key t r.written_at fs h (subst (IsMissing key) there m) gone)
            (sym (update_feeder_dbs-cons r rs c h there) ∙ e)
    ]

-- The first refresh makes the key invalid from then on.
first-IsGoneFrom :
    (key : ℕ) (r : Refreshing) (rs : List Refreshing) (c : Client) (h h' : Written)
    → AllMissing key (r ∷ rs) c
    → update_feeder_dbs (r ∷ rs) c h ≡ returns h'
    → IsGoneFrom key r.written_at h'
unfolding valid_at
first-IsGoneFrom key r rs c h h' (m, all) e =
    elim (Option-cases (get_feeders r.answers c).feeders) [
      | inl nil ↦
          let panicked : panics ≡ returns h' = sym (update_feeder_dbs-none r rs c h nil) ∙ e in
          cc panicked
      | inr (fs, there) ↦
          let missing = subst (IsMissing key) there m in
          update-IsGoneFrom key r.written_at rs (get_feeders r.answers c).client
            ((r.written_at, fs) ∷ h) h' all (λ u late. ground (arith, missing, late))
            (sym (update_feeder_dbs-cons r rs c h there) ∙ e)
    ]

module _ (conf : ProtocolProxyConfig) (dir : ProxyDirection) (revoked slack : ℕ) (h : Written) where
  -- The round reads the list as it is at its check; the time of the last check is set within
  -- `slack` of the check, in this direction and in the other.
  pub record IsReading (r : Round) : Type 0 where
    pub reads : r.feeders ≡ valid_at r.check_now h
    pub prompt : r.check_later ≤ r.check_now + slack
    pub other : (last : ℕ) → last ≤ revoked + slack → r.other_check last ≤ revoked + slack

  abbrev pub AllReading : List Round → Type 0
  AllReading [] = Unit
  AllReading (r ∷ rs) = IsReading r × AllReading rs

  AllReading-AllRevoked :
      (rs : List Round)
      → IsGoneFrom conf.client_api_key revoked h
      → AllReading rs
      → AllRevoked conf dir revoked slack rs
  AllReading-AllRevoked [] gone all = tt
  AllReading-AllRevoked (r ∷ rs) gone (v, all) = (
    record {
      gone = λ late. rw v.reads (gone r.check_now late);
      prompt = v.prompt;
      other = v.other;
    },
    AllReading-AllRevoked rs gone all,
  )

-- If from a refresh on no round of `updateFeederDB` gets a list with a feeder's key, because ATC
-- does not list it or cannot be asked, and the checks of its connection read the list as it is then,
-- and set the time of the last check, in either direction, no more than some slack after the refresh
-- or after the check: the connection goes on after no round whose check is later than the refresh,
-- the slack and the interval between checks.
pub update-AllInTime :
    (conf : ProtocolProxyConfig) (dir : ProxyDirection) (slack : ℕ) (first : Refreshing)
    (later : List Refreshing) (c : Client) (old h : Written) (rs : List Round) (p : Progress)
    → AllMissing conf.client_api_key (first ∷ later) c
    → update_feeder_dbs (first ∷ later) c old ≡ returns h
    → AllReading conf dir first.written_at slack h rs
    → p.last_auth_check ≤ first.written_at + slack
    → (protocol_proxy conf dir rs p).0 ≡ none
    → AllInTime conf dir first.written_at slack rs
update-AllInTime conf dir slack first later c old h rs p missing e reading early on =
    protocol_proxy-AllInTime conf dir first.written_at slack rs p
      (AllReading-AllRevoked conf dir first.written_at slack h rs
        (first-IsGoneFrom conf.client_api_key first later c old h missing e) reading)
      early on
