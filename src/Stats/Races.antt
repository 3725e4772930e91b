-- ===== src/Stats/Races.antt =====
-- Calls whose holds of `stats.mu` interleave. `RegisterFeeder` and `RegisterConnection` lock twice:
-- in `initFeederStats`, and again for their own write; `UnregisterConnection` may run in between.
use bordercontrol.Prelude.{
  ℕ, ◌≡◌, refl, ◌∙◌, sym, true, none, some, arith, ==_refl, panics, [], subst,
}
use bordercontrol.GoMap.{lookup}
use bordercontrol.GoMap.Laws.{lookup-insert, get_or-lookup-none}
use bordercontrol.FeedProtocol.{beast, mlat, is_valid}
use bordercontrol.Stats.State.{Statistics, FeederStats, zero_feeder_stats, feeder_at}
use bordercontrol.Stats.Init.{init_feeder_stats-IsValid}
use bordercontrol.Stats.Feeders.{init_feeder_stats, FeederDetails, set_feeder_details}
use bordercontrol.Stats.Connections.{
  Connection, add_connection, register_connection, unregister_connection,
}
use bordercontrol.Stats.Invariant.{IsValid}
use bordercontrol.Stats.Connected.{table-init_feeder_stats}
use bordercontrol.Stats.Counting.{init_feeder_stats-initialised}
use bordercontrol.Stats.Forgetting.{IsLast, lookup-unregister_last, unregister-initialised}

-- A feeder that is gone at the second lock of `RegisterConnection`: the write panics.
add_connection_gone :
    (conn : Connection) (connected now : ℕ) (s : Statistics)
    → lookup conn.api_key s.feeders ≡ none
    → add_connection conn connected now s ≡ panics
unfolding add_connection
add_connection_gone conn connected now s h = rw (h, add_connection)

set_feeder_details-initialised :
    (d : FeederDetails) (now : ℕ) (s : Statistics)
    → (set_feeder_details d now s).initialised ≡ s.initialised
unfolding set_feeder_details
set_feeder_details-initialised d now s = refl

-- The second half of `RegisterFeeder` on a feeder that is gone writes one with no protocol entry.
bare_feeder :
    (d : FeederDetails) (now : ℕ) (s : Statistics)
    → lookup d.api_key s.feeders ≡ none
    → (f : FeederStats) × (lookup d.api_key (set_feeder_details d now s).feeders ≡ some f)
      × (f.connections ≡ [])
unfolding set_feeder_details
bare_feeder d now s h =
    let y = record (feeder_at s d.api_key) {
      label = d.label;
      code = d.feeder_code;
      time_updated = now;
    } in
    (
      y,
      rw (lookup-insert d.api_key d.api_key y s.feeders, ==_refl d.api_key),
      rw (get_or-lookup-none zero_feeder_stats d.api_key s.feeders h),
    )

register_connection_bare :
    (conn : Connection) (connected now : ℕ) (s : Statistics) {f : FeederStats}
    → s.initialised ≡ true
    → is_valid conn.proto ≡ true
    → lookup conn.api_key s.feeders ≡ some f
    → f.connections ≡ []
    → register_connection conn connected now s ≡ panics
unfolding register_connection init_feeder_stats add_connection lookup
register_connection_bare conn connected now s {f} init known h bare = ground arith

-- `UnregisterConnection` runs while a call for the same feeder is between its two locks:
-- `initFeederStats` of that call has found the feeder.
abbrev pub interleaved : Connection → ℕ → Statistics → Statistics
interleaved old now s = (unregister_connection old now (init_feeder_stats old.api_key s)).1

module _ (old : Connection) (now : ℕ) (s : Statistics) (v : IsValid s) (init : s.initialised ≡ true)
    (known : is_valid old.proto ≡ true) (last : IsLast old s) where
  interleaved_initialised : (interleaved old now s).initialised ≡ true
  interleaved_initialised =
      unregister-initialised old now (init_feeder_stats old.api_key s)
        (init_feeder_stats-IsValid old.api_key s v)
      ∙ init_feeder_stats-initialised old.api_key s
      ∙ init

  interleaved_gone : lookup old.api_key (interleaved old now s).feeders ≡ none
  interleaved_gone =
      lookup-unregister_last old now (init_feeder_stats old.api_key s)
        (init_feeder_stats-IsValid old.api_key s v)
        (init_feeder_stats-initialised old.api_key s ∙ init) known
        (record {
          detail = last.detail;
          there = rw (table-init_feeder_stats old.api_key old.api_key old.proto s) last.there;
          alone =
              rw
                (
                  table-init_feeder_stats old.api_key old.api_key beast s,
                  table-init_feeder_stats old.api_key old.api_key mlat s,
                )
                last.alone;
        })

  -- On a valid, initialised state, if a feeder's last connection, which has a valid protocol, is
  -- unregistered between the two locks of `RegisterConnection` for a new connection of that feeder,
  -- the write of the new connection panics.
  pub register_connection_race :
      (new : Connection) (connected now' : ℕ)
      → new.api_key ≡ old.api_key
      → add_connection new connected now' (interleaved old now s) ≡ panics
  register_connection_race new connected now' e =
      add_connection_gone new connected now' (interleaved old now s)
        (subst (λ k. lookup k (interleaved old now s).feeders ≡ none) (sym e) interleaved_gone)

  -- On a valid, initialised state, if a feeder's last connection, which has a valid protocol, is
  -- unregistered between the two locks of `RegisterFeeder` for the same feeder, a registration of
  -- a connection of that feeder with a valid protocol, as the next call after it, panics.
  pub register_feeder_race :
      (d : FeederDetails) (now' : ℕ) (new : Connection) (connected later : ℕ)
      → d.api_key ≡ old.api_key
      → new.api_key ≡ old.api_key
      → is_valid new.proto ≡ true
      → register_connection new connected later (set_feeder_details d now' (interleaved old now s))
        ≡ panics
  register_feeder_race d now' new connected later ed en valid =
      let gone =
        subst (λ k. lookup k (interleaved old now s).feeders ≡ none) (sym ed) interleaved_gone in
      let (f, there, bare) = bare_feeder d now' (interleaved old now s) gone in
      register_connection_bare new connected later
        (set_feeder_details d now' (interleaved old now s))
        (set_feeder_details-initialised d now' (interleaved old now s) ∙ interleaved_initialised)
        valid
        (subst (λ k. lookup k (set_feeder_details d now' (interleaved old now s)).feeders ≡ some f)
          (ed ∙ sym en) there)
        bare
