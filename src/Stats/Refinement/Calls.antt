-- ===== src/Stats/Refinement/Calls.antt =====
-- The calls that make and unmake connections do what the specification says.
use bordercontrol.Prelude.{
  ℕ, ◌≡◌, refl, ap, ◌∙◌, true, Option, none, some, Outcome, returns, panics, if_elim, arith, inl,
  inr, Bool-cases, ==_iff,
}
use bordercontrol.GoMap.{lookup}
use bordercontrol.GoMap.Laws.{get_or-insert}
use bordercontrol.FeedProtocol.{is_valid}
use bordercontrol.Stats.State.{ConnectionDetail, Statistics, zero_feeder_stats, feeder_at}
use bordercontrol.Stats.Feeders.{
  FeederDetails, register_feeder, set_feeder_details, init_feeder_stats,
}
use bordercontrol.Stats.Connections.{
  Connection, register_connection, unregister_connection, drop_idle_feeder,
}
use bordercontrol.Stats.Cases.{Reply, register_cases, unregister_cases}
use bordercontrol.Stats.Connected.{table, connection_of, table-init_feeder_stats}
use bordercontrol.Stats.Counting.{init_feeder_stats-initialised}
use bordercontrol.Stats.Histories.{Call, registers_feeder, registers, unregisters}
use bordercontrol.Stats.Invariant.{IsValid}
use bordercontrol.Stats.Registering.{Registered, register-connection_of}
use bordercontrol.Stats.Unregistering.{missing_error, unregister-connection_of}
use bordercontrol.Stats.Refinement.{is_some, succeeds, after, is_ok, view}

-- A call does what the specification says.
abbrev pub Refines : Call → Statistics → Outcome Reply → Type 0
Refines c s (returns r) =
    (is_ok r.0 ≡ succeeds c (view s))
    × (r.1.initialised ≡ true)
    × ((k p n : ℕ) → connection_of r.1 k p n ≡ after c (view s) k p n)
Refines c s panics = ⊥

-- `RegisterFeeder` changes no table.
pub table-set_feeder_details :
    (d : FeederDetails) (now : ℕ) (s : Statistics) (k p : ℕ)
    → table (set_feeder_details d now s) k p ≡ table s k p
unfolding set_feeder_details
table-set_feeder_details d now s k p = ground (
  arith,
  ==_iff d.api_key k,
  get_or-insert zero_feeder_stats d.api_key k
      (record (feeder_at s d.api_key) { label = d.label; code = d.feeder_code; time_updated = now })
      s.feeders,
)

pub register_feeder-Refines :
    (d : FeederDetails) (now : ℕ) (s : Statistics)
    → s.initialised ≡ true
    → Refines (registers_feeder d now) s (returns (register_feeder d now s))
unfolding register_feeder succeeds after
register_feeder-Refines d now s init =
    if_elim (λ r. Refines (registers_feeder d now) s (returns r)) s.initialised
      (λ _. (
        refl,
        unfold set_feeder_details in init_feeder_stats-initialised d.api_key s ∙ init,
        λ k p n.
            ap (λ t. lookup n t.connection_details)
              (table-set_feeder_details d now (init_feeder_stats d.api_key s) k p
                ∙ table-init_feeder_stats d.api_key k p s),
      ))
      (λ shut. cc)

-- A call leaves the package initialised.
abbrev StaysInitialised : Outcome Reply → Type 0
StaysInitialised (returns r) = r.1.initialised ≡ true
StaysInitialised panics = Unit {0}

register-initialised :
    (conn : Connection) (connected now : ℕ) (s : Statistics)
    → IsValid s
    → s.initialised ≡ true
    → StaysInitialised (register_connection conn connected now s)
register-initialised conn connected now s v init =
    register_cases StaysInitialised conn connected now s v (λ e _. init)
      λ f d _ found. init_feeder_stats-initialised conn.api_key s ∙ init

Registered-Refines :
    (conn : Connection) (connected now : ℕ) (s : Statistics) (o : Outcome Reply)
    → is_valid conn.proto ≡ true
    → StaysInitialised o
    → Registered conn connected s o
    → Refines (registers conn connected now) s o
unfolding succeeds after
Registered-Refines conn connected now s (returns (e, t)) known init (fine, shown) =
    (rw (fine, known), init, λ k p n. rw known (shown k p n))
Registered-Refines conn connected now s panics known init h = h

pub register-Refines :
    (conn : Connection) (connected now : ℕ) (s : Statistics)
    → IsValid s
    → s.initialised ≡ true
    → Refines (registers conn connected now) s (register_connection conn connected now s)
unfolding succeeds after
register-Refines conn connected now s v init = elim (Bool-cases (is_valid conn.proto)) [
  | inl known ↦
      Registered-Refines conn connected now s (register_connection conn connected now s) known
        (register-initialised conn connected now s v init)
        (register-connection_of conn connected now s v init known)
  | inr unknown ↦
      register_cases (Refines (registers conn connected now) s) conn connected now s v
        (λ e _. (rw unknown, init, λ k p n. rw unknown)) (λ f d _ found. cc)
]

drop_idle_feeder-initialised :
    (k : ℕ) (s : Statistics) → (drop_idle_feeder k s).initialised ≡ s.initialised
drop_idle_feeder-initialised k s = ground arith

unregister-initialised :
    (conn : Connection) (now : ℕ) (s : Statistics)
    → IsValid s
    → s.initialised ≡ true
    → (unregister_connection conn now s).1.initialised ≡ true
unregister-initialised conn now s v init =
    unregister_cases (λ r. r.1.initialised ≡ true) conn now s v (λ e _. init)
      (λ n f d _ found gone. init_feeder_stats-initialised conn.api_key s ∙ init)
      λ n f d c _ found here.
        drop_idle_feeder-initialised conn.api_key _
        ∙ init_feeder_stats-initialised conn.api_key s
        ∙ init

is_ok-missing_error : (c : Option ConnectionDetail) → is_ok (missing_error c) ≡ is_some c
is_ok-missing_error none = refl
is_ok-missing_error (some c) = refl

pub unregister-Refines :
    (conn : Connection) (now : ℕ) (s : Statistics)
    → IsValid s
    → s.initialised ≡ true
    → Refines (unregisters conn now) s (returns (unregister_connection conn now s))
unfolding succeeds after
unregister-Refines conn now s v init = elim (Bool-cases (is_valid conn.proto)) [
  | inl known ↦
      let (error, shown) = unregister-connection_of conn now s v init known in
      (
        rw known (ap is_ok error ∙ is_ok-missing_error _),
        unregister-initialised conn now s v init,
        λ k p n. rw known (shown k p n),
      )
  | inr unknown ↦
      unregister_cases (λ r. Refines (unregisters conn now) s (returns r)) conn now s v
        (λ e _. (rw unknown, init, λ k p n. rw unknown)) (λ n f d _ found. cc)
        (λ n f d c _ found. cc)
]
