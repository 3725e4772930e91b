-- ===== src/Stats/Threads/Calls.antt =====
-- The halves of a call: together they are the call, and they leave the feeders of others.
use bordercontrol.Prelude.{
  ℕ, ◌≡◌, ◌≢◌, refl, ◌∙◌, true, false, some, Outcome, returns, panics, inl, inr, arith, ◌==◌,
  ==_iff, Option-cases, Bool-cases, if_elim,
}
use bordercontrol.GoMap.{Map, lookup, insert}
use bordercontrol.GoMap.Laws.{lookup-insert, lookup-delete}
use bordercontrol.FeedProtocol.Names.{is_valid-get_name}
use bordercontrol.Stats.State.{Statistics, FeederStats}
use bordercontrol.Stats.Feeders.{
  init_feeder_stats, register_feeder, set_feeder_details, new_feeder_stats, increment_found,
}
use bordercontrol.Stats.Connections.{register_connection, unregister_connection, drop_idle_feeder}
use bordercontrol.Stats.Cases.{Reply, increment_cases, register_cases, unregister_cases}
use bordercontrol.Stats.Evictor.{stats_evictor_inner_lem}
use bordercontrol.Stats.Invariant.{IsValid}
use bordercontrol.Stats.Histories.{
  Call, registers_feeder, increments, registers, unregisters, evicts, reply,
}
use bordercontrol.Stats.Threads.{feeder_of, locks_twice, finish}

-- A feeder that is there stays as it is at `initFeederStats`.
pub init_feeder_stats_present :
    (k : ℕ) (s : Statistics) {f : FeederStats}
    → lookup k s.feeders ≡ some f
    → init_feeder_stats k s ≡ s
unfolding init_feeder_stats
init_feeder_stats_present k s h = rw (h, init_feeder_stats) refl

-- A call is `initFeederStats` and its second half.
pub reply-finish :
    (c : Call) (s : Statistics)
    → locks_twice c ≡ true
    → s.initialised ≡ true
    → reply c s ≡ finish c (init_feeder_stats (feeder_of c) s)
unfolding reply finish register_feeder register_connection unregister_connection
reply-finish (registers_feeder d now) s known init = ground arith
reply-finish (registers conn connected now) s known init = ground arith
reply-finish (unregisters conn now) s known init =
    let (n, e) = is_valid-get_name conn.proto known in ground (arith, e)
reply-finish (increments i now) s known init = cc
reply-finish (evicts now) s known init = cc

abbrev pub IsPresent : ℕ → Statistics → Type 0
IsPresent k s = (f : FeederStats) × (lookup k s.feeders ≡ some f)

pub init_feeder_stats-IsPresent :
    (k j : ℕ) (s : Statistics) → IsPresent k s → IsPresent k (init_feeder_stats j s)
unfolding init_feeder_stats
init_feeder_stats-IsPresent k j s (f, h) = elim (Option-cases (lookup j s.feeders)) [
  | inr (g, here) ↦ rw (here, init_feeder_stats) (f, h)
  | inl gone ↦
      rw (gone, init_feeder_stats)
        (f, ground (arith, ==_iff j k, lookup-insert j k new_feeder_stats s.feeders))
]

-- The entry of another feeder is as before.
abbrev pub Spares : ℕ → Statistics → Outcome Reply → Type 0
Spares k s (returns r) = lookup k r.1.feeders ≡ lookup k s.feeders
Spares k s panics = Unit {0}

module _ (k : ℕ) where
  lookup-insert_other {ℓ} :
      {V : Type ℓ} (j : ℕ) (v : V) (m : Map V) → j ≢ k → lookup k (insert j v m) ≡ lookup k m
  lookup-insert_other j v m other = ground (arith, lookup-insert j k v m)

  init_feeder_stats-Spares :
      (j : ℕ) (s : Statistics)
      → j ≢ k
      → lookup k (init_feeder_stats j s).feeders ≡ lookup k s.feeders
  unfolding init_feeder_stats
  init_feeder_stats-Spares j s other = elim (Option-cases (lookup j s.feeders)) [
    | inr (g, here) ↦ rw (here, init_feeder_stats) refl
    | inl gone ↦
        rw (gone, init_feeder_stats) (lookup-insert_other j new_feeder_stats s.feeders other)
  ]

  drop_idle_feeder-Spares :
      (j : ℕ) (s : Statistics)
      → j ≢ k
      → lookup k (drop_idle_feeder j s).feeders ≡ lookup k s.feeders
  drop_idle_feeder-Spares j s other = ground (arith, lookup-delete j k s.feeders)

  pub reply-Spares :
      (c : Call) (s : Statistics) → IsValid s → feeder_of c ≢ k → Spares k s (reply c s)
  unfolding reply increment_found
  reply-Spares (registers_feeder d now) s v other =
      unfold register_feeder set_feeder_details in
      if_elim (λ r. Spares k s (returns r)) s.initialised
        (λ _. lookup-insert_other d.api_key _ _ other ∙ init_feeder_stats-Spares d.api_key s other)
        (λ _. refl)
  reply-Spares (increments i now) s v other =
      increment_cases (Spares k s) i now s (λ e _. refl)
        (λ y d c hy hd hc.
          let (n, e) =
            is_valid-get_name i.proto ((v.feeders.each i.api_key y hy).only i.proto d hd) in
          rw (e, increment_found) (lookup-insert_other i.api_key _ s.feeders other))
  reply-Spares (registers conn connected now) s v other =
      register_cases (Spares k s) conn connected now s v (λ e _. refl)
        (λ f d _ found.
          lookup-insert_other conn.api_key _ _ other
          ∙ init_feeder_stats-Spares conn.api_key s other)
  reply-Spares (unregisters conn now) s v other =
      unregister_cases (λ r. Spares k s (returns r)) conn now s v (λ e _. refl)
        (λ n f d _ found gone. init_feeder_stats-Spares conn.api_key s other)
        (λ n f d c _ found here.
          drop_idle_feeder-Spares conn.api_key _ other
          ∙ lookup-insert_other conn.api_key _ _ other
          ∙ init_feeder_stats-Spares conn.api_key s other)
  reply-Spares (evicts now) s v other = rw (stats_evictor_inner_lem now s v) refl

abbrev pub IsPresentAfter : ℕ → Outcome Reply → Type 0
IsPresentAfter k (returns r) = IsPresent k r.1
IsPresentAfter k panics = Unit {0}

insert-IsPresent :
    (k j : ℕ) (f : FeederStats) (s : Statistics)
    → IsPresent k s
    → (g : FeederStats) × (lookup k (insert j f s.feeders) ≡ some g)
insert-IsPresent k j f s (g, h) = elim (Bool-cases (j == k)) [
  | inl same ↦ (f, ground (arith, lookup-insert j k f s.feeders))
  | inr other ↦ (g, ground (arith, lookup-insert j k f s.feeders))
]

-- A call with one hold deletes no feeder.
pub reply-IsPresent :
    (k : ℕ) (c : Call) (s : Statistics)
    → IsValid s
    → locks_twice c ≡ false
    → IsPresent k s
    → IsPresentAfter k (reply c s)
unfolding reply increment_found
reply-IsPresent k (registers_feeder d now) s v once h = cc
reply-IsPresent k (increments i now) s v once h =
    increment_cases (IsPresentAfter k) i now s (λ e _. h)
      (λ y d c hy hd hc.
        let (n, e) =
          is_valid-get_name i.proto ((v.feeders.each i.api_key y hy).only i.proto d hd) in
        rw (e, increment_found) (insert-IsPresent k i.api_key _ s h))
reply-IsPresent k (registers conn connected now) s v once h =
    register_cases (IsPresentAfter k) conn connected now s v (λ e _. h) (λ f d _ found. absurd (cc))
reply-IsPresent k (unregisters conn now) s v once h =
    unregister_cases (λ r. IsPresentAfter k (returns r)) conn now s v (λ e _. h)
      (λ n f d _ found gone. absurd (cc)) (λ n f d c _ found here. absurd (cc))
reply-IsPresent k (evicts now) s v once h = rw (stats_evictor_inner_lem now s v) h
