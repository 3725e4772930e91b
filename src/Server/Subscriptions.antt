-- ===== src/Server/Subscriptions.antt =====
-- The subjects of NATS that `runServer` subscribes to while it starts the subsystems.
pub mod Statistics
pub mod Containers
pub mod Started
use mathlib.Core.List.{reverse, reverse_aux, reverse_aux-append}
use text.Mathlib.Text.{◌==◌}
use bordercontrol.Prelude.{
  ℕ, String, ◌≡◌, refl, ◌∙◌, ap, sym, Bool, true, false, not, ◌&&◌, List, [], ◌∷◌, ◌++◌, Option,
  none, some, Result, ok, err, Outcome, returns, panics, if◌then◌else◌, if_elim, arith,
  Option-cases, Bool-cases, inl, inr,
}
use bordercontrol.Nats
use bordercontrol.Nats.{NatsError, NatsState, nats_subj_ping, sub, subscribed}
use bordercontrol.Stats.Lifecycle as StatsLifecycle
use bordercontrol.Containers.Lifecycle as ManagerLifecycle
use bordercontrol.Server.{Server, ServerEnv}

abbrev pub if_accepted : String → Option ℕ → List String
if_accepted subj none = subj ∷ []
if_accepted subj (some e) = []

-- The subjects for which NATS answers a subscription without an error, in their order.
abbrev pub accepted : (String → Option ℕ) → List String → List String
accepted answer [] = []
accepted answer (subj ∷ subjs) = if_accepted subj (answer subj) ++ accepted answer subjs

abbrev pub accepted_if : Bool → (String → Option ℕ) → List String → List String
accepted_if connected answer subjs = if connected then accepted answer subjs else []

-- The subjects that clients of the three packages send their requests to.
abbrev pub ping_subject : String
ping_subject = "pw_bordercontrol.ping"

abbrev pub statistics_subjects : List String
statistics_subjects =
    "pw_bordercontrol.feeders.metrics" ∷ "pw_bordercontrol.feeder.metrics"
    ∷ "pw_bordercontrol.feeder.metrics.beast" ∷ "pw_bordercontrol.feeder.metrics.mlat"
    ∷ "pw_bordercontrol.feeder.connected.beast" ∷ "pw_bordercontrol.feeder.connected.mlat" ∷ []

abbrev pub container_subjects : List String
container_subjects = "pw_bordercontrol.feedinimage.rebuild" ∷ "pw_bordercontrol.feeder.kick" ∷ []

-- The ping, then the subjects of the statistics, then those of the containers, if there is a NATS.
abbrev pub subjects_of : ServerEnv → List String
subjects_of env =
    if env.nats_url == ""
    then []
    else if_accepted ping_subject env.ping
      ++ (accepted_if env.stats.connected env.stats.subscribe statistics_subjects
          ++ accepted_if env.containers.connected env.containers.subscribe container_subjects)

-- A state of NATS that differs from another by the subjects that were added.
abbrev pub Adds : List String → NatsState → NatsState → Type 0
Adds subjs n n' = (n'.initialised ≡ n.initialised) × (n'.subjects ≡ reverse_aux subjs n.subjects)

abbrev pub AddsIfFine : List String → NatsState → Option NatsError × NatsState → Type 0
AddsIfFine subjs n (none, n') = Adds subjs n n'
AddsIfFine subjs n (some e, n') = Unit

pub subscribed-Adds :
    (subj : String) (e : Option ℕ) (n : NatsState)
    → Adds (if_accepted subj e) n (subscribed subj e n)
subscribed-Adds subj none n = (refl, refl)
subscribed-Adds subj (some e) n = (refl, refl)

sub-Adds :
    (subj : String) (e : Option ℕ) (n : NatsState)
    → AddsIfFine (if_accepted subj e) n (sub subj e n)
unfolding sub
sub-Adds subj e n =
    if_elim (AddsIfFine (if_accepted subj e) n) n.initialised (λ _. subscribed-Adds subj e n)
      (λ _. tt)

pub Adds-append :
    (ss ts : List String) (n n' n'' : NatsState)
    → Adds ss n n'
    → Adds ts n' n''
    → Adds (ss ++ ts) n n''
Adds-append ss ts n n' n'' (u, e) (u', e') =
    (u' ∙ u, e' ∙ ap (reverse_aux ts) e ∙ sym (reverse_aux-append ss ts n.subjects))

then_Adds :
    (ss ts : List String) (n : NatsState) (r later : Option NatsError × NatsState)
    → AddsIfFine ss n r
    → AddsIfFine ts r.1 later
    → AddsIfFine (ss ++ ts) n (elim r.0 [ none ↦ later | some x ↦ (some x, r.1) ])
then_Adds ss ts n (some e, n') later h k = tt
then_Adds ss ts n (none, n') (none, n'') h k = Adds-append ss ts n n' n'' h k
then_Adds ss ts n (none, n') (some e, n'') h k = tt

pub sub_all-Adds :
    (subjs : List String) (answer : String → Option ℕ) (n : NatsState)
    → AddsIfFine (accepted answer subjs) n (StatsLifecycle.sub_all subjs answer n)
unfolding StatsLifecycle.sub_all
sub_all-Adds [] answer n = (refl, refl)
sub_all-Adds (subj ∷ subjs) answer n =
    let first = sub subj (answer subj) n in
    then_Adds (if_accepted subj (answer subj)) (accepted answer subjs) n first
      (StatsLifecycle.sub_all subjs answer first.1) (sub-Adds subj (answer subj) n)
      (sub_all-Adds subjs answer first.1)

pub sub-up :
    (subj : String) (e : Option ℕ) (n : NatsState)
    → n.initialised ≡ true
    → sub subj e n ≡ (none, subscribed subj e n)
unfolding sub
sub-up subj e n up = ground (arith, up)
