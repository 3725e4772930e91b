-- ===== src/Server/Subscriptions/Started.antt =====
-- The subjects of NATS, once the subsystems have started.
use mathlib.Core.List.{reverse, reverse_aux, reverse_aux-append}
use text.Mathlib.Text.{◌==◌}
use bordercontrol.Prelude.{
  ℕ, String, subst, ◌≡◌, refl, Bool, true, false, not, ◌&&◌, List, [], ◌++◌, Option, none, some,
  Result, ok, err, returns, if◌then◌else◌, if_elim, Bool-cases, inl, inr,
}
use bordercontrol.Nats
use bordercontrol.Nats.{NatsError, NatsState, nats_subj_ping, sub, subscribed}
use bordercontrol.Stats.Lifecycle as StatsLifecycle
use bordercontrol.Containers.Lifecycle as ManagerLifecycle
use bordercontrol.Server.{Server, ServerEnv}
use bordercontrol.Server.Subscriptions.{if_accepted, subjects_of}
use bordercontrol.Server.Subscriptions.Statistics.{StatsAdds, stats_accepted, init-StatsAdds}
use bordercontrol.Server.Subscriptions.Containers.{ManagerAdds, manager_accepted, run-ManagerAdds}

-- The start of the connection: whether there is one, and the subject of the ping.
abbrev IsConnected : Bool → Option ℕ → NatsState → Option NatsError × NatsState → Type 0
IsConnected absent ping n (none, n') =
    (n'.initialised ≡ not absent)
    × (n'.subjects
        ≡ (if absent then n.subjects else reverse_aux (if_accepted nats_subj_ping ping) n.subjects))
IsConnected absent ping n (some e, n') = Unit

connect-IsConnected :
    (connection : Result ℕ ℕ) (ping : Option ℕ) (n : NatsState)
    → IsConnected false ping n (Nats.connect connection ping n)
unfolding sub
connect-IsConnected (err e) ping n = tt
connect-IsConnected (ok c) none n = (refl, refl)
connect-IsConnected (ok c) (some e) n = (refl, refl)

named-IsConnected :
    (connection : Result ℕ ℕ) (ping : Option ℕ) (n : NatsState) (name url : String)
    → n.initialised ≡ false
    → IsConnected
        (url == "")
        ping
        n
        (Nats.named connection ping (record n { instance_name = name; url = url }))
named-IsConnected connection ping n name url down =
    let n' = record n { instance_name = name; url = url } in
    elim (Bool-cases (url == "")) [
      | inl absent ↦ rw absent (down, refl)
      | inr there ↦ rw there (connect-IsConnected connection ping n')
    ]

name_instance-IsConnected :
    (host : Result ℕ String) (connection : Result ℕ ℕ) (ping : Option ℕ) (n : NatsState)
    (name url : String)
    → n.initialised ≡ false
    → IsConnected
        (url == "")
        ping
        n
        (Nats.name_instance host connection ping (record n { instance_name = name; url = url }))
name_instance-IsConnected (ok host) connection ping n name url down =
    named-IsConnected connection ping n host url down
name_instance-IsConnected (err e) connection ping n name url down = tt

init-IsConnected :
    (env : ServerEnv) (n : NatsState)
    → n.initialised ≡ false
    → IsConnected
        (env.nats_url == "")
        env.ping
        n
        (Nats.init env.nats_instance env.nats_url env.host env.connection env.ping n)
unfolding Nats.init
init-IsConnected env n down =
    if_elim (IsConnected (env.nats_url == "") env.ping n) (env.nats_instance == "")
      (λ _.
        name_instance-IsConnected env.host env.connection env.ping n env.nats_instance env.nats_url
          down)
      (λ _. named-IsConnected env.connection env.ping n env.nats_instance env.nats_url down)

-- What the three starts add, one after the other.
added_in_turn :
    (absent stats manager up1 up2 : Bool) (ping ss ts m0 m1 m2 m3 : List String)
    → up1 ≡ not absent
    → up2 ≡ up1
    → m0 ≡ []
    → m1 ≡ (if absent then m0 else reverse_aux ping m0)
    → m2 ≡ reverse_aux (if up1 && stats then ss else []) m1
    → m3 ≡ reverse_aux (if up2 && manager then ts else []) m2
    → m3
      ≡ reverse (
          if absent
          then []
          else ping ++ ((if stats then ss else []) ++ (if manager then ts else [])))
added_in_turn true stats manager up1 up2 ping ss ts m0 m1 m2 m3 u1 u2 e0 e1 e2 e3 =
    rw (e3, u2, u1, e2, u1, e1, e0) refl
added_in_turn false stats manager up1 up2 ping ss ts m0 m1 m2 m3 u1 u2 e0 e1 e2 e3 =
    let ss' = if stats then ss else [] in
    let ts' = if manager then ts else [] in
    rw
      (
        e3,
        u2,
        u1,
        e2,
        u1,
        e1,
        e0,
        reverse_aux-append ping (ss' ++ ts') [],
        reverse_aux-append ss' ts' (reverse_aux ping []),
      )
      refl

-- If NATS was neither initialised nor subscribed to, then after NATS, the statistics and the
-- manager have started in this order without an error: with no URL there is no subscription.
-- Otherwise the subscriptions are, in this order, that to the ping, those to the six subjects of
-- the statistics that `statistics_subjects` lists if NATS was connected at their start, and those
-- to the rebuild of the image and to the kick of a feeder if it was connected at the start of the
-- manager; all but those that NATS
-- answered with an error.
pub start-IsSubscribed :
    (env : ServerEnv) (s : Server) (n1 n2 n3 : NatsState) (p : StatsLifecycle.Package)
    (q : ManagerLifecycle.Package)
    → s.nats.initialised ≡ false
    → s.nats.subjects ≡ []
    → Nats.init env.nats_instance env.nats_url env.host env.connection env.ping s.nats ≡ (none, n1)
    → StatsLifecycle.init env.stats n1 s.stats ≡ (none, n2, p)
    → ManagerLifecycle.run env.containers n2 s.manager ≡ returns (none, n3, q)
    → n3.subjects ≡ reverse (subjects_of env)
start-IsSubscribed env s n1 n2 n3 p q down empty h1 h2 h3 =
    let (u1, e1) =
      subst (IsConnected (env.nats_url == "") env.ping s.nats) h1
        (init-IsConnected env s.nats down) in
    let (u2, e2) =
      subst (StatsAdds (stats_accepted env.stats n1) n1) h2 (init-StatsAdds env.stats n1 s.stats) in
    let (u3, e3) =
      subst (ManagerAdds (manager_accepted env.containers n2) n2) h3
        (run-ManagerAdds env.containers n2 s.manager) in
    added_in_turn (env.nats_url == "") env.stats.connected env.containers.connected n1.initialised
      n2.initialised _ _ _ s.nats.subjects n1.subjects n2.subjects n3.subjects u1 u2 empty e1 e2 e3
