-- ===== src/Stats/Refinement/Simulation.antt =====
-- Increments, and with them every sequence of calls, do what the specification says.
use bordercontrol.Prelude.{
  ℕ, ◌≡◌, refl, ap, ◌∙◌, subst, true, List, [], ◌∷◌, some, returns, ok, arith, ==_iff,
}
use bordercontrol.GoMap.{lookup, insert, get_or}
use bordercontrol.GoMap.Laws.{lookup-insert}
use bordercontrol.FeedProtocol.{get_name}
use bordercontrol.FeedProtocol.Names.{is_valid-get_name}
use bordercontrol.Stats.State.{ConnectionDetail, ProtocolDetail, FeederStats, Statistics, fresh}
use bordercontrol.Stats.Feeders.{
  Increment, increment_found, with_connection, increment_byte_counters, add_bytes, add_global_bytes,
}
use bordercontrol.Stats.Cases.{Reply, increment_cases, details_found}
use bordercontrol.Stats.Connected.{table-put_feeder}
use bordercontrol.Stats.Evictor.{stats_evictor_inner_lem}
use bordercontrol.Stats.Histories.{
  Call, registers_feeder, increments, registers, unregisters, evicts, reply, run, reply-IsValid,
  Outcome-cases, run-cons,
}
use bordercontrol.Stats.Init.{fresh-IsValid}
use bordercontrol.Stats.Invariant.{IsValid}
use bordercontrol.Stats.Refinement.{
  no_connections, succeeds, after, all_after, all_succeed, is_ok, replies, view,
}
use bordercontrol.Stats.Refinement.Calls.{
  Refines, register_feeder-Refines, register-Refines, unregister-Refines,
}

abbrev counted_detail : Increment → ProtocolDetail → ConnectionDetail → ProtocolDetail
counted_detail i d c = record d {
  connection_details = insert i.conn_num (add_bytes i c) d.connection_details;
}

-- An increment for a connection that is there.
increment_found-Refines :
    (i : Increment) (now : ℕ) (s : Statistics) {y : FeederStats} {d : ProtocolDetail}
    {c : ConnectionDetail} {n : List ℕ}
    → get_name i.proto ≡ ok n
    → s.initialised ≡ true
    → lookup i.api_key s.feeders ≡ some y
    → lookup i.proto y.connections ≡ some d
    → lookup i.conn_num d.connection_details ≡ some c
    → Refines (increments i now) s (increment_found i now s y d c)
unfolding succeeds after increment_found
increment_found-Refines i now s {y} {d} {c} hn init hy hd hc =
    rw (hn, increment_found)
      (
        rw (details_found i s hy hd) (rw hc),
        unfold add_global_bytes in ground arith,
        λ k p n.
            let d' = counted_detail i d c in
            rw
              (table-put_feeder i.api_key i.proto y
                (record (with_connection y i.proto d') { time_updated = now }) d' s k p hy refl)
              (ground (
                arith,
                ==_iff i.api_key k,
                ==_iff i.proto p,
                ==_iff i.conn_num n,
                lookup-insert i.conn_num n (add_bytes i c) d.connection_details,
                details_found i s hy hd,
              )),
      )

increment-Refines :
    (i : Increment) (now : ℕ) (s : Statistics)
    → IsValid s
    → s.initialised ≡ true
    → Refines (increments i now) s (increment_byte_counters i now s)
unfolding succeeds after
increment-Refines i now s v init =
    increment_cases (Refines (increments i now) s) i now s
      (λ e missing. (
        rw missing,
        init,
        λ k p n. ground (arith, ==_iff i.api_key k, ==_iff i.proto p, ==_iff i.conn_num n, missing),
      ))
      λ y d c hy hd hc.
        let (n, hn) =
          is_valid-get_name i.proto ((v.feeders.each i.api_key y hy).only i.proto d hd) in
        increment_found-Refines i now s hn init hy hd hc

pub reply-Refines :
    (c : Call) (s : Statistics) → IsValid s → s.initialised ≡ true → Refines c s (reply c s)
unfolding reply
reply-Refines (registers_feeder d now) s v init = register_feeder-Refines d now s init
reply-Refines (increments i now) s v init = increment-Refines i now s v init
reply-Refines (registers conn connected now) s v init = register-Refines conn connected now s v init
reply-Refines (unregisters conn now) s v init = unregister-Refines conn now s v init
reply-Refines (evicts now) s v init =
    rw (stats_evictor_inner_lem now s v) (unfold succeeds after in (refl, init, λ k p n. refl))

-- The specification's state is the view of the state.
pub view-after :
    (c : Call) (s : Statistics) (r : Reply) → Refines c s (returns r) → view r.1 ≡ after c (view s)
view-after c s r (_, _, shown) = λ i k p n. shown k p n i

replies-cons :
    (c : Call) (cs : List Call) (s : Statistics) (r : Reply)
    → reply c s ≡ returns r
    → replies (c ∷ cs) s ≡ is_ok r.0 ∷ replies cs r.1
unfolding replies
replies-cons c cs s r e = rw (e, replies)

pub view-fresh : view fresh ≡ no_connections
unfolding lookup get_or
view-fresh = refl

run-refines :
    (cs : List Call) (s : Statistics)
    → IsValid s
    → s.initialised ≡ true
    → (t : Statistics) × (run cs s ≡ returns t)
      × (replies cs s ≡ all_succeed cs (view s))
      × (view t ≡ all_after cs (view s))
unfolding run replies all_succeed all_after
run-refines [] s v init = (s, refl, refl, refl)
run-refines (c ∷ cs) s v init =
    let (r, e, vr) = Outcome-cases (reply c s) (reply-IsValid c s v) in
    let refined : Refines c s (returns r) = subst (Refines c s) e (reply-Refines c s v init) in
    let seen = view-after c s r refined in
    let (t, h, said, shown) = run-refines cs r.1 vr refined.1 in
    (
      t,
      run-cons c cs s r e ∙ h,
      replies-cons c cs s r e
          ∙ ap (λ b. b ∷ replies cs r.1) refined.0
          ∙ ap (λ bs. succeeds c (view s) ∷ bs) (said ∙ ap (all_succeed cs) seen),
      shown ∙ ap (all_after cs) seen,
    )

-- From the state that `Init` leaves, no sequence of calls panics; exactly those calls return an
-- error that the specification says fail, and the registered connections, with their addresses,
-- times and bytes, are those of the specification.
pub run-fresh-refines :
    (cs : List Call)
    → (t : Statistics) × (run cs fresh ≡ returns t)
      × (replies cs fresh ≡ all_succeed cs no_connections)
      × (view t ≡ all_after cs no_connections)
run-fresh-refines cs =
    subst
      (λ m.
        (t : Statistics) × (run cs fresh ≡ returns t)
        × (replies cs fresh ≡ all_succeed cs m)
        × (view t ≡ all_after cs m))
      view-fresh (run-refines cs fresh fresh-IsValid refl)
