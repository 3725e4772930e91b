-- ===== src/FeedProxy/Tracker/Window.antt =====
-- How often an address is let in, over any sequence of checks and evictions.
use bordercontrol.Prelude.{
  ℕ, ◌≤◌, ◌≡◌, refl, false, List, [], ◌∷◌, ◌++◌, Option, none, some, arith, Bool-cases, inl, inr,
  leb,
}
use bordercontrol.FeedProxy.Tracker.{
  Ip, IncomingConnection, IncomingConnectionTracker, evict, count_src, check, admit, TooFrequent,
  max_requests_per_src_ip,
}
use bordercontrol.FeedProxy.Tracker.Eviction.{evict-kept}
use bordercontrol.FeedProxy.Tracker.Limit.{
  recent, recent-append, recent-le-count_src, count_src-append, recent-kept, count_src-kept,
  ip_equal_eq,
}

-- What happens to the tracker: an address connects, or an eviction runs, which reads the clock once
-- in each round and is over at a later time.
pub data Event : Type 0 where
  connects : Ip → ℕ → ℕ → Event
  evicts : (ℕ → ℕ) → ℕ → Event

-- The tracker, every connection that it has let in, and the time of the last event.
pub record Door : Type 0 where
  pub tracker : IncomingConnectionTracker
  pub let_in : List IncomingConnection
  pub last : ℕ

abbrev remember :
    Option TooFrequent → IncomingConnection → List IncomingConnection → List IncomingConnection
remember none c cs = cs ++ c ∷ []
remember (some e) c cs = cs

unfoldable pub step : Event → Door → Door
step (connects ip num now) d =
    let (e, t) = check ip num now d.tracker in
    record {
      tracker = t;
      let_in = remember e (record { src_ip = ip; conn_time = now; conn_num = num }) d.let_in;
      last = now;
    }
step (evicts clock done) d = record d { tracker = evict clock d.tracker; last = done }

unfoldable pub run : List Event → Door → Door
unfolding step
run [] d = d
run (e ∷ es) d = run es (step e d)

-- The events follow one another in time.
abbrev pub InOrder : ℕ → List Event → Type 0
InOrder now [] = Unit
InOrder now (connects ip num t ∷ es) = (now ≤ t) × InOrder t es
InOrder now (evicts clock done ∷ es) = (now ≤ done) × ((i : ℕ) → clock i ≤ done) × InOrder done es

record Inv (d : Door) : Type 0 where
  covered :
      (t : ℕ) (ip : Ip) → d.last ≤ t → recent t ip d.let_in ≤ recent t ip d.tracker.connections
  bounded : (ip : Ip) → count_src ip d.tracker.connections ≤ max_requests_per_src_ip

-- One more connection of `ip`, let in with room for it.
appended_bounded :
    (ip ip' : Ip) (c : IncomingConnection) (cs : List IncomingConnection)
    → c.src_ip ≡ ip
    → leb max_requests_per_src_ip (count_src ip cs) ≡ false
    → count_src ip' cs ≤ max_requests_per_src_ip
    → count_src ip' (cs ++ c ∷ []) ≤ max_requests_per_src_ip
unfolding count_src
appended_bounded ip ip' c cs same room h =
    ground (arith, count_src-append ip' cs (c ∷ []), ip_equal_eq c.src_ip ip')

check-Inv :
    (ip : Ip) (num now : ℕ) (d : Door) → d.last ≤ now → Inv d → Inv (step (connects ip num now) d)
unfolding step check admit
check-Inv ip num now d h v =
    let c : IncomingConnection = record { src_ip = ip; conn_time = now; conn_num = num } in
    let cs = d.tracker.connections in
    elim (Bool-cases (leb max_requests_per_src_ip (count_src ip cs))) [
      | inl full ↦
          rw (full, admit)
            (record { covered = λ t ip' le. v.covered t ip' (omega arith); bounded = v.bounded })
      | inr room ↦
          rw (room, admit)
            (record {
              covered = λ t ip' le. omega (
                arith,
                v.covered t ip' (omega arith),
                recent-append t ip' d.let_in (c ∷ []),
                recent-append t ip' cs (c ∷ []),
              );
              bounded = λ ip'. appended_bounded ip ip' c cs refl room (v.bounded ip');
            })
    ]

evict-Inv :
    (clock : ℕ → ℕ) (done : ℕ) (d : Door)
    → d.last ≤ done
    → ((i : ℕ) → clock i ≤ done)
    → Inv d
    → Inv (step (evicts clock done) d)
unfolding step
evict-Inv clock done d h hc v = rw (evict-kept clock d.tracker) (record {
  covered = λ t ip le. omega (
    arith,
    v.covered t ip (omega arith),
    recent-kept clock 0 t ip d.tracker.connections (λ i. omega (arith, hc i)),
  );
  bounded = λ ip. omega (arith, v.bounded ip, count_src-kept clock 0 ip d.tracker.connections);
})

run-Inv : (es : List Event) (d : Door) → InOrder d.last es → Inv d → Inv (run es d)
unfolding run
run-Inv [] d o v = v
run-Inv (connects ip num now ∷ es) d o v =
    run-Inv es (step (connects ip num now) d) (unfold step in o.1) (check-Inv ip num now d o.0 v)
run-Inv (evicts clock done ∷ es) d o v =
    run-Inv es (step (evicts clock done) d) (unfold step in o.2) (evict-Inv clock done d o.0 o.1 v)

abbrev pub empty_door : Door
empty_door = record {
  tracker = record { connections = []; connection_number = 0 };
  let_in = [];
  last = 0;
}

-- Over any events in order of time, from an empty tracker: of the connections that were let in from
-- an address, at most three have a time that is no more than ten seconds before the last event.
pub run-window :
    (es : List Event) (ip : Ip)
    → InOrder 0 es
    → recent (run es empty_door).last ip (run es empty_door).let_in ≤ max_requests_per_src_ip
run-window es ip o =
    let d = run es empty_door in
    let v = run-Inv es empty_door o (
      unfold count_src recent in
      record { covered = λ t ip' h. omega arith; bounded = λ ip'. omega arith }) in
    omega (
      arith,
      v.covered d.last ip (omega arith),
      recent-le-count_src d.last ip d.tracker.connections,
      v.bounded ip,
    )
