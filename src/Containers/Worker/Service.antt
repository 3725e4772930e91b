-- ===== src/Containers/Worker/Service.antt =====
-- Which responses the calls of `FeedInContainer.Start` receive, and when there are no more.
use bordercontrol.Prelude.{
  ℕ, ◌≡◌, ◌≢◌, refl, ap, subst, true, List, [], ◌∷◌, arith, ◌⊎◌, inl, inr, ==_iff, ◌∙◌,
}
use bordercontrol.Containers.Worker.{
  WorkerState, idle, stopped, working, sending, Manager, remove_call, is_waiting, Step, submits,
  serves, receives, gives_up, cancels, stops, Steps, here, onward, started,
}

-- Only the call whose request is served waits.
abbrev pub IsServed : WorkerState → List ℕ → Type 0
IsServed idle ks = ks ≡ []
IsServed stopped ks = ks ≡ []
IsServed (working k) ks = (ks ≡ []) ⊎ (ks ≡ k ∷ [])
IsServed (sending k) ks = (ks ≡ []) ⊎ (ks ≡ k ∷ [])

abbrev pub AllMatch : List (ℕ × ℕ) → Type 0
AllMatch [] = Unit
AllMatch ((j, k) ∷ rs) = (j ≡ k) × AllMatch rs

pub record IsFair (m : Manager) : Type 0 where
  pub served : IsServed m.worker m.waiting
  pub matched : AllMatch m.received

-- The call that the worker's response is for has returned.
abbrev pub IsBusy : WorkerState → Type 0
IsBusy idle = ⊥
IsBusy stopped = ⊥
IsBusy (working k) = Unit
IsBusy (sending k) = Unit

pub record IsAbandoned (m : Manager) : Type 0 where
  pub busy : IsBusy m.worker
  pub nobody : m.waiting ≡ []

-- If a call waits, it is that of the request.
waits_alone :
    (j k : ℕ) (ks : List ℕ)
    → (ks ≡ []) ⊎ (ks ≡ k ∷ [])
    → is_waiting j ks ≡ true
    → (j ≡ k) × (remove_call j ks ≡ [])
unfolding is_waiting remove_call
waits_alone j k [] h w = cc
waits_alone j k (i ∷ []) h w = ground (arith, ==_iff j i)
waits_alone j k (i ∷ i' ∷ is) h w = ground arith

remove_call-IsServed :
    (j : ℕ) (w : WorkerState) (ks : List ℕ)
    → is_waiting j ks ≡ true
    → IsServed w ks
    → IsServed w (remove_call j ks)
remove_call-IsServed j idle ks h v = unfold is_waiting in ground arith
remove_call-IsServed j stopped ks h v = unfold is_waiting in ground arith
remove_call-IsServed j (working k) ks h v = inl (waits_alone j k ks v h).1
remove_call-IsServed j (sending k) ks h v = inl (waits_alone j k ks v h).1

Step-IsFair : {m n : Manager} → Step m n → IsFair m → IsFair n
Step-IsFair (submits k m h) v = record {
  served = inr (ap (λ ks. k ∷ ks) (subst (λ w. IsServed w m.waiting) h v.served));
  matched = v.matched;
}
Step-IsFair (serves k m h) v = record {
  served = subst (λ w. IsServed w m.waiting) h v.served;
  matched = v.matched;
}
Step-IsFair (receives j k m h w) v =
    let (same, none_left) =
      waits_alone j k m.waiting (subst (λ w. IsServed w m.waiting) h v.served) w in
    record { served = none_left; matched = (same, v.matched) }
Step-IsFair (gives_up j m w) v = record {
  served = remove_call-IsServed j m.worker m.waiting w v.served;
  matched = v.matched;
}
Step-IsFair (cancels m) v = record { served = v.served; matched = v.matched }
Step-IsFair (stops m h c) v = record {
  served = subst (λ w. IsServed w m.waiting) h v.served;
  matched = v.matched;
}

Steps-IsFair : {m n : Manager} → Steps m n → IsFair m → IsFair n
Steps-IsFair (here m) v = v
Steps-IsFair (onward s ss) v = Steps-IsFair ss (Step-IsFair s v)

-- Over any steps from the start, a call that receives a response receives the one to its own request.
pub Steps-AllMatch : (m : Manager) → Steps started m → AllMatch m.received
Steps-AllMatch m ss = (Steps-IsFair ss (record { served = refl; matched = tt })).matched

not_waiting : (j : ℕ) → is_waiting j [] ≢ true
unfolding is_waiting
not_waiting j h = cc

Step-IsAbandoned :
    {m n : Manager} → Step m n → IsAbandoned m → IsAbandoned n × (n.received ≡ m.received)
unfolding is_waiting
Step-IsAbandoned (submits k m h) v = absurd (subst IsBusy h v.busy)
Step-IsAbandoned (serves k m h) v = (record { busy = tt; nobody = v.nobody }, refl)
Step-IsAbandoned (receives j k m h w) v =
    absurd (not_waiting j (subst (λ ks. is_waiting j ks ≡ true) v.nobody w))
Step-IsAbandoned (gives_up j m w) v =
    absurd (not_waiting j (subst (λ ks. is_waiting j ks ≡ true) v.nobody w))
Step-IsAbandoned (cancels m) v = (record { busy = v.busy; nobody = v.nobody }, refl)
Step-IsAbandoned (stops m h c) v = absurd (subst IsBusy h v.busy)

-- Once the call whose request is being served, or whose response is being sent, has given up:
-- whatever follows, the goroutine takes no other request and does not stop, no call receives a
-- response, and none waits for one.
pub Steps-IsAbandoned :
    {m n : Manager} → Steps m n → IsAbandoned m → IsAbandoned n × (n.received ≡ m.received)
Steps-IsAbandoned (here m) v = (v, refl)
Steps-IsAbandoned (onward s ss) v =
    let (v', same) = Step-IsAbandoned s v in
    let (v'', same') = Steps-IsAbandoned ss v' in (v'', same' ∙ same)
