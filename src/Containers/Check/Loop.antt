-- ===== src/Containers/Check/Loop.antt =====
-- bordercontrol/lib/containers/containers.go: the goroutine of `Run` that checks the containers again
-- and again.
use text.Mathlib.Text.{◌==◌}
use bordercontrol.Prelude.{
  ℕ, zero, suc, ◌*◌, ◌≤◌, ◌≡◌, refl, subst, String, Bool, true, false, List, [], ◌∷◌, Option, none,
  Result, ok, arith, length, ◌⊎◌, inl, inr, Bool-cases,
}
use bordercontrol.Stats.State.{second}
use bordercontrol.Containers.{Container}
use bordercontrol.Containers.Check.{
  Checked, after_loop, check_feeder_containers, container_loop, count_not_current,
}
use bordercontrol.Containers.Check.Removal.{
  IsDistinct, docker_after, Removes, container_loop-Removes,
}

-- What ends the sleep: the context is done, a signal (also from NATS) skips it, or it is over.
pub data Wake : Type 0 where
  cancelled skipped slept : Wake

Wake-cases : (w : Wake) → (w ≡ cancelled) ⊎ (w ≡ skipped) ⊎ (w ≡ slept)
Wake-cases cancelled = inl refl
Wake-cases skipped = inr (inl refl)
Wake-cases slept = inr (inr refl)

-- What a check is answered by Docker, and the end of the sleep after it.
pub record Round : Type 0 where
  pub client : Option ℕ
  pub found : Result ℕ (List Container)
  pub remove : String → Option ℕ
  pub wake : Wake

-- What each check has returned, and whether the loop has ended.
pub record Looped : Type 0 where
  pub checks : List Checked
  pub ended : Bool

abbrev pub check_round : String → Round → Checked
check_round image r = check_feeder_containers r.client r.found image r.remove

abbrev pub after_check : Checked → Looped → Looped
after_check c l = record l { checks = c ∷ l.checks }

-- The loop, for as many rounds as there are. An error of a check is only logged.
unfoldable pub check_loop : String → List Round → Looped
check_loop image [] = record { checks = []; ended = false }
check_loop image (r ∷ rs) = elim r.wake [
  | cancelled ↦ record { checks = check_round image r ∷ []; ended = true }
  | skipped ↦ after_check (check_round image r) (check_loop image rs)
  | slept ↦ after_check (check_round image r) (check_loop image rs)
]

-- Docker answers every check, with at most `n` containers of an old image to the first; it removes
-- what it is asked to, and a later check finds no more of an old image than that left.
abbrev pub IsSteady : String → List Round → ℕ → Type 0
IsSteady image [] n = Unit
IsSteady image (r ∷ rs) n =
    (r.client ≡ none)
    × ((x : String) → r.remove x ≡ none)
    × (cs : List Container) × (r.found ≡ ok cs)
    × IsDistinct cs
    × (count_not_current image cs ≤ n)
    × IsSteady image rs
        (count_not_current image (docker_after r.remove (check_round image r).asked cs))

-- Each of the first `n` checks asks for at most one removal, the others for none, and then sleep
-- for five minutes.
abbrev pub Settles : ℕ → List Checked → Type 0
Settles n [] = Unit
Settles zero (c ∷ cs) = (c.asked ≡ []) × (c.sleep_time ≡ 300 * second) × Settles zero cs
Settles (suc n) (c ∷ cs) = (length c.asked ≤ 1) × Settles n cs

-- A check that finds no old container, or one that removes a container of those that it finds.
abbrev Found : ℕ → Checked → ℕ → Type 0
Found n c k =
    ((n ≡ 0) × (c.asked ≡ []) × (c.sleep_time ≡ 300 * second) × (k ≡ 0))
    ⊎ ((n ≡ suc k) × (length c.asked ≡ 1))

module _ (image : String) (remove : String → Option ℕ)
    (removes : (x : String) → remove x ≡ none) where
  abbrev Asks : ℕ → Bool × List String → Type 0
  Asks n (removed, ids) =
      ((n ≡ 0) × (removed ≡ false) × (ids ≡ []))
      ⊎ ((m : ℕ) × (n ≡ suc m) × (removed ≡ true) × (length ids ≡ 1))

  container_loop-Asks :
      (cs : List Container) → Asks (count_not_current image cs) (container_loop image remove cs)
  unfolding count_not_current container_loop
  container_loop-Asks [] = inl (refl, refl, refl)
  container_loop-Asks (c ∷ cs) = elim (Bool-cases (c.image == image)) [
    | inl current ↦ rw current (container_loop-Asks cs)
    | inr old ↦ rw (old, removes c.id) (inr (count_not_current image cs, refl, refl, refl))
  ]

  after_loop-Found :
      (cs : List Container) (r : Bool × List String)
      → Asks (count_not_current image cs) r
      → Removes remove image r cs
      → Found
          (count_not_current image cs)
          (after_loop r)
          (count_not_current image (docker_after remove r.1 cs))
  after_loop-Found cs r (inl (few, kept, nothing)) left = inl (ground arith)
  after_loop-Found cs r (inr (m, many, removed, one)) left = inr (ground arith)

module _ (image : String) where
  check_round-Found :
      (r : Round) (cs : List Container)
      → r.client ≡ none
      → ((x : String) → r.remove x ≡ none)
      → r.found ≡ ok cs
      → IsDistinct cs
      → Found
          (count_not_current image cs)
          (check_round image r)
          (count_not_current image (docker_after r.remove (check_round image r).asked cs))
  unfolding check_feeder_containers
  check_round-Found r cs up removes listed distinct =
      rw (up, listed)
        (after_loop-Found image r.remove removes cs (container_loop image r.remove cs)
          (container_loop-Asks image r.remove removes cs)
          (container_loop-Removes r.remove image cs distinct))

  IsSteady-more : (rs : List Round) (m n : ℕ) → m ≤ n → IsSteady image rs m → IsSteady image rs n
  IsSteady-more [] m n h steady = tt
  IsSteady-more (r ∷ rs) m n h (up, removes, cs, listed, distinct, few, later) =
      (up, removes, cs, listed, distinct, omega arith, later)

  -- With one check less to go, as many of an old image are left as that leaves.
  Found-Settles :
      (n m k : ℕ) (c : Checked) (rs : List Round) (later : List Checked)
      → Found m c k
      → m ≤ n
      → IsSteady image rs k
      → ((n' : ℕ) → IsSteady image rs n' → Settles n' later)
      → Settles n (c ∷ later)
  Found-Settles zero m k c rs later (inl (nothing, kept, long, left)) few steady settles =
      (kept, long, settles 0 (subst (IsSteady image rs) left steady))
  Found-Settles zero m k c rs later (inr (one, asked)) few steady settles = absurd (omega arith)
  Found-Settles (suc n) m k c rs later (inl (nothing, kept, long, left)) few steady settles =
      (ground arith, settles n (IsSteady-more rs k n (omega arith) steady))
  Found-Settles (suc n) m k c rs later (inr (one, asked)) few steady settles =
      (omega arith, settles n (IsSteady-more rs k n (omega arith) steady))

  -- If Docker answers every check, removes what it is asked to, and of `n` containers with an old
  -- image gets no more: each of the first `n` checks asks for at most one removal, every later one
  -- for none, and sleeps for five minutes after it.
  pub check_loop-Settles :
      (rs : List Round) (n : ℕ) → IsSteady image rs n → Settles n (check_loop image rs).checks
  unfolding check_loop
  check_loop-Settles [] n steady = tt
  check_loop-Settles (r ∷ rs) n (up, removes, cs, listed, distinct, few, later) =
      let found = check_round-Found r cs up removes listed distinct in
      let settles = Found-Settles n (count_not_current image cs) _ (check_round image r) rs in
      elim (Wake-cases r.wake) [
        | inl done ↦ rw done (settles [] found few later (λ n' h. tt))
        | inr (inl skip) ↦ rw skip (settles _ found few later (check_loop-Settles rs))
        | inr (inr over) ↦ rw over (settles _ found few later (check_loop-Settles rs))
      ]
