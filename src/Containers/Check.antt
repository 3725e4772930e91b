-- ===== src/Containers/Check.antt =====
-- bordercontrol/lib/containers/check.go and prom.go: the removal of containers with an old image,
-- and their number.
pub mod Removal
pub mod Loop
use text.Mathlib.Text.{◌==◌}
use text.Mathlib.TextEquality.{eq_iff}
use text.Mathlib.TextPositions.{eq_refl}
use bordercontrol.Prelude.{
  ℕ, zero, suc, ◌+◌, ◌-◌, ◌*◌, ◌≤◌, ◌≡◌, refl, String, Bool, true, false, List, [], ◌∷◌, Option,
  none, some, Result, ok, err, Outcome, returns, panics, if◌then◌else◌, if_elim, arith, length, ◌∙◌,
  ap, ◌≢◌, inl, inr, Bool-cases, sym,
}
use bordercontrol.Stats.State.{second}
use bordercontrol.Containers.{Container}

-- After a removal was asked for: the loop ends if there was no error, and goes on if there was one.
abbrev pub after_remove : Option ℕ → String → Bool × List String → Bool × List String
after_remove none id rest = (true, id ∷ [])
after_remove (some e) id rest = (rest.0, id ∷ rest.1)

-- The loop over the containers, with the answers to their removals: whether one was removed, and the
-- IDs of those whose removal was asked for.
unfoldable pub container_loop : String → (String → Option ℕ) → List Container → Bool × List String
container_loop image remove [] = (false, [])
container_loop image remove (c ∷ cs) =
    let rest = container_loop image remove cs in
    let asked = after_remove (remove c.id) c.id rest in if c.image == image then rest else asked

-- What `checkFeederContainers` returns, with the removals that it asks for.
pub record Checked : Type 0 where
  pub sleep_time : ℕ
  pub error : Option ℕ
  pub asked : List String

abbrev pub after_loop : Bool × List String → Checked
after_loop (removed, ids) = record {
  sleep_time = if removed then 30 * second else 300 * second;
  error = none;
  asked = ids;
}

-- `client` is the error of the client of Docker. The error of a removal is only logged.
unfoldable pub check_feeder_containers :
    Option ℕ → Result ℕ (List Container) → String → (String → Option ℕ) → Checked
check_feeder_containers (some e) found image remove = record {
  sleep_time = second;
  error = some e;
  asked = [];
}
check_feeder_containers none (err e) image remove = record {
  sleep_time = second;
  error = some e;
  asked = [];
}
check_feeder_containers none (ok cs) image remove = after_loop (container_loop image remove cs)

-- The two gauges, as numbers; an error of Docker is a panic.
unfoldable pub count_current : String → List Container → ℕ
count_current image [] = 0
count_current image (c ∷ cs) =
    let n = count_current image cs in if c.image == image then suc n else n

unfoldable pub count_not_current : String → List Container → ℕ
count_not_current image [] = 0
count_not_current image (c ∷ cs) =
    let n = count_not_current image cs in if c.image == image then n else suc n

abbrev gauge : Option ℕ → Result ℕ (List Container) → (List Container → ℕ) → Outcome ℕ
gauge (some e) found count = panics
gauge none (err e) count = panics
gauge none (ok cs) count = returns (count cs)

unfoldable pub image_current_gauge : Option ℕ → Result ℕ (List Container) → String → Outcome ℕ
image_current_gauge client found image = gauge client found (count_current image)

unfoldable pub image_not_current_gauge : Option ℕ → Result ℕ (List Container) → String → Outcome ℕ
image_not_current_gauge client found image = gauge client found (count_not_current image)

module _ (image : String) where
  -- Every container is counted by exactly one of the gauges.
  pub count_current-count_not_current :
      (cs : List Container) → count_current image cs + count_not_current image cs ≡ length cs
  unfolding count_current count_not_current
  count_current-count_not_current [] = refl
  count_current-count_not_current (c ∷ cs) = ground (arith, count_current-count_not_current cs)
