-- ===== src/Containers/Check/Removal.antt =====
-- What a check of the feed-in containers leaves in Docker.
use text.Mathlib.Text.{◌==◌}
use text.Mathlib.TextEquality.{eq_iff}
use text.Mathlib.TextPositions.{eq_refl}
use bordercontrol.Prelude.{
  ℕ, ◌+◌, ◌≡◌, refl, ap, ◌∙◌, String, Bool, true, false, List, [], ◌∷◌, Option, none, some,
  if◌then◌else◌, arith, inl, inr, Bool-cases, Option-cases,
}
use bordercontrol.Containers.{Container}
use bordercontrol.Containers.Check.{container_loop, count_current, count_not_current}

unfoldable pub has_id : String → List Container → Bool
has_id x [] = false
has_id x (c ∷ cs) = if c.id == x then true else has_id x cs

-- No two containers have the same ID.
abbrev pub IsDistinct : List Container → Type 0
IsDistinct [] = Unit
IsDistinct (c ∷ cs) = (has_id c.id cs ≡ false) × IsDistinct cs

is_asked : String → List String → Bool
is_asked x [] = false
is_asked x (y ∷ ys) = if y == x then true else is_asked x ys

unfoldable pub delete_id : String → List Container → List Container
delete_id x [] = []
delete_id x (c ∷ cs) = if c.id == x then cs else c ∷ delete_id x cs

abbrev pub deleted : Option ℕ → String → List Container → List Container
deleted none x cs = delete_id x cs
deleted (some e) x cs = cs

-- Docker after it was asked for removals: one that it answered without an error has happened.
unfoldable pub docker_after : (String → Option ℕ) → List String → List Container → List Container
docker_after remove [] cs = cs
docker_after remove (x ∷ xs) cs = docker_after remove xs (deleted (remove x) x cs)

module _ (remove : String → Option ℕ) where
  deleted-cons :
      (r : Option ℕ) (x : String) (c : Container) (cs : List Container)
      → (x == c.id) ≡ false
      → deleted r x (c ∷ cs) ≡ c ∷ deleted r x cs
  unfolding delete_id
  deleted-cons none x c cs other = ground (arith, eq_iff x c.id, eq_iff c.id x)
  deleted-cons (some e) x c cs other = refl

  docker_after-kept :
      (x : String) (xs : List String) (cs : List Container) (e : ℕ)
      → remove x ≡ some e
      → docker_after remove (x ∷ xs) cs ≡ docker_after remove xs cs
  unfolding docker_after
  docker_after-kept x xs cs e h = ap (λ r. docker_after remove xs (deleted r x cs)) h

  docker_after-cons :
      (xs : List String) (c : Container) (cs : List Container)
      → is_asked c.id xs ≡ false
      → docker_after remove xs (c ∷ cs) ≡ c ∷ docker_after remove xs cs
  unfolding docker_after is_asked
  docker_after-cons [] c cs h = refl
  docker_after-cons (x ∷ xs) c cs h =
      ap (docker_after remove xs) (deleted-cons (remove x) x c cs (ground arith))
      ∙ docker_after-cons xs c (deleted (remove x) x cs) (ground arith)

  module _ (image : String) where
    is_asked-container_loop :
        (x : String) (cs : List Container)
        → has_id x cs ≡ false
        → is_asked x (container_loop image remove cs).1 ≡ false
    unfolding has_id is_asked container_loop
    is_asked-container_loop x [] h = refl
    is_asked-container_loop x (c ∷ cs) h =
        let rest = is_asked-container_loop x cs (ground arith) in
        elim (Bool-cases (c.image == image)) [
          | inl current ↦ rw current rest
          | inr old ↦ elim (Option-cases (remove c.id)) [
            | inl gone ↦ rw (old, gone) (ground arith)
            | inr (e, kept) ↦ rw (old, kept) (ground (arith, rest))
          ]
        ]

    abbrev pub Removes : Bool × List String → List Container → Type 0
    Removes r cs =
        (count_current image (docker_after remove r.1 cs) ≡ count_current image cs)
        × (count_not_current image (docker_after remove r.1 cs) + (if r.0 then 1 else 0)
            ≡ count_not_current image cs)

    -- If no two containers have the same ID, the loop leaves in Docker every container with the
    -- current image, and those with an old one but for one if it reports a removal, and all of them
    -- if not.
    pub container_loop-Removes :
        (cs : List Container) → IsDistinct cs → Removes (container_loop image remove cs) cs
    unfolding container_loop count_current count_not_current
    container_loop-Removes [] d = unfold docker_after in (refl, refl)
    container_loop-Removes (c ∷ cs) d =
        let asked = is_asked-container_loop c.id cs d.0 in
        let rest = container_loop-Removes cs d.1 in
        let cons = docker_after-cons (container_loop image remove cs).1 c cs asked in
        elim (Bool-cases (c.image == image)) [
          | inl current ↦ rw (current, cons, current) (ground (arith, rest))
          | inr old ↦ elim (Option-cases (remove c.id)) [
            | inl gone ↦
                unfold docker_after delete_id in rw (old, gone, gone) (ground (arith, eq_refl c.id))
            | inr (e, kept) ↦
                let ids = (container_loop image remove cs).1 in
                rw (old, kept, docker_after-kept c.id ids (c ∷ cs) e kept, cons, old)
                  (ground (arith, rest))
          ]
        ]
