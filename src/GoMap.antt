-- ===== src/GoMap.antt =====
-- Go's maps with integer keys, as association lists. A nil map is the empty list: it can be read,
-- and the models say where the code would write to one.
pub mod Laws
pub mod Totals
use bordercontrol.Prelude.{ℕ, Option, none, some, List, [], ◌∷◌, ◌==◌, if◌then◌else◌}

abbrev pub Map {ℓ} : Type ℓ → Type ℓ
Map V = List (ℕ × V)

module _ {ℓ} {V : Type ℓ} where
  -- v, ok := m[k]
  unfoldable pub lookup : ℕ → Map V → Option V
  lookup k [] = none
  lookup k ((j, v) ∷ m) = if j == k then some v else lookup k m

  -- m[k], with the zero value for a missing key
  unfoldable pub get_or : V → ℕ → Map V → V
  get_or d k [] = d
  get_or d k ((j, v) ∷ m) = if j == k then v else get_or d k m

  -- m[k] = v
  unfoldable pub insert : ℕ → V → Map V → Map V
  insert k v [] = (k, v) ∷ []
  insert k v ((j, w) ∷ m) = let rest = insert k v m in if j == k then (k, v) ∷ m else (j, w) ∷ rest

  -- delete(m, k)
  unfoldable pub delete : ℕ → Map V → Map V
  delete k [] = []
  delete k ((j, w) ∷ m) = let rest = delete k m in if j == k then rest else (j, w) ∷ rest
