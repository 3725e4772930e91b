-- ===== src/GoMap/Laws.antt =====
-- The laws of Go's maps: what a read finds after a write, and `len` for maps with distinct keys.
use bordercontrol.Prelude.{
  ℕ, suc, ◌≡◌, refl, none, some, [], ◌∷◌, ◌==◌, if◌then◌else◌, arith, length,
}
use bordercontrol.GoMap.{Map, lookup, get_or, insert, delete}

-- The keys of the list are distinct, as those of a map are.
abbrev pub IsUnique {ℓ} : {V : Type ℓ} → Map V → Type ℓ
IsUnique [] = Unit
IsUnique ((k, v) ∷ m) = (lookup k m ≡ none) × IsUnique m

module _ {ℓ} {V : Type ℓ} where
  pub lookup-insert :
      (key other : ℕ) (v : V) (m : Map V)
      → lookup other (insert key v m) ≡ (if key == other then some v else lookup other m)
  unfolding lookup insert
  lookup-insert key other v [] = refl
  lookup-insert key other v (entry ∷ rest) = ground (arith, lookup-insert key other v rest)

  pub lookup-delete :
      (k j : ℕ) (m : Map V) → lookup j (delete k m) ≡ (if k == j then none else lookup j m)
  unfolding lookup delete
  lookup-delete k j [] = ground arith
  lookup-delete k j ((i, w) ∷ m) = ground (arith, lookup-delete k j m)

  pub get_or-lookup : (d : V) (k : ℕ) (m : Map V) {v : V} → lookup k m ≡ some v → get_or d k m ≡ v
  unfolding lookup get_or
  get_or-lookup d k [] h = cc
  get_or-lookup d k ((i, w) ∷ m) {v} h = ground (arith, get_or-lookup d k m {v = v})

  pub get_or-lookup-none : (d : V) (k : ℕ) (m : Map V) → lookup k m ≡ none → get_or d k m ≡ d
  unfolding lookup get_or
  get_or-lookup-none d k [] h = refl
  get_or-lookup-none d k ((i, w) ∷ m) h = ground (arith, get_or-lookup-none d k m)

  pub get_or-insert :
      (d : V) (k j : ℕ) (v : V) (m : Map V)
      → get_or d j (insert k v m) ≡ (if k == j then v else get_or d j m)
  unfolding get_or insert
  get_or-insert d k j v [] = refl
  get_or-insert d k j v ((i, w) ∷ m) = ground (arith, get_or-insert d k j v m)

  pub get_or-delete :
      (d : V) (k j : ℕ) (m : Map V) → get_or d j (delete k m) ≡ (if k == j then d else get_or d j m)
  unfolding get_or delete
  get_or-delete d k j [] = ground arith
  get_or-delete d k j ((i, w) ∷ m) = ground (arith, get_or-delete d k j m)

  pub IsUnique-insert : (k : ℕ) (v : V) (m : Map V) → IsUnique m → IsUnique (insert k v m)
  unfolding lookup insert
  IsUnique-insert k v [] u = (refl, tt)
  IsUnique-insert k v ((i, w) ∷ m) u =
      ground (arith, lookup-insert k i v m, IsUnique-insert k v m u.1)

  pub IsUnique-delete : (k : ℕ) (m : Map V) → IsUnique m → IsUnique (delete k m)
  unfolding lookup delete
  IsUnique-delete k [] u = tt
  IsUnique-delete k ((i, w) ∷ m) u = ground (arith, lookup-delete k i m, IsUnique-delete k m u.1)

  -- An insertion under a key that is there replaces its value.
  pub length-insert_old :
      (k : ℕ) (v : V) (m : Map V) {w : V} → lookup k m ≡ some w → length (insert k v m) ≡ length m
  unfolding lookup insert
  length-insert_old k v [] h = cc
  length-insert_old k v ((i, x) ∷ m) {w} h = ground (arith, length-insert_old k v m {w = w})

  pub length-insert_new :
      (k : ℕ) (v : V) (m : Map V) → lookup k m ≡ none → length (insert k v m) ≡ suc (length m)
  unfolding lookup insert
  length-insert_new k v [] h = refl
  length-insert_new k v ((i, x) ∷ m) h = ground (arith, length-insert_new k v m)

  pub lookup-length_zero : (k : ℕ) (m : Map V) → length m ≡ 0 → lookup k m ≡ none
  unfolding lookup
  lookup-length_zero k [] h = refl
  lookup-length_zero k (x ∷ m) h = absurd (omega arith)

  pub delete_absent : (k : ℕ) (m : Map V) → lookup k m ≡ none → delete k m ≡ m
  unfolding lookup delete
  delete_absent k [] h = refl
  delete_absent k ((i, x) ∷ m) h = ground (arith, delete_absent k m)

  pub length-delete :
      (k : ℕ) (m : Map V) {v : V}
      → IsUnique m
      → lookup k m ≡ some v
      → suc (length (delete k m)) ≡ length m
  unfolding lookup delete
  length-delete k [] u h = cc
  length-delete k ((i, x) ∷ m) {v} u h =
      ground (arith, length-delete k m {v = v} u.1, delete_absent k m)

pub ruleset map_laws = (lookup-insert, lookup-delete, get_or-insert, get_or-delete)
