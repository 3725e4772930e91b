-- ===== src/GoMap/Totals.antt =====
-- Sums over the values of a map.
use bordercontrol.Prelude.{
  ℕ, ◌+◌, ◌≡◌, ap, subst, none, [], ◌∷◌, ◌==◌, arith, Bool-cases, ==_iff, inl, inr,
}
use bordercontrol.GoMap.{Map, lookup, get_or, insert, delete}
use bordercontrol.GoMap.Laws.{IsUnique, delete_absent}

module _ {ℓ} {V : Type ℓ} where
  unfoldable pub total : (V → ℕ) → Map V → ℕ
  total g [] = 0
  total g ((k, v) ∷ m) = g v + total g m

  -- A write replaces what the read found.
  pub total-insert :
      (g : V → ℕ) (d : V) (k : ℕ) (v : V) (m : Map V)
      → g d ≡ 0
      → total g (insert k v m) + g (get_or d k m) ≡ total g m + g v
  unfolding total insert get_or
  total-insert g d k v [] z = omega arith
  total-insert g d k v ((j, w) ∷ m) z = elim (Bool-cases (j == k)) [
    | inl same ↦ rw same (omega arith)
    | inr other ↦ rw other (omega (arith, total-insert g d k v m z))
  ]

  pub total-delete :
      (g : V → ℕ) (d : V) (k : ℕ) (m : Map V)
      → g d ≡ 0
      → IsUnique m
      → total g (delete k m) + g (get_or d k m) ≡ total g m
  unfolding total delete get_or
  total-delete g d k [] z u = omega arith
  total-delete g d k ((j, w) ∷ m) z u = elim (Bool-cases (j == k)) [
    | inl same ↦
        let gone = subst (λ i. lookup i m ≡ none) ((==_iff j k).0 same) u.0 in
        rw same (omega (arith, ap (total g) (delete_absent k m gone)))
    | inr other ↦ rw other (omega (arith, total-delete g d k m z u.1))
  ]
