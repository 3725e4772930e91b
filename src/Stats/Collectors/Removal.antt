-- ===== src/Stats/Collectors/Removal.antt =====
-- The list of collectors after one is unregistered.
use bordercontrol.Prelude.{
  ℕ, ◌+◌, ◌-◌, ◌≡◌, refl, sym, ap, ◌∙◌, subst, Bool, true, List, [], ◌∷◌, ◌++◌, Option, none, some,
  ◌==◌, if◌then◌else◌, arith, length, get_elem?, set, take, take-append, set-append,
  get_elem?-append, length-append, ◌⊎◌, inl, inr, Bool-cases, ==_iff,
}
use bordercontrol.Stats.Collectors.{
  PromError, position, written_over_at, swap_remove, unregister_prom_collector,
  could_not_find_counter,
}

abbrev pub one_if : Bool → ℕ
one_if b = if b then 1 else 0

unfoldable pub count : ℕ → List ℕ → ℕ
count d [] = 0
count d (c ∷ cs) = one_if (c == d) + count d cs

count-append : (d : ℕ) (xs ys : List ℕ) → count d (xs ++ ys) ≡ count d xs + count d ys
unfolding count
count-append d [] ys = omega arith
count-append d (x ∷ xs) ys = omega (arith, count-append d xs ys)

snoc_cases : (cs : List ℕ) → (cs ≡ []) ⊎ ((ds : List ℕ) × (l : ℕ) × (cs ≡ ds ++ l ∷ []))
snoc_cases [] = inl refl
snoc_cases (c ∷ cs) = elim (snoc_cases cs) [
  | inl e ↦ inr ([], c, ap (λ xs. c ∷ xs) e)
  | inr (ds, l, e) ↦ inr (c ∷ ds, l, ap (λ xs. c ∷ xs) e)
]

append_assoc : (xs ys zs : List ℕ) → xs ++ (ys ++ zs) ≡ (xs ++ ys) ++ zs
append_assoc [] ys zs = refl
append_assoc (x ∷ xs) ys zs = ap (λ t. x ∷ t) (append_assoc xs ys zs)

-- The last element is written over position `i`.
swap_remove-snoc :
    (ds : List ℕ) (l i : ℕ)
    → swap_remove i (ds ++ l ∷ []) ≡ take (length ds) (set (ds ++ l ∷ []) i l)
unfolding swap_remove
swap_remove-snoc ds l i =
    let cut : length (ds ++ l ∷ []) - 1 ≡ length ds = omega (arith, length-append ds (l ∷ [])) in
    ap (λ n. written_over_at (ds ++ l ∷ []) i n (get_elem? (ds ++ l ∷ []) n)) cut
    ∙ ap (λ r. written_over_at (ds ++ l ∷ []) i (length ds) r) (get_elem?-append ds l [])

swap_remove-end : (xs : List ℕ) (c : ℕ) → swap_remove (length xs) (xs ++ c ∷ []) ≡ xs
swap_remove-end xs c =
    swap_remove-snoc xs c (length xs)
    ∙ ap (take (length xs)) (set-append xs c c [])
    ∙ take-append xs (c ∷ [])

swap_remove-middle :
    (xs zs : List ℕ) (c l : ℕ) → swap_remove (length xs) (xs ++ c ∷ (zs ++ l ∷ [])) ≡ xs ++ l ∷ zs
swap_remove-middle xs zs c l =
    let same : length (xs ++ c ∷ zs) ≡ length (xs ++ l ∷ zs) =
      omega (arith, length-append xs (c ∷ zs), length-append xs (l ∷ zs)) in
    ap (swap_remove (length xs)) (append_assoc xs (c ∷ zs) (l ∷ []))
    ∙ swap_remove-snoc (xs ++ c ∷ zs) l (length xs)
    ∙ ap (λ ys. take (length (xs ++ c ∷ zs)) (set ys (length xs) l))
        (sym (append_assoc xs (c ∷ zs) (l ∷ [])))
    ∙ ap (take (length (xs ++ c ∷ zs))) (set-append xs c l (zs ++ l ∷ []))
    ∙ ap (take (length (xs ++ c ∷ zs))) (append_assoc xs (l ∷ zs) (l ∷ []))
    ∙ ap (λ n. take n ((xs ++ l ∷ zs) ++ l ∷ [])) same
    ∙ take-append (xs ++ l ∷ zs) (l ∷ [])

count-swap_remove :
    (xs ys : List ℕ) (c d : ℕ)
    → count d (swap_remove (length xs) (xs ++ c ∷ ys)) + one_if (c == d) ≡ count d (xs ++ c ∷ ys)
unfolding count
count-swap_remove xs ys c d = elim (snoc_cases ys) [
  | inl e ↦ rw (e, swap_remove-end xs c) (omega (arith, count-append d xs (c ∷ [])))
  | inr (zs, l, e) ↦
      rw (e, swap_remove-middle xs zs c l)
        (omega (
          arith,
          count-append d xs (l ∷ zs),
          count-append d xs (c ∷ (zs ++ l ∷ [])),
          count-append d zs (l ∷ []),
        ))
]

position_cases :
    (c : ℕ) (cs : List ℕ)
    → ((position c cs ≡ none) × (count c cs ≡ 0))
      ⊎ ((xs : List ℕ) × (ys : List ℕ) × (cs ≡ xs ++ c ∷ ys) × (position c cs ≡ some (length xs)))
unfolding position count
position_cases c [] = inl (refl, refl)
position_cases c (d ∷ ds) = elim (Bool-cases (d == c)) [
  | inl same ↦ inr ([], ds, ap (λ x. x ∷ ds) ((==_iff d c).0 same), rw same)
  | inr other ↦ elim (position_cases c ds) [
    | inl (gone, zero_count) ↦ inl (rw (other, gone), rw (other, zero_count))
    | inr (xs, ys, e, found) ↦ inr (d ∷ xs, ys, ap (λ t. d ∷ t) e, rw (other, found))
  ]
]

-- What the list and the error are after a removal.
abbrev pub IsTakenOut : ℕ → List ℕ → Option PromError × List ℕ → Type 0
IsTakenOut c cs (none, ds) = (d : ℕ) → count d ds + one_if (c == d) ≡ count d cs
IsTakenOut c cs (some e, ds) = (e ≡ could_not_find_counter) × (ds ≡ cs) × (count c cs ≡ 0)

-- When Prometheus has unregistered a collector, it is taken out of the list once, if it is in the
-- list, and each other stays in it as often as it was; if it is not, the list is as before and the
-- error is that it could not be found.
pub unregister_prom_collector-IsTakenOut :
    (c : ℕ) (cs : List ℕ) → IsTakenOut c cs (unregister_prom_collector true c cs)
unfolding unregister_prom_collector
unregister_prom_collector-IsTakenOut c cs = elim (position_cases c cs) [
  | inl (gone, no_count) ↦ rw gone (refl, refl, no_count)
  | inr (xs, ys, e, found) ↦ rw found (λ d.
      subst (λ t. count d (swap_remove (length xs) t) + one_if (c == d) ≡ count d t) (sym e)
        (count-swap_remove xs ys c d))
]
