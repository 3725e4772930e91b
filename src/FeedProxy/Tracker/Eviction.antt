-- ===== src/FeedProxy/Tracker/Eviction.antt =====
-- The loop of `evict` over its slice, compared with a filter.
use bordercontrol.Prelude.{
  ℕ, suc, ◌+◌, ◌≡◌, refl, List, [], ◌∷◌, ◌++◌, some, ap, sym, ◌∙◌, if◌then◌else◌, length, arith,
  Bool-cases, inl, inr, get_elem?, set, get_elem?-append, set-append, take-append, length-append,
}
use mathlib.Core.List.{append_assoc, append-nil}
use bordercontrol.FeedProxy.Tracker.{
  IncomingConnection, IncomingConnectionTracker, is_recent, evict_loop, evict,
}

-- The connections that are recent when they are read, in their order.
unfoldable pub kept : (ℕ → ℕ) → ℕ → List IncomingConnection → List IncomingConnection
kept clock j [] = []
kept clock j (c ∷ cs) =
    let rest = kept clock (j + 1) cs in if is_recent (clock j) c then c ∷ rest else rest

evict_loop-suc :
    (clock : ℕ → ℕ) (rounds j i : ℕ) (xs : List IncomingConnection) {c : IncomingConnection}
    → get_elem? xs j ≡ some c
    → evict_loop clock (suc rounds) j i xs ≡ (
        if is_recent (clock j) c
        then evict_loop clock rounds (j + 1) (i + 1) (set xs i c)
        else evict_loop clock rounds (j + 1) i xs)
unfolding evict_loop
evict_loop-suc clock rounds j i xs e = rw (e, evict_loop)

-- A write at the end of `front` moves the first leftover out of the slice.
set_front :
    (front junk rest : List IncomingConnection) (c : IncomingConnection)
    → (junk' : List IncomingConnection) × (set (front ++ (junk ++ c ∷ rest)) (length front) c
        ≡ (front ++ c ∷ []) ++ (junk' ++ rest))
      × (length junk' ≡ length junk)
set_front front [] rest c =
    ([], set-append front c c rest ∙ sym (append_assoc front (c ∷ []) rest), refl)
set_front front (y ∷ ys) rest c = (
  ys ++ c ∷ [],
  set-append front y c (ys ++ c ∷ rest)
      ∙ rw (append_assoc ys (c ∷ []) rest) (sym (append_assoc front (c ∷ []) (ys ++ c ∷ rest))),
  omega (arith, length-append ys (c ∷ [])),
)

read_front :
    (front junk rest xs : List IncomingConnection) (c : IncomingConnection) (j : ℕ)
    → j ≡ length front + length junk
    → xs ≡ front ++ (junk ++ c ∷ rest)
    → get_elem? xs j ≡ some c
read_front front junk rest xs c j hj hx =
    rw (hx, hj ∙ sym (length-append front junk), ← append_assoc front junk (c ∷ rest))
      (get_elem?-append (front ++ junk) c rest)

-- After some rounds the slice holds the connections that are kept, then leftovers, then what has
-- not been read.
evict_loop_inv :
    (clock : ℕ → ℕ) (front junk rest xs : List IncomingConnection) (j i : ℕ)
    → j ≡ length front + length junk
    → i ≡ length front
    → xs ≡ front ++ (junk ++ rest)
    → evict_loop clock (length rest) j i xs ≡ front ++ kept clock j rest
unfolding evict_loop kept
evict_loop_inv clock front junk [] xs j i hj hi hx =
    rw (hx, hi) (take-append front (junk ++ []) ∙ sym (append-nil front))
evict_loop_inv clock front junk (c ∷ rest) xs j i hj hi hx =
    evict_loop-suc clock (length rest) j i xs (read_front front junk rest xs c j hj hx)
    ∙ elim (Bool-cases (is_recent (clock j) c)) [
      | inl recent ↦
          let (junk', e, l) = set_front front junk rest c in
          rw recent (
            evict_loop_inv clock (front ++ c ∷ []) junk' rest (set xs i c) (j + 1) (i + 1)
              (omega (arith, length-append front (c ∷ [])))
              (omega (arith, length-append front (c ∷ []))) (rw (hx, hi) e)
            ∙ append_assoc front (c ∷ []) (kept clock (j + 1) rest))
      | inr old ↦ rw old (
          evict_loop_inv clock front (junk ++ c ∷ []) rest xs (j + 1) i
            (omega (arith, length-append junk (c ∷ []))) hi
            (hx ∙ ap (λ t. front ++ t) (sym (append_assoc junk (c ∷ []) rest))))
    ]

-- The loop over the slice in place leaves the connections whose ten seconds had not passed at the
-- time of their round, in their order, and nothing else.
pub evict-kept :
    (clock : ℕ → ℕ) (t : IncomingConnectionTracker)
    → (evict clock t).connections ≡ kept clock 0 t.connections
unfolding evict
evict-kept clock t =
    evict_loop_inv clock [] [] t.connections t.connections 0 0 (omega arith) (omega arith) refl
