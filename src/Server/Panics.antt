-- ===== src/Server/Panics.antt =====
-- When `listenWithContext` panics.
use bordercontrol.Prelude.{
  ℕ, ◌≡◌, refl, Bool, List, [], ◌∷◌, Option, Outcome, returns, panics, if_elim, arith, ◌==◌, inl,
  inr, Bool-cases,
}
use bordercontrol.Listener.{Listener, AtoiError, split, listener_at, new_listener}
use bordercontrol.Listener.Address.{Without}
use bordercontrol.Server.Listening.{Turn, Attempt, before, turn, listen_with_context}

one_piece-Without : (sep : ℕ) (cs : List ℕ) → (split sep cs).1 ≡ [] → Without sep cs
unfolding split
one_piece-Without sep [] h = tt
one_piece-Without sep (c ∷ cs) h = elim (Bool-cases (c == sep)) [
  | inl same ↦ absurd (ground arith)
  | inr other ↦ (λ e. ground arith, one_piece-Without sep cs (ground arith))
]

-- A panic is for an address without a colon.
abbrev pub IsBare {ℓ} : {A : Type ℓ} → List ℕ → Outcome A → Type 0
IsBare addr (returns a) = Unit
IsBare addr panics = Without b':' addr

module _ (parse_ip : List ℕ → Option ℕ) (addr : List ℕ) (proto : ℕ) (prefix : List ℕ) (inner : ℕ)
    (initialised : Bool) where
  listener_at-IsBare :
      (pieces : List ℕ × List (List ℕ))
      → (pieces.1 ≡ [] → Without b':' addr)
      → IsBare addr (listener_at parse_ip proto prefix inner pieces)
  listener_at-IsBare (host, []) h = h refl
  listener_at-IsBare (host, port ∷ others) h = tt

  before-IsBare :
      (a : Attempt) (rest : Outcome (List Attempt)) → IsBare addr rest → IsBare addr (before a rest)
  before-IsBare a (returns xs) h = tt
  before-IsBare a panics h = h

  turn-IsBare :
      (t : Turn) (rest : Outcome (List Attempt)) (made : Outcome (Option AtoiError × Listener))
      → IsBare addr rest
      → IsBare addr made
      → IsBare addr (turn initialised t rest made)
  turn-IsBare t rest panics h m = m
  turn-IsBare t rest (returns (e, l)) h m =
      if_elim (IsBare addr) t.done (λ _. tt) (λ _. before-IsBare _ rest h)

  pub listen_with_context-IsBare :
      (turns : List Turn)
      → IsBare addr (listen_with_context parse_ip addr proto prefix inner initialised turns)
  unfolding listen_with_context new_listener
  listen_with_context-IsBare [] = tt
  listen_with_context-IsBare (t ∷ ts) =
      turn-IsBare t _ _ (listen_with_context-IsBare ts)
        (listener_at-IsBare (split b':' addr) (one_piece-Without b':' addr))
