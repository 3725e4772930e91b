-- ===== src/Stunnel/Signals.antt =====
-- What a signal leads to.
use bordercontrol.Prelude.{
  ℕ, ◌≡◌, refl, sym, ap, ◌∙◌, true, false, List, [], ◌∷◌, ◌++◌, Result, ok, returns, ◌⊎◌, inl, inr,
  arith,
}
use mathlib.Core.List.{append_assoc}
use bordercontrol.Stunnel.{
  Server, new_server, maybe_reload, get_certificate, deliver, begin_close, Step, signals, messages,
  reloads, reloads_closed, stops, closes, cancels, Steps, here, onward,
}
use bordercontrol.Stunnel.Reloading.{last_loaded, get_certificate-last_loaded, Steps-append}

-- A step keeps the loads and loses no signal, or it loads once.
abbrev Moves : Server → Server → Type 0
Moves s t =
    ((s.pending ≡ true → t.pending ≡ true) × (t.loads ≡ s.loads))
    ⊎ ((load : Result ℕ ℕ) × (t.loads ≡ load ∷ s.loads))

deliver-Moves : {t : Server} (s : Server) → deliver s ≡ returns t → Moves s t
unfolding deliver
deliver-Moves s e = inl (λ h. ground arith, ground arith)

begin_close-Moves : {t : Server} (s : Server) → begin_close s ≡ returns t → Moves s t
unfolding begin_close
begin_close-Moves s e = inl (λ h. ground arith, ground arith)

Step-Moves : {s t : Server} → Step s t → Moves s t
unfolding maybe_reload
Step-Moves (signals s e) = deliver-Moves s e
Step-Moves (messages matches sent_to n s meant free e) = deliver-Moves s e
Step-Moves (reloads s load _ _) = inr (load, refl)
Step-Moves (reloads_closed s load _ _) = inr (load, refl)
Step-Moves (stops s _ _) = inl (λ h. h, refl)
Step-Moves (closes s e) = begin_close-Moves s e
Step-Moves (cancels s) = inl (λ h. h, refl)

Steps-loads : {s t : Server} → Steps s t → (xs : List (Result ℕ ℕ)) × (t.loads ≡ xs ++ s.loads)
Steps-loads (here s) = ([], refl)
Steps-loads (onward st rest) =
    let (xs, e) = Steps-loads rest in
    elim (Step-Moves st) [
      | inl (_, same) ↦ (xs, e ∙ ap (λ l. xs ++ l) same)
      | inr (load, more) ↦
          (xs ++ load ∷ [], e ∙ ap (λ l. xs ++ l) more ∙ sym (append_assoc xs (load ∷ []) _))
    ]

-- A signal that waits no more has led to a load.
Steps-taken :
    {s t : Server}
    → Steps s t
    → s.pending ≡ true
    → t.pending ≡ false
    → (later : List (Result ℕ ℕ)) × (load : Result ℕ ℕ) × (t.loads ≡ later ++ load ∷ s.loads)
Steps-taken (here s) waits taken = cc
Steps-taken (onward st rest) waits taken = elim (Step-Moves st) [
  | inl (kept, same) ↦
      let (later, load, e) = Steps-taken rest (kept waits) taken in
      (later, load, e ∙ ap (λ l. later ++ load ∷ l) same)
  | inr (load, more) ↦ let (xs, e) = Steps-loads rest in (xs, load, e ∙ ap (λ l. xs ++ l) more)
]

deliver-waits :
    {t : Server} (s : Server) → deliver s ≡ returns t → (t.pending ≡ true) × (t.loads ≡ s.loads)
unfolding deliver
deliver-waits s e = (ground arith, ground arith)

-- Whatever happens to a server from its start on: once the goroutine has taken a signal that was
-- delivered, it has loaded the certificate at least once since; and a client that connects gets the
-- newest that was loaded, a load that fails leaving the one before.
pub signal-last_loaded :
    (load : Result ℕ ℕ) {s u v t : Server}
    → new_server load ≡ ok s
    → Steps s u
    → deliver u ≡ returns v
    → Steps v t
    → t.pending ≡ false
    → (later : List (Result ℕ ℕ)) × (since : Result ℕ ℕ) × (t.loads ≡ later ++ since ∷ u.loads)
      × (get_certificate t ≡ last_loaded (later ++ since ∷ u.loads))
signal-last_loaded load started before delivered after taken =
    let (waits, same) = deliver-waits _ delivered in
    let (later, since, e) = Steps-taken after waits taken in
    let loads = e ∙ ap (λ l. later ++ since ∷ l) same in
    let steps = Steps-append before (onward (signals _ delivered) after) in
    (later, since, loads, get_certificate-last_loaded load started steps ∙ ap last_loaded loads)
