-- ===== src/Stunnel/Closing.antt =====
-- bordercontrol/lib/stunnel/stunnel.go: `Close`, as steps of the server and its goroutine.
use bordercontrol.Prelude.{
  ℕ, ◌≡◌, refl, true, false, List, [], ◌∷◌, Result, returns, Bool-cases, inl, inr,
}
use bordercontrol.Stunnel.{
  Server, maybe_reload, begin_close, reload_until_done, close, reloads_closed, stops, closes, Steps,
  here, onward,
}

-- The channel is closed, and the goroutine has ended.
abbrev pub IsClosed : Server → Type 0
IsClosed s = (s.closed ≡ true) × (s.running ≡ false)

reload_until_done-IsClosed :
    (loads : List (Result ℕ ℕ)) (s : Server)
    → s.closed ≡ true
    → IsClosed (reload_until_done loads s)
unfolding reload_until_done maybe_reload
reload_until_done-IsClosed [] s h = (h, refl)
reload_until_done-IsClosed (load ∷ loads) s h =
    reload_until_done-IsClosed loads (maybe_reload load s) h

-- `Close` of a server that is not closed yet returns once its goroutine has ended.
pub close-IsClosed :
    (loads : List (Result ℕ ℕ)) (s : Server)
    → s.closed ≡ false
    → (t : Server) × (close loads s ≡ returns t) × IsClosed t
unfolding close begin_close
close-IsClosed loads s fresh =
    let s' = record s { closed = true; cancelled = true } in
    elim (Bool-cases s.running) [
      | inl runs ↦ (
        reload_until_done loads s',
        rw (fresh, runs) refl,
        reload_until_done-IsClosed loads s' refl,
      )
      | inr over ↦ (s', rw (fresh, over) refl, (refl, over))
    ]

reload_until_done-Steps :
    (loads : List (Result ℕ ℕ)) (s : Server)
    → s.running ≡ true
    → s.closed ≡ true
    → s.cancelled ≡ true
    → Steps s (reload_until_done loads s)
unfolding reload_until_done maybe_reload
reload_until_done-Steps [] s runs shut over = onward (stops s runs over) (here _)
reload_until_done-Steps (load ∷ loads) s runs shut over =
    onward (reloads_closed s load runs shut)
      (reload_until_done-Steps loads (maybe_reload load s) runs shut over)

-- What `Close` comes to is reached by steps of the server and its goroutine.
pub close-Steps :
    (loads : List (Result ℕ ℕ)) (s : Server)
    → s.closed ≡ false
    → (t : Server) × (close loads s ≡ returns t) × Steps s t
unfolding close begin_close
close-Steps loads s fresh =
    let s' = record s { closed = true; cancelled = true } in
    let begun = closes s (unfold begin_close in rw fresh refl) in
    elim (Bool-cases s.running) [
      | inl runs ↦ (
        reload_until_done loads s',
        rw (fresh, runs) refl,
        onward begun (reload_until_done-Steps loads s' runs refl refl),
      )
      | inr over ↦ (s', rw (fresh, over) refl, onward begun (here s'))
    ]
