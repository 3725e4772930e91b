-- ===== src/Containers/Kick.antt =====
-- bordercontrol/lib/containers/kick.go: a feeder's container is removed when a message asks for it.
use bordercontrol.Prelude.{
  ℕ, ◌≡◌, refl, String, List, [], ◌∷◌, Option, none, some, Result, ok, err, ◌↔◌, ap, subst, sym,
  ok-injective,
}
use bordercontrol.Containers.{
  Container, ContainerError, multiple_containers_found, container_not_found, docker_error,
}

-- The error that `KickFeeder` returns, and the ID whose removal it asked for.
abbrev pub Kicked : Type 0
Kicked = Option ContainerError × Option String

abbrev pub after_removal : String → Option ℕ → Kicked
after_removal id none = (none, some id)
after_removal id (some e) = (some (docker_error e), some id)

-- With the list of the feeder's containers, running or not. Its error is not looked at: the list is
-- empty then.
abbrev pub after_find : (String → Option ℕ) → Result ℕ (List Container) → Kicked
after_find remove (err e) = (some container_not_found, none)
after_find remove (ok []) = (some container_not_found, none)
after_find remove (ok (c ∷ [])) = after_removal c.id (remove c.id)
after_find remove (ok (c ∷ d ∷ cs)) = (some multiple_containers_found, none)

unfoldable pub kick_feeder : Option ℕ → Result ℕ (List Container) → (String → Option ℕ) → Kicked
kick_feeder client found remove = elim client [
  | some e ↦ (some (docker_error e), none)
  | none ↦ after_find remove found
]

-- What a handler does with its message.
pub data MsgReply : Type 0 where
  terminated acked unanswered : MsgReply

abbrev after_kick : Kicked → MsgReply × Option String
after_kick (none, id) = (acked, id)
after_kick (some e, id) = (unanswered, id)

-- `KickFeederHandler`, with the key of the message and its search for the feeder's containers.
unfoldable pub kick_feeder_handler :
    Result ℕ String
    → (String → Option ℕ)
    → Option ℕ
    → (String → Result ℕ (List Container))
    → MsgReply × Option String
unfolding kick_feeder
kick_feeder_handler (err e) remove client find = (terminated, none)
kick_feeder_handler (ok key) remove client find = after_kick (kick_feeder client (find key) remove)

-- A removal that was asked for and answered without an error.
abbrev pub IsKick :
    (String → Option ℕ) → Option ℕ → Result ℕ (List Container) → String → Container → Type 0
IsKick remove client found id c =
    (client ≡ none) × (found ≡ ok (c ∷ [])) × (c.id ≡ id) × (remove c.id ≡ none)

after_removal-none :
    (x id : String) (r : Option ℕ) → after_removal x r ≡ (none, some id) → (x ≡ id) × (r ≡ none)
after_removal-none x id none h = (cc, refl)
after_removal-none x id (some e) h = cc

kick_feeder_kicks :
    (remove : String → Option ℕ) (client : Option ℕ) (found : Result ℕ (List Container))
    (id : String)
    → kick_feeder client found remove ≡ (none, some id)
    → (c : Container) × IsKick remove client found id c
unfolding kick_feeder
kick_feeder_kicks remove (some e) found id h = cc
kick_feeder_kicks remove none (err e) id h = cc
kick_feeder_kicks remove none (ok []) id h = cc
kick_feeder_kicks remove none (ok (c ∷ d ∷ cs)) id h = cc
kick_feeder_kicks remove none (ok (c ∷ [])) id h =
    let (same, gone) = after_removal-none c.id id (remove c.id) h in (c, (refl, refl, same, gone))

IsKick-kicked :
    (remove : String → Option ℕ) (client : Option ℕ) (found : Result ℕ (List Container))
    (id : String) (c : Container)
    → IsKick remove client found id c
    → kick_feeder client found remove ≡ (none, some id)
unfolding kick_feeder
IsKick-kicked remove client found id c (h, k, same, gone) = rw (h, k, gone, same)

after_kick-acked :
    (r : Kicked) (id : String) → after_kick r ≡ (acked, some id) → r ≡ (none, some id)
after_kick-acked (none, x) id h = cc
after_kick-acked (some e, x) id h = cc

-- The handler asks for the removal of a container and acknowledges the message exactly if the key of
-- the message can be read, Docker lists just that container for it, and it was removed.
pub kick_feeder_handler_iff :
    (key : Result ℕ String) (remove : String → Option ℕ) (client : Option ℕ)
    (find : String → Result ℕ (List Container)) (id : String)
    → (kick_feeder_handler key remove client find ≡ (acked, some id))
      ↔ ((k : String) × (c : Container) × (key ≡ ok k) × IsKick remove client (find k) id c)
unfolding kick_feeder_handler
kick_feeder_handler_iff (err e) remove client find id = (λ h. cc, λ h. cc)
kick_feeder_handler_iff (ok key) remove client find id = (
  λ h.
      let (c, kick) = kick_feeder_kicks remove client (find key) id (after_kick-acked _ id h) in
      (key, c, refl, kick),
  λ (k, c, same, kick).
      ap (λ r. after_kick r)
        (IsKick-kicked remove client (find key) id c
          (subst (λ x. IsKick remove client (find x) id c) (sym (ok-injective same)) kick)),
)
