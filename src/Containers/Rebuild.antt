-- ===== src/Containers/Rebuild.antt =====
-- bordercontrol/lib/containers/rebuild.go: the feed-in image is built anew.
use text.Mathlib.Text.{◌==◌}
use text.Mathlib.TextEquality.{eq_iff}
use bordercontrol.Prelude.{
  ℕ, ◌≡◌, refl, String, Bool, true, false, List, [], ◌∷◌, Option, none, some, Result, ok, err,
  if◌then◌else◌, arith, subst, sym, ok-injective, ◌↔◌, inl, inr, Bool-cases,
}

pub data RebuildError : Type 0 where
  not_initialised : RebuildError
  -- of the client of Docker, of the archive, or of the start of the build
  failed : ℕ → RebuildError
  -- the error that the last line of the build's log tells
  build_error : String → RebuildError

-- The last line and the error that `RebuildFeedInImage` returns, and whether it asked for a check of
-- the containers at once.
pub record Rebuilt : Type 0 where
  pub last_line : String
  pub error : Option RebuildError
  pub skips_delay : Bool

-- The loop over the log of the build.
unfoldable pub last_of : String → List String → String
last_of last [] = last
last_of last (l ∷ ls) = last_of l ls

abbrev pub fails : RebuildError → Rebuilt
fails e = record { last_line = ""; error = some e; skips_delay = false }

-- After the build, with the field `Error` of a line that is JSON, and otherwise "".
abbrev pub after_log : (String → String) → String → Rebuilt
after_log error_of line =
    if error_of line == ""
    then record { last_line = line; error = none; skips_delay = true }
    else record {
      last_line = line;
      error = some (build_error (error_of line));
      skips_delay = false;
    }

-- `client` and `tar` are errors; `build` is the log of a build that could be started.
unfoldable pub rebuild_feed_in_image :
    Bool → Option ℕ → Option ℕ → Result ℕ (List String) → (String → String) → Rebuilt
unfolding last_of
rebuild_feed_in_image false client tar build error_of = fails not_initialised
rebuild_feed_in_image true (some e) tar build error_of = fails (failed e)
rebuild_feed_in_image true none (some e) build error_of = fails (failed e)
rebuild_feed_in_image true none none (err e) error_of = fails (failed e)
rebuild_feed_in_image true none none (ok log) error_of = after_log error_of (last_of "" log)

-- The reply of `RebuildFeedInImageHandler`.
pub record RebuildReply : Type 0 where
  pub instance_name : String
  pub result : String
  pub data_text : String

abbrev pub rebuild_reply : String → (RebuildError → String) → Rebuilt → RebuildReply
rebuild_reply inst text r = elim r.error [
  | none ↦ record { instance_name = inst; result = "ok"; data_text = r.last_line }
  | some e ↦ record { instance_name = inst; result = "error"; data_text = text e }
]

-- The message may be for another instance; `text` is the text of an error.
unfoldable pub rebuild_feed_in_image_handler :
    Bool → String → (RebuildError → String) → Rebuilt → Option RebuildReply
rebuild_feed_in_image_handler for_us inst text r =
    if for_us then some (rebuild_reply inst text r) else none

-- What a rebuild needs for success.
abbrev pub IsBuilt :
    Bool → Option ℕ → Option ℕ → Result ℕ (List String) → (String → String) → Type 0
IsBuilt initialised client tar build error_of =
    (initialised ≡ true)
    × (client ≡ none)
    × (tar ≡ none)
    × (log : List String) × (build ≡ ok log)
    × (error_of (last_of "" log) ≡ "")

refuted :
    (log : List String) (error_of : String → String)
    → (error_of (last_of "" log) == "") ≡ false
    → IsBuilt true none none (ok log) error_of
    → ⊥
refuted log error_of bad (_, _, _, log', same, clean) =
    let clean' = subst (λ l. error_of (last_of "" l) ≡ "") (sym (ok-injective same)) clean in
    ground (arith, bad, (eq_iff (error_of (last_of "" log)) "").1 clean')

-- `RebuildFeedInImage` asks for a check of the containers at once exactly if the package is
-- initialised, Docker can be reached, the archive is made, the build starts, and the last line of its
-- log tells no error; and then, and only then, it returns no error.
pub rebuild_feed_in_image_iff :
    (initialised : Bool) (client tar : Option ℕ) (build : Result ℕ (List String))
    (error_of : String → String)
    → let r = rebuild_feed_in_image initialised client tar build error_of in
      ((r.skips_delay ≡ true) ↔ IsBuilt initialised client tar build error_of)
      × ((r.error ≡ none) ↔ IsBuilt initialised client tar build error_of)
unfolding rebuild_feed_in_image
rebuild_feed_in_image_iff false client tar build error_of = ((λ h. cc, λ h. cc), (λ h. cc, λ h. cc))
rebuild_feed_in_image_iff true (some e) tar build error_of =
    ((λ h. cc, λ h. cc), (λ h. cc, λ h. cc))
rebuild_feed_in_image_iff true none (some e) build error_of =
    ((λ h. cc, λ h. cc), (λ h. cc, λ h. cc))
rebuild_feed_in_image_iff true none none (err e) error_of = ((λ h. cc, λ h. cc), (λ h. cc, λ h. cc))
rebuild_feed_in_image_iff true none none (ok log) error_of =
    let line = last_of "" log in
    let known = eq_iff (error_of line) "" in
    elim (Bool-cases (error_of line == "")) [
      | inl good ↦
          let clean = known.0 good in
          rw good (
            (λ h. (refl, refl, refl, log, refl, clean), λ h. refl),
            (λ h. (refl, refl, refl, log, refl, clean), λ h. refl),
          )
      | inr bad ↦
          let no = refuted log error_of bad in
          rw bad ((λ h. cc, λ b. absurd (no b)), (λ h. cc, λ b. absurd (no b)))
    ]
