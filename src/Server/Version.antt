-- ===== src/Server/Version.antt =====
-- bordercontrol/cmd/bordercontrol/main.go: `getRepoInfo`, which reads the version of the program from
-- what the build left in it.
use text.Mathlib.Text.{◌==◌}
use bordercontrol.Prelude.{
  ℕ, zero, suc, ◌≤◌, ◌≡◌, refl, String, List, [], ◌∷◌, Option, none, some, leb, length, take,
  if◌then◌else◌, if_elim, arith, codes,
}

-- The settings of `debug.ReadBuildInfo`: keys and values.
abbrev pub Settings : Type 0
Settings = List (String × List ℕ)

-- The loop over the settings; the last value that is long enough stays.
unfoldable pub commit_hash : Settings → List ℕ → List ℕ
commit_hash [] hash = hash
commit_hash ((key, value) ∷ rest) hash =
    let skipped = commit_hash rest hash in
    let found = commit_hash rest (take 7 value) in
    if key == "vcs.revision" then (if leb 7 (length value) then found else skipped) else skipped

unfoldable pub commit_time : Settings → List ℕ → List ℕ
commit_time [] time = time
commit_time ((key, value) ∷ rest) time =
    let skipped = commit_time rest time in
    let found = commit_time rest value in if key == "vcs.time" then found else skipped

unfoldable pub get_repo_info : Option Settings → List ℕ × List ℕ
get_repo_info none = (codes "unknown", codes "unknown")
get_repo_info (some settings) =
    (commit_hash settings (codes "unknown"), commit_time settings (codes "unknown"))

length-take : (n : ℕ) (cs : List ℕ) → n ≤ length cs → length (take n cs) ≡ n
length-take zero cs h = refl
length-take (suc n) [] h = omega arith
length-take (suc n) (c ∷ cs) h = omega (arith, length-take n cs (omega arith))

length-commit_hash :
    (settings : Settings) (hash : List ℕ) → length hash ≡ 7 → length (commit_hash settings hash) ≡ 7
unfolding commit_hash
length-commit_hash [] hash h = h
length-commit_hash ((key, value) ∷ rest) hash h =
    if_elim (λ (x : List ℕ). length x ≡ 7) (key == "vcs.revision")
      (λ _.
        if_elim (λ (x : List ℕ). length x ≡ 7) (leb 7 (length value))
          (λ long.
            length-commit_hash rest (take 7 value) (length-take 7 value (ground (arith, long))))
          (λ _. length-commit_hash rest hash h))
      (λ _. length-commit_hash rest hash h)

-- The hash that is shown has seven characters, whatever the build left.
pub length-get_repo_info : (info : Option Settings) → length (get_repo_info info).0 ≡ 7
unfolding get_repo_info
length-get_repo_info none = refl
length-get_repo_info (some settings) = length-commit_hash settings (codes "unknown") refl
