-- ===== src/Stats/Api/Answers.antt =====
-- Which requests for one feeder are answered.
use bordercontrol.Prelude.{
  ℕ, ◌≡◌, refl, ap, sym, subst, ◌∙◌, ◌↔◌, inl, inr, true, false, List, [], ◌∷◌, ◌++◌, map, Option,
  none, some, Result, ok, err, Result-cases, arith, Bool-cases, Option-cases, ==_iff,
  some-injective,
}
use bordercontrol.GoMap.{lookup}
use bordercontrol.FeedProtocol.{to_lower}
use bordercontrol.Stats.State.{FeederStats, Statistics}
use bordercontrol.Stats.Api.{
  Token, fits, match_uuid, before, match_at, find_uuid, is_end, ends_well, strip,
  single_feeder_prefix, match_rest, match_url_single_feeder, bad_request, internal_server_error,
  json, written, feeder_response, keyed_response, api_return_single_feeder,
}

json-injective : {a b : List ℕ} → json a ≡ json b → a ≡ b
json-injective h = cc

-- A text that an expression fits, character by character.
abbrev pub Fits : List Token → List ℕ → Type 0
Fits [] [] = Unit
Fits [] (c ∷ cs) = ⊥
Fits (t ∷ ts) [] = ⊥
Fits (t ∷ ts) (c ∷ cs) = (fits t c ≡ true) × Fits ts cs

match_at-Fits :
    (ts : List Token) (u rest : List ℕ) → Fits ts u → match_at ts (u ++ rest) ≡ some (u, rest)
unfolding match_at
match_at-Fits [] [] rest h = refl
match_at-Fits [] (c ∷ cs) rest h = absurd h
match_at-Fits (t ∷ ts) [] rest h = absurd h
match_at-Fits (t ∷ ts) (c ∷ cs) rest h = rw h.0 (rw (match_at-Fits ts cs rest h.1))

before-some :
    (c : ℕ) (o : Option (List ℕ × List ℕ)) {u rest : List ℕ}
    → before c o ≡ some (u, rest)
    → (v : List ℕ) × (o ≡ some (v, rest)) × (u ≡ c ∷ v)
before-some c none h = cc
before-some c (some (v, others)) h = (v, ground arith, ground arith)

-- A match, taken apart.
abbrev IsMatch : List Token → List ℕ → List ℕ × List ℕ → Type 0
IsMatch ts cs (u, rest) = (cs ≡ u ++ rest) × Fits ts u

match_at-some :
    (ts : List Token) (cs u rest : List ℕ)
    → match_at ts cs ≡ some (u, rest)
    → IsMatch ts cs (u, rest)
unfolding match_at
match_at-some [] cs u rest h =
    subst (IsMatch [] cs) (some-injective {a = ([], cs)} {b = (u, rest)} h) (refl, tt)
match_at-some (t ∷ ts) [] u rest h = cc
match_at-some (t ∷ ts) (c ∷ cs) u rest h = elim (Bool-cases (fits t c)) [
  | inr other ↦
      let absent : ◌≡◌ {A = Option (List ℕ × List ℕ)} none (some (u, rest)) = rw other at h in cc
  | inl same ↦
      let (v, found, e) = before-some c (match_at ts cs) (rw same at h) in
      let (split, fit) = match_at-some ts cs v rest found in
      subst (λ w. IsMatch (t ∷ ts) (c ∷ cs) (w, rest)) (sym e)
        (ap (λ xs. c ∷ xs) split, (same, fit))
]

find_uuid-found :
    (c : ℕ) (cs u rest : List ℕ)
    → match_at match_uuid (c ∷ cs) ≡ some (u, rest)
    → find_uuid (c ∷ cs) ≡ u
unfolding find_uuid
find_uuid-found c cs u rest h = rw (h, find_uuid)

find_uuid-Fits : (u rest : List ℕ) → Fits match_uuid u → find_uuid (u ++ rest) ≡ u
find_uuid-Fits [] rest h = absurd h
find_uuid-Fits (c ∷ cs) rest h =
    find_uuid-found c (cs ++ rest) (c ∷ cs) rest (match_at-Fits match_uuid (c ∷ cs) rest h)

-- No match starts inside the prefix.
find_uuid-prefix :
    (u rest : List ℕ) → Fits match_uuid u → find_uuid (single_feeder_prefix ++ (u ++ rest)) ≡ u
unfolding find_uuid match_at fits
find_uuid-prefix u rest h = find_uuid-Fits u rest h

strip-append : (ps cs : List ℕ) → strip ps (ps ++ cs) ≡ some cs
unfolding strip
strip-append [] cs = refl
strip-append (p ∷ ps) cs = ground (arith, strip-append ps cs)

strip-some : (ps cs : List ℕ) {rest : List ℕ} → strip ps cs ≡ some rest → cs ≡ ps ++ rest
unfolding strip
strip-some [] cs h = ground arith
strip-some (p ∷ ps) [] h = cc
strip-some (p ∷ ps) (c ∷ cs) {rest} h = ground (arith, strip-some ps cs {rest = rest}, ==_iff p c)

-- A path of the API, in small letters, with the UUID in it.
abbrev pub IsFeederPath : List ℕ → List ℕ → Type 0
IsFeederPath path u =
    (rest : List ℕ) × (path ≡ single_feeder_prefix ++ (u ++ rest))
    × Fits match_uuid u
    × (is_end rest ≡ true)

ends_well-some :
    (o : Option (List ℕ × List ℕ))
    → ends_well o ≡ true
    → (u : List ℕ) × (rest : List ℕ) × (o ≡ some (u, rest)) × (is_end rest ≡ true)
ends_well-some none h = cc
ends_well-some (some (u, rest)) h = (u, rest, refl, h)

match_url-IsFeederPath :
    (path : List ℕ) → match_url_single_feeder path ≡ true → (u : List ℕ) × IsFeederPath path u
unfolding match_url_single_feeder
match_url-IsFeederPath path h = elim (Option-cases (strip single_feeder_prefix path)) [
  | inl gone ↦ let wrong : false ≡ true = rw gone at h in cc
  | inr (cs, found) ↦
      let (u, rest, match, ending) = ends_well-some (match_at match_uuid cs) (rw found at h) in
      let (split, fit) = match_at-some match_uuid cs u rest match in
      (
        u,
        (
          rest,
          strip-some single_feeder_prefix path found ∙ ap (λ xs. single_feeder_prefix ++ xs) split,
          fit,
          ending,
        ),
      )
]

IsFeederPath-match_url :
    (path u : List ℕ)
    → IsFeederPath path u
    → (match_url_single_feeder path ≡ true) × (find_uuid path ≡ u)
unfolding match_url_single_feeder
IsFeederPath-match_url path u (rest, e, fit, ending) =
    subst (λ xs. (match_url_single_feeder xs ≡ true) × (find_uuid xs ≡ u)) (sym e)
      (
        ap match_rest (strip-append single_feeder_prefix (u ++ rest))
            ∙ ap ends_well (match_at-Fits match_uuid u rest fit)
            ∙ ending,
        find_uuid-prefix u rest fit,
      )

keyed_response-json :
    (marshal : FeederStats → Result ℕ (List ℕ)) (s : Statistics) (r : Result ℕ ℕ) (body : List ℕ)
    → keyed_response marshal s r ≡ json body
    → (k : ℕ) × (f : FeederStats) × (r ≡ ok k)
      × (lookup k s.feeders ≡ some f)
      × (marshal f ≡ ok body)
keyed_response-json marshal s (err e) body h = cc
keyed_response-json marshal s (ok k) body h = elim (Option-cases (lookup k s.feeders)) [
  | inl gone ↦ let wrong : bad_request ≡ json body = rw gone at h in cc
  | inr (f, found) ↦
      let here : written (marshal f) ≡ json body = rw found at h in
      elim (Result-cases (marshal f)) [
        | inl (b, e) ↦
            let same : json b ≡ json body = rw e at here in
            (k, f, refl, found, e ∙ ap ok (json-injective same))
        | inr (x, e) ↦ let wrong : internal_server_error ≡ json body = rw e at here in cc
      ]
]

-- A request for one feeder is answered with a body exactly if its path, in small letters, is that
-- of the API with a UUID, and perhaps a slash after it, the UUID parses to a key, and the key is
-- that of a feeder in the statistics, which marshals to the body.
pub api_return_single_feeder_iff :
    (parse : List ℕ → Result ℕ ℕ) (marshal : FeederStats → Result ℕ (List ℕ)) (path : List ℕ)
    (s : Statistics) (body : List ℕ)
    → (api_return_single_feeder parse marshal path s ≡ json body) ↔ (
        (u : List ℕ) × (k : ℕ) × (f : FeederStats) × IsFeederPath (map to_lower path) u
        × (parse u ≡ ok k)
        × (lookup k s.feeders ≡ some f)
        × (marshal f ≡ ok body))
unfolding api_return_single_feeder
api_return_single_feeder_iff parse marshal path s body = (
  λ h. elim (Bool-cases (match_url_single_feeder (map to_lower path))) [
    | inr other ↦ let wrong : bad_request ≡ json body = rw other at h in cc
    | inl same ↦
        let (u, shape) = match_url-IsFeederPath (map to_lower path) same in
        let (_, found) = IsFeederPath-match_url (map to_lower path) u shape in
        let answered : keyed_response marshal s (parse (find_uuid (map to_lower path)))
            ≡ json body =
          rw same at h in
        let (k, f, parsed, there, marshalled) =
          keyed_response-json marshal s (parse (find_uuid (map to_lower path))) body answered in
        (u, k, f, shape, ap parse (sym found) ∙ parsed, there, marshalled)
  ],
  λ (u, k, f, shape, parsed, there, marshalled).
      let (same, found) = IsFeederPath-match_url (map to_lower path) u shape in
      rw same (
        ap (λ v. keyed_response marshal s (parse v)) found
        ∙ ap (keyed_response marshal s) parsed
        ∙ ap (feeder_response marshal) there
        ∙ ap written marshalled),
)
