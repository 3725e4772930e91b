-- ===== src/FeedProtocol.antt =====
-- bordercontrol/lib/feedprotocol/feedprotocol.go: the feed protocols and their names. A `Protocol`
-- is a uint8, so a number; texts that the code looks into are lists of code points.
pub mod Names
use bordercontrol.Prelude.{
  ℕ, Bool, true, false, List, map, Option, none, some, Result, ok, err, Outcome, returns, panics,
  ◌==◌, ◌&&◌, [], ◌∷◌, if◌then◌else◌, leb, ◌+◌, ◌-◌, codes,
}

abbrev pub beast : ℕ
beast = 1

abbrev pub mlat : ℕ
mlat = 2

abbrev pub protocol_name_beast : List ℕ
protocol_name_beast = codes "BEAST"

abbrev pub protocol_name_mlat : List ℕ
protocol_name_mlat = codes "MLAT"

-- `ErrUnknownProtocol`: of a number, or of a name.
pub data UnknownProtocol : Type 0 where
  number : ℕ → UnknownProtocol
  name : List ℕ → UnknownProtocol

unfoldable pub get_name : ℕ → Result UnknownProtocol (List ℕ)
get_name p =
    if p == beast
    then ok protocol_name_beast
    else if p == mlat
    then ok protocol_name_mlat
    else err (number p)

-- `(p *Protocol) Name()` panics where `GetName` has an error.
unfoldable pub name_of : ℕ → Outcome (List ℕ)
unfolding get_name
name_of p = elim (get_name p) [ ok n ↦ returns n | err e ↦ panics ]

-- The bytes of `MarshalText`.
unfoldable pub marshal_text : ℕ → Outcome (List ℕ)
unfolding name_of
marshal_text p = name_of p

unfoldable pub is_valid : ℕ → Bool
is_valid p = if p == beast then true else if p == mlat then true else false

-- `strings.ToUpper` and `strings.ToLower`, for the code points that they take to or from an ASCII
-- letter: beside the ASCII letters these are ı (0x131) and ſ (0x17f) upwards, and İ (0x130) and
-- K (0x212a) downwards. The code compares results with ASCII texts only, so the others are kept.
unfoldable pub to_upper : ℕ → ℕ
to_upper c =
    if leb b'a' c && leb c b'z'
    then c - 32
    else if c == 0x131
    then b'I'
    else if c == 0x17f
    then b'S'
    else c

unfoldable pub to_lower : ℕ → ℕ
to_lower c =
    if leb b'A' c && leb c b'Z'
    then c + 32
    else if c == 0x130
    then b'i'
    else if c == 0x212a
    then b'k'
    else c

unfoldable pub text_eq : List ℕ → List ℕ → Bool
text_eq [] [] = true
text_eq (a ∷ s) (b ∷ t) = a == b && text_eq s t
text_eq _ _ = false

unfoldable pub get_proto_from_name : List ℕ → Result UnknownProtocol ℕ
unfolding to_upper text_eq
get_proto_from_name n =
    let upper = map to_upper n in
    if text_eq upper protocol_name_beast
    then ok beast
    else if text_eq upper protocol_name_mlat
    then ok mlat
    else err (name n)

-- `MarshalJSON`; `encode` is the JSON of a text.
unfoldable pub marshal_json : (List ℕ → List ℕ) → ℕ → Outcome (List ℕ)
unfolding name_of
marshal_json encode p = elim (name_of p) [ returns n ↦ returns (encode n) | panics ↦ panics ]

pub data UnmarshalError : Type 0 where
  no_text : ℕ → UnmarshalError
  unknown_name : UnknownProtocol → UnmarshalError

-- `*p` is assigned also beside an error.
abbrev pub after_name : Result UnknownProtocol ℕ → Option UnmarshalError × ℕ
after_name (ok p) = (none, p)
after_name (err e) = (some (unknown_name e), 0)

abbrev pub after_text : ℕ → Result ℕ (List ℕ) → Option UnmarshalError × ℕ
after_text old (err e) = (some (no_text e), old)
after_text old (ok n) = after_name (get_proto_from_name n)

-- `UnmarshalJSON`: its error, and what the protocol is then; `decode` reads a text from JSON.
unfoldable pub unmarshal_json :
    (List ℕ → Result ℕ (List ℕ)) → List ℕ → ℕ → Option UnmarshalError × ℕ
unmarshal_json decode data_bytes old = after_text old (decode data_bytes)
