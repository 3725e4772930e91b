-- ===== src/FeedProtocol/Names.antt =====
-- Protocols and their names: which numbers have one, and reading a name back.
use bordercontrol.Prelude.{
  ℕ, ◌≡◌, refl, ◌↔◌, ◌≢◌, inl, inr, ◌⊎◌, true, false, List, map, ok, err, returns, panics, arith,
  ◌==◌, ==_iff, Bool-cases, Result, none,
}
use bordercontrol.FeedProtocol.{
  beast, mlat, number, get_name, name_of, is_valid, to_lower, get_proto_from_name, marshal_json,
  unmarshal_json,
}

abbrev pub HasName : ℕ → List ℕ → Type 0
HasName p n =
    (is_valid p ≡ true)
    × (get_name p ≡ ok n)
    × (name_of p ≡ returns n)
    × (get_proto_from_name n ≡ ok p)
    × (get_proto_from_name (map to_lower n) ≡ ok p)

abbrev pub HasNoName : ℕ → Type 0
HasNoName p = (is_valid p ≢ true) × (get_name p ≡ err (number p)) × (name_of p ≡ panics)

beast-HasName : (n : List ℕ) × HasName beast n
unfolding name_of is_valid get_proto_from_name to_lower
beast-HasName = (_, (refl, refl, refl, refl, refl))

mlat-HasName : (n : List ℕ) × HasName mlat n
unfolding name_of is_valid get_proto_from_name to_lower
mlat-HasName = (_, (refl, refl, refl, refl, refl))

other-HasNoName : (p : ℕ) → (p == beast) ≡ false → (p == mlat) ≡ false → HasNoName p
unfolding name_of is_valid
other-HasNoName p h k = ground arith

pub is_valid_iff : (p : ℕ) → (is_valid p ≡ true) ↔ ((p ≡ beast) ⊎ (p ≡ mlat))
unfolding is_valid
is_valid_iff p = ground arith

-- A valid protocol has a name, which reads back as that protocol, in capitals and in small letters;
-- any other has none: `GetName` returns the error with its number and `Name` panics.
pub name-roundtrip : (p : ℕ) → ((n : List ℕ) × HasName p n) ⊎ HasNoName p
name-roundtrip p = elim (Bool-cases (p == beast)) [
  | inl h ↦ rw ((==_iff p beast).0 h) (inl beast-HasName)
  | inr h ↦ elim (Bool-cases (p == mlat)) [
    | inl k ↦ rw ((==_iff p mlat).0 k) (inl mlat-HasName)
    | inr k ↦ inr (other-HasNoName p h k)
  ]
]

pub is_valid-get_name : (p : ℕ) → is_valid p ≡ true → (n : List ℕ) × (get_name p ≡ ok n)
is_valid-get_name p h = elim (name-roundtrip p) [
  | inl (n, known) ↦ (n, known.1)
  | inr unknown ↦ absurd (unknown.0 h)
]

-- The JSON of a protocol with a name, and what is read from it.
abbrev pub HasJson : (List ℕ → List ℕ) → (List ℕ → Result ℕ (List ℕ)) → ℕ → ℕ → List ℕ → Type 0
HasJson encode decode p old n =
    (marshal_json encode p ≡ returns (encode n))
    × (unmarshal_json decode (encode n) old ≡ (none, p))

-- If JSON texts are read back as they were: a valid protocol has a name, which reads back as that
-- protocol, in capitals and in small letters, and its JSON is read as that protocol, whatever was
-- there before. Any other has none: `GetName` returns the error with its number, `Name` and
-- `MarshalJSON` panic.
pub json-roundtrip :
    (encode : List ℕ → List ℕ) (decode : List ℕ → Result ℕ (List ℕ))
    → ((n : List ℕ) → decode (encode n) ≡ ok n)
    → (p old : ℕ)
    → ((n : List ℕ) × HasName p n × HasJson encode decode p old n)
      ⊎ (HasNoName p × (marshal_json encode p ≡ panics))
unfolding marshal_json unmarshal_json
json-roundtrip encode decode back p old = elim (name-roundtrip p) [
  | inl (n, named) ↦ inl (n, named, (rw (named.2, marshal_json) refl, rw (back n, named.3) refl))
  | inr nameless ↦ inr (nameless, rw (nameless.2, marshal_json) refl)
]
