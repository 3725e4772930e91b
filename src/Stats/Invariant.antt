-- ===== src/Stats/Invariant.antt =====
-- The invariant of the statistics.
use bordercontrol.Prelude.{ℕ, ◌<◌, ◌≡◌, true, some, ltb, length, arith, ◌==◌, inl, inr, Bool-cases}
use bordercontrol.GoMap.{Map, lookup, insert, delete}
use bordercontrol.GoMap.Laws.{
  IsUnique, IsUnique-insert, IsUnique-delete, lookup-insert, lookup-delete,
}
use bordercontrol.FeedProtocol.{is_valid}
use bordercontrol.Stats.State.{
  ConnectionDetail, ProtocolDetail, FeederStats, Statistics, uint64_mod,
}

-- Both byte counters of a connection are uint64 values.
abbrev pub IsCounted : ConnectionDetail → Type 0
IsCounted c = (c.bytes_in < uint64_mod) × (c.bytes_out < uint64_mod)

-- `ConnectionCount` is the number of connections, and `Status` says whether there is one.
pub record IsDetail (d : ProtocolDetail) : Type 0 where
  pub distinct : IsUnique d.connection_details
  pub count : d.connection_count ≡ length d.connection_details
  pub live : d.status ≡ ltb 0 (length d.connection_details)
  pub counted :
      (n : ℕ) (c : ConnectionDetail) → lookup n d.connection_details ≡ some c → IsCounted c

-- A feeder has an entry for each protocol, and for nothing else.
pub record IsFeeder (m : Map ProtocolDetail) : Type 0 where
  pub complete : (p : ℕ) → is_valid p ≡ true → (d : ProtocolDetail) × (lookup p m ≡ some d)
  pub only : (p : ℕ) (d : ProtocolDetail) → lookup p m ≡ some d → is_valid p ≡ true
  pub details : (p : ℕ) (d : ProtocolDetail) → lookup p m ≡ some d → IsDetail d

pub record IsFeeders (m : Map FeederStats) : Type 0 where
  pub distinct : IsUnique m
  pub each : (k : ℕ) (f : FeederStats) → lookup k m ≡ some f → IsFeeder f.connections

pub record IsValid (s : Statistics) : Type 0 where
  pub feeders : IsFeeders s.feeders
  pub beast : (s.bytes_in_beast < uint64_mod) × (s.bytes_out_beast < uint64_mod)
  pub mlat : (s.bytes_in_mlat < uint64_mod) × (s.bytes_out_mlat < uint64_mod)

pub IsFeeders-insert :
    (k : ℕ) (f : FeederStats) (m : Map FeederStats)
    → IsFeeder f.connections
    → IsFeeders m
    → IsFeeders (insert k f m)
IsFeeders-insert k f m vf v = record {
  distinct = IsUnique-insert k f m v.distinct;
  each = λ j g h. ground (arith, lookup-insert k j f m, v.each j g);
}

pub IsFeeders-delete : (k : ℕ) (m : Map FeederStats) → IsFeeders m → IsFeeders (delete k m)
IsFeeders-delete k m v = record {
  distinct = IsUnique-delete k m v.distinct;
  each = λ j g h. ground (arith, lookup-delete k j m, v.each j g);
}

complete-insert :
    (p q : ℕ) (d : ProtocolDetail) (m : Map ProtocolDetail)
    → ((e : ProtocolDetail) × (lookup q m ≡ some e))
    → (e : ProtocolDetail) × (lookup q (insert p d m) ≡ some e)
complete-insert p q d m (e, h) = elim (Bool-cases (p == q)) [
  | inl same ↦ (d, rw (lookup-insert p q d m, same))
  | inr other ↦ (e, rw (lookup-insert p q d m, other) h)
]

pub IsFeeder-insert :
    (p : ℕ) (d : ProtocolDetail) (m : Map ProtocolDetail)
    → is_valid p ≡ true
    → IsDetail d
    → IsFeeder m
    → IsFeeder (insert p d m)
IsFeeder-insert p d m known vd v = record {
  complete = λ q h. complete-insert p q d m (v.complete q h);
  only = λ q e h. ground (arith, lookup-insert p q d m, v.only q e);
  details = λ q e h. ground (arith, lookup-insert p q d m, v.details q e);
}
