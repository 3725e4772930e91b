-- ===== src/Stats/Units.antt =====
-- bordercontrol/lib/stats/stats.go: the byte counts of the HTML page, of which the template engine
-- is left out. How `fmt.Sprintf` prints a number is an argument.
use bordercontrol.Prelude.{
  ℕ, ◌*◌, ◌^◌, ◌<◌, ◌≤◌, List, ◌++◌, ltb, if◌then◌else◌, arith, codes, Bool-cases, inl, inr,
}

-- `prefix`
pub data DataUnit : Type 0 where
  bytes kibibytes mebibytes gibibytes tebibytes : DataUnit

-- How often 1024 divides the number; it is also the number of decimals.
abbrev pub power : DataUnit → ℕ
power bytes = 0
power kibibytes = 1
power mebibytes = 2
power gibibytes = 3
power tebibytes = 4

unfoldable pub prefix : ℕ → DataUnit
prefix n =
    let k = if ltb 1_024 n then kibibytes else bytes in
    let m = if ltb 1_048_576 n then mebibytes else k in
    let g = if ltb 1_073_741_824 n then gibibytes else m in
    if ltb 1_099_511_627_776 n then tebibytes else g

abbrev pub letter : DataUnit → List ℕ
letter bytes = codes "B"
letter kibibytes = codes "K"
letter mebibytes = codes "M"
letter gibibytes = codes "G"
letter tebibytes = codes "T"

-- `print d u n` is `n` as a `float32`, divided `d` times by 1024, with that many decimals.
unfoldable pub human_readable_data_units : (ℕ → ℕ → List ℕ) → ℕ → List ℕ
human_readable_data_units print n = print (power (prefix n)) n ++ letter (prefix n)

-- The number is more than one of its unit, but for bytes, and at most 1024 of it, but for the
-- largest unit.
abbrev IsUnitOf : ℕ → DataUnit → Type 0
IsUnitOf n bytes = n ≤ 1024
IsUnitOf n tebibytes = 1024 ^ 4 < n
IsUnitOf n u = (1024 ^ power u < n) × (n ≤ 1024 ^ power u * 1024)

prefix-IsUnitOf : (n : ℕ) → IsUnitOf n (prefix n)
unfolding prefix
prefix-IsUnitOf n = elim (Bool-cases (ltb 1_099_511_627_776 n)) [
  | inl t ↦ rw t (ground (arith, t))
  | inr g ↦ rw g (elim (Bool-cases (ltb 1_073_741_824 n)) [
    | inl t ↦ rw t (ground (arith, t), ground (arith, g))
    | inr m ↦ rw m (elim (Bool-cases (ltb 1_048_576 n)) [
      | inl t ↦ rw t (ground (arith, t), ground (arith, m))
      | inr k ↦ rw k (elim (Bool-cases (ltb 1_024 n)) [
        | inl t ↦ rw t (ground (arith, t), ground (arith, k))
        | inr b ↦ rw b (ground (arith, b))
      ])
    ])
  ])
]
