-- ===== src/Values/Units.antt =====
-- frontend/src/lib/units.ts: durations and sizes with their units, for whole amounts.
-- `Math.round` of a whole number is that number.
use native.Mathlib.Nat.{div-add-mod'}
use sqlwarden.Common.{
  ◌/◌, ℕ, List, [], ◌∷◌, ◌≤◌, ◌≡◌, if◌then◌else◌, ◌*◌, refl, not, ◌%◌, arith, Bool-cases, ◌==◌,
  ◌&&◌, inl, inr, nat_eq, All, All-weaken, subst, sym,
}

pub data DurationUnit : Type 0 where
  seconds minutes hours days : DurationUnit

unfoldable pub duration_unit_seconds : DurationUnit → ℕ
duration_unit_seconds seconds = 1
duration_unit_seconds minutes = 60
duration_unit_seconds hours = 3600
duration_unit_seconds days = 86400

abbrev pub duration_units_largest_first : List DurationUnit
duration_units_largest_first = days ∷ hours ∷ minutes ∷ seconds ∷ []

pub data ByteUnit : Type 0 where
  bytes kb mb gb : ByteUnit

unfoldable pub byte_unit_bytes : ByteUnit → ℕ
byte_unit_bytes bytes = 1
byte_unit_bytes kb = 1024
byte_unit_bytes mb = 1024 * 1024
byte_unit_bytes gb = 1024 * 1024 * 1024

abbrev pub byte_units_largest_first : List ByteUnit
byte_units_largest_first = gb ∷ mb ∷ kb ∷ bytes ∷ []

-- The loop of `secondsToDuration` and `bytesToSize`: the first unit that divides, else the base unit.
unfoldable pub pick_unit {ℓ} : {U : Type ℓ} → (U → ℕ) → U → List U → ℕ → ℕ × U
pick_unit factor base [] total = (total, base)
pick_unit factor base (u ∷ us) total =
    if not (total == 0) && total % factor u == 0
    then (total / factor u, u)
    else pick_unit factor base us total

unfoldable pub seconds_to_duration : ℕ → ℕ × DurationUnit
seconds_to_duration total_seconds =
    pick_unit duration_unit_seconds seconds duration_units_largest_first total_seconds

unfoldable pub duration_to_seconds : ℕ → DurationUnit → ℕ
duration_to_seconds amount unit = amount * duration_unit_seconds unit

unfoldable pub bytes_to_size : ℕ → ℕ × ByteUnit
bytes_to_size total_bytes = pick_unit byte_unit_bytes bytes byte_units_largest_first total_bytes

unfoldable pub size_to_bytes : ℕ → ByteUnit → ℕ
size_to_bytes amount unit = amount * byte_unit_bytes unit

exact : (n d : ℕ) → n % d ≡ 0 → (n / d) * d ≡ n
exact n d e = omega (arith, div-add-mod' n d)

pick_unit-exact {ℓ} :
    {U : Type ℓ} (factor : U → ℕ) (base : U) (us : List U) (total : ℕ)
    → factor base ≡ 1
    → (pick_unit factor base us total).0 * factor (pick_unit factor base us total).1 ≡ total
unfolding pick_unit
pick_unit-exact factor base [] total b = ground (arith, b)
pick_unit-exact factor base (u ∷ us) total b =
    elim (Bool-cases (not (total == 0) && total % factor u == 0)) [
      | inl k ↦ rw (pick_unit, k) (exact total (factor u) (ground arith))
      | inr k ↦ rw (pick_unit, k) (pick_unit-exact factor base us total b)
    ]

-- Largest first, so that no unit that divides the total is larger than the one picked.
abbrev IsFirst {ℓ} : {U : Type ℓ} → (U → ℕ) → List U → Type 0
IsFirst factor [] = Unit
IsFirst factor (u ∷ us) = All (λ v. factor v ≤ factor u) us × IsFirst factor us

abbrev Undivided {ℓ} : {U : Type ℓ} → ℕ → (U → ℕ) → U → List U → Type 0
Undivided total factor chosen us = All (λ u. total % factor u ≡ 0 → factor u ≤ factor chosen) us

pick_unit-largest {ℓ} :
    {U : Type ℓ} (factor : U → ℕ) (base : U) (us : List U) (total : ℕ)
    → 1 ≤ total
    → IsFirst factor us
    → Undivided total factor (pick_unit factor base us total).1 us
unfolding pick_unit
pick_unit-largest factor base [] total p h = tt
pick_unit-largest factor base (u ∷ us) total p (a, h) =
    elim (Bool-cases (not (total == 0) && total % factor u == 0)) [
      | inl k ↦
          let same : pick_unit factor base (u ∷ us) total ≡ (total / factor u, u) =
            rw (pick_unit, k) refl in
          subst (λ q. Undivided total factor q.1 (u ∷ us)) (sym same)
            (
              λ _. omega arith,
              All-weaken (λ v. factor v ≤ factor u)
                  (λ v. total % factor v ≡ 0 → factor v ≤ factor u) (λ v l _. l) us a,
            )
      | inr k ↦
          let same : pick_unit factor base (u ∷ us) total ≡ pick_unit factor base us total =
            rw (pick_unit, k) refl in
          subst (λ q. Undivided total factor q.1 (u ∷ us)) (sym same)
            (λ z. ground arith, pick_unit-largest factor base us total p h)
    ]

-- A duration shown with its unit is saved as the same number of seconds. The duration 0 is shown as
-- 0 seconds, and of any other one no unit that divides it is larger than the one shown.
pub seconds_to_duration-exact :
    (n : ℕ)
    → (duration_to_seconds (seconds_to_duration n).0 (seconds_to_duration n).1 ≡ n)
      × (n ≡ 0 → seconds_to_duration n ≡ (0, seconds))
      × (1 ≤ n
          → (u : DurationUnit) → n % duration_unit_seconds u ≡ 0
          → duration_unit_seconds u ≤ duration_unit_seconds (seconds_to_duration n).1)
unfolding duration_to_seconds seconds_to_duration duration_unit_seconds
seconds_to_duration-exact n = (
  pick_unit-exact duration_unit_seconds seconds duration_units_largest_first n refl,
  λ z. subst (λ k. seconds_to_duration k ≡ (0, seconds)) (sym z) (unfold pick_unit in refl),
  λ p u.
      let (d, (h, (m, (s, _)))) =
        pick_unit-largest duration_unit_seconds seconds duration_units_largest_first n p (
          (omega arith, (omega arith, (omega arith, tt))),
          ((omega arith, (omega arith, tt)), ((omega arith, tt), (tt, tt))),
        ) in
      elim u
        as (λ k.
          n % duration_unit_seconds k ≡ 0
          → duration_unit_seconds k ≤ duration_unit_seconds (seconds_to_duration n).1) [
            | seconds ↦ s
            | minutes ↦ m
            | hours ↦ h
            | days ↦ d
          ],
)

-- A size shown with its unit is saved as the same number of bytes, and no larger unit would do.
pub bytes_to_size-exact :
    (n : ℕ)
    → (size_to_bytes (bytes_to_size n).0 (bytes_to_size n).1 ≡ n)
      × (1 ≤ n
          → (u : ByteUnit) → n % byte_unit_bytes u ≡ 0
          → byte_unit_bytes u ≤ byte_unit_bytes (bytes_to_size n).1)
unfolding size_to_bytes bytes_to_size byte_unit_bytes
bytes_to_size-exact n = (
  pick_unit-exact byte_unit_bytes bytes byte_units_largest_first n refl,
  λ p u.
      let (d, (h, (m, (s, _)))) =
        pick_unit-largest byte_unit_bytes bytes byte_units_largest_first n p (
          (omega arith, (omega arith, (omega arith, tt))),
          ((omega arith, (omega arith, tt)), ((omega arith, tt), (tt, tt))),
        ) in
      elim u
        as (λ k.
          n % byte_unit_bytes k ≡ 0 → byte_unit_bytes k ≤ byte_unit_bytes (bytes_to_size n).1) [
            | bytes ↦ s
            | kb ↦ m
            | mb ↦ h
            | gb ↦ d
          ],
)
