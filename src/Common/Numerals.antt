-- ===== src/Common/Numerals.antt =====
-- Decimal numerals: how a template literal prints a number, and how `parseInt` reads one.
use Prim.Native.Nat.{ℕ, zero, suc, ◌+◌, ◌-◌, ◌*◌, ◌/◌, ◌%◌, ◌≤◌, ◌<◌}
use Prim.Native.String.{String, [], ◌∷◌}
use Prim.Native.Char.{Char, code}
use mathlib.Core.Path.{◌≡◌, refl, ap, ◌∙◌}
use mathlib.Core.Logic.{inl, inr}
use mathlib.Core.Bool.{Bool, true, false, ◌&&◌}
use mathlib.Core.Option.{Option, none, some}
use native.Mathlib.Omega.{arith}
use text.Mathlib.TextLemmas.{nil-append, cons-append}
use sqlwarden.Common.Texts.{◌<>◌}
use sqlwarden.Common.Tests.{if◌then◌else◌, nat_beq, nat_beq_iff, ltb, leb, Bool-cases}

abbrev digit : ℕ → Char
digit zero = "0"
digit (suc zero) = "1"
digit (suc (suc zero)) = "2"
digit (suc (suc (suc zero))) = "3"
digit (suc (suc (suc (suc zero)))) = "4"
digit (suc (suc (suc (suc (suc zero))))) = "5"
digit (suc (suc (suc (suc (suc (suc zero)))))) = "6"
digit (suc (suc (suc (suc (suc (suc (suc zero))))))) = "7"
digit (suc (suc (suc (suc (suc (suc (suc (suc zero)))))))) = "8"
digit n = "9"

-- The digits of a number before a text, on fuel.
unfoldable pub print_digits : ℕ → ℕ → String → String
print_digits zero n text = text
print_digits (suc fuel) n text =
    let next : String = digit (n % 10) ∷ text in
    let rest = print_digits fuel (n / 10) next in if ltb n 10 then next else rest

-- A number has no more digits than its successor counts.
unfoldable pub print_number : ℕ → String
print_number n = print_digits (suc n) n []

abbrev pub is_digit : Char → Bool
is_digit c = leb 48 (code c) && leb (code c) 57

-- The number that a text of digits goes on with; `none` if there is anything else in the text.
unfoldable pub read_digits : ℕ → String → Option ℕ
read_digits n [] = some n
read_digits n (c ∷ text) =
    let rest = read_digits (n * 10 + (code c - 48)) text in if is_digit c then rest else none

code-digit : (n : ℕ) → n < 10 → code (digit n) ≡ 48 + n
code-digit zero h = refl
code-digit (suc zero) h = refl
code-digit (suc (suc zero)) h = refl
code-digit (suc (suc (suc zero))) h = refl
code-digit (suc (suc (suc (suc zero)))) h = refl
code-digit (suc (suc (suc (suc (suc zero))))) h = refl
code-digit (suc (suc (suc (suc (suc (suc zero)))))) h = refl
code-digit (suc (suc (suc (suc (suc (suc (suc zero))))))) h = refl
code-digit (suc (suc (suc (suc (suc (suc (suc (suc zero)))))))) h = refl
code-digit (suc (suc (suc (suc (suc (suc (suc (suc (suc zero))))))))) h = refl
code-digit (suc (suc (suc (suc (suc (suc (suc (suc (suc (suc n)))))))))) h =
    absurd (omega (arith, h))

ltb_lt : (a b : ℕ) → ltb a b ≡ true → a < b
ltb_lt a b h = ground (arith, h)

ltb_ge : (a b : ℕ) → ltb a b ≡ false → b ≤ a
ltb_ge a b h = ground (arith, h)

is_digit-digit : (n : ℕ) → n < 10 → is_digit (digit n) ≡ true
is_digit-digit n h = let c = code-digit n h in ground (arith, c, h)

read_digit :
    (m n : ℕ) (text : String)
    → n < 10
    → read_digits m (digit n ∷ text) ≡ read_digits (m * 10 + n) text
unfolding read_digits
read_digit m n text h =
    let value : code (digit n) - 48 ≡ n = omega (arith, code-digit n h) in
    rw (is_digit-digit n h, value) refl

-- `\d+` up to the end of a text, and its number.
unfoldable pub whole_number : String → Option ℕ
whole_number [] = none
whole_number (c ∷ text) = read_digits 0 (c ∷ text)

-- `\d*` and `\d+` at the start of a text, and the text behind.
unfoldable pub skip_digits : String → String
skip_digits [] = []
skip_digits (c ∷ text) = let rest = skip_digits text in if is_digit c then rest else c ∷ text

unfoldable pub drop_digits : String → Option String
drop_digits [] = none
drop_digits (c ∷ text) = if is_digit c then some (skip_digits text) else none

-- The text behind a prefix.
unfoldable pub strip_prefix : String → String → Option String
strip_prefix [] text = some text
strip_prefix (p ∷ prefix) [] = none
strip_prefix (p ∷ prefix) (c ∷ text) =
    let rest = strip_prefix prefix text in if nat_beq (code p) (code c) then rest else none

pub strip_prefix-append : (prefix text : String) → strip_prefix prefix (prefix <> text) ≡ some text
unfolding strip_prefix
strip_prefix-append [] text = ap some (nil-append text)
strip_prefix-append (p ∷ prefix) text =
    rw (cons-append, (nat_beq_iff (code p) (code p)).1 refl) (strip_prefix-append prefix text)

print_digits-append :
    (fuel n : ℕ) (text rest : String)
    → print_digits fuel n text <> rest ≡ print_digits fuel n (text <> rest)
unfolding print_digits
print_digits-append zero n text rest = refl
print_digits-append (suc fuel) n text rest = elim (Bool-cases (ltb n 10)) [
  | inl t ↦ rw t (cons-append (digit (n % 10)) text rest)
  | inr f ↦ rw f (
      print_digits-append fuel (n / 10) (digit (n % 10) ∷ text) rest
      ∙ ap (print_digits fuel (n / 10)) (cons-append (digit (n % 10)) text rest))
]

whole_number-print_digits :
    (fuel n : ℕ) (text : String)
    → n < fuel
    → whole_number (print_digits fuel n text) ≡ read_digits n text
unfolding whole_number print_digits
whole_number-print_digits zero n text h = absurd (omega (arith, h))
whole_number-print_digits (suc fuel) n text h = elim (Bool-cases (ltb n 10)) [
  | inl t ↦
      let small : n % 10 ≡ n = omega (arith, ltb_lt n 10 t) in
      rw (t, read_digit 0 (n % 10) text (omega arith))
        (ap (λ k. read_digits k text) (omega (arith, small)))
  | inr f ↦
      let fewer : n / 10 < fuel = omega (arith, h, ltb_ge n 10 f) in
      rw f (
        whole_number-print_digits fuel (n / 10) (digit (n % 10) ∷ text) fewer
        ∙ read_digit (n / 10) (n % 10) text (omega arith)
        ∙ ap (λ k. read_digits k text) (omega arith))
]

drop_digits-print_digits :
    (fuel n : ℕ) (text : String)
    → n < fuel
    → drop_digits (print_digits fuel n text) ≡ some (skip_digits text)
unfolding drop_digits skip_digits print_digits
drop_digits-print_digits zero n text h = absurd (omega (arith, h))
drop_digits-print_digits (suc fuel) n text h = elim (Bool-cases (ltb n 10)) [
  | inl t ↦ rw (t, is_digit-digit (n % 10) (omega arith)) refl
  | inr f ↦
      let fewer : n / 10 < fuel = omega (arith, h, ltb_ge n 10 f) in
      rw f (
        drop_digits-print_digits fuel (n / 10) (digit (n % 10) ∷ text) fewer
        ∙ rw (is_digit-digit (n % 10) (omega arith)) refl)
]

-- A number that was printed is read again.
pub whole_number-print_number : (n : ℕ) → whole_number (print_number n) ≡ some n
unfolding print_number read_digits
whole_number-print_number n = whole_number-print_digits (suc n) n [] (omega arith)

pub drop_digits-print_number :
    (n : ℕ) (rest : String) → drop_digits (print_number n <> rest) ≡ some (skip_digits rest)
unfolding print_number
drop_digits-print_number n rest =
    ap drop_digits
      (print_digits-append (suc n) n [] rest ∙ ap (print_digits (suc n) n) (nil-append rest))
    ∙ drop_digits-print_digits (suc n) n rest (omega arith)

-- The number that the digits at the start of a text go on with.
unfoldable pub leading_number : ℕ → String → ℕ
leading_number n [] = n
leading_number n (c ∷ text) =
    let rest = leading_number (n * 10 + (code c - 48)) text in if is_digit c then rest else n

leading_digit :
    (m n : ℕ) (text : String)
    → n < 10
    → leading_number m (digit n ∷ text) ≡ leading_number (m * 10 + n) text
unfolding leading_number
leading_digit m n text h =
    let value : code (digit n) - 48 ≡ n = omega (arith, code-digit n h) in
    rw (is_digit-digit n h, value) refl

leading_number-print_digits :
    (fuel n : ℕ) (text : String)
    → n < fuel
    → leading_number 0 (print_digits fuel n text) ≡ leading_number n text
unfolding print_digits
leading_number-print_digits zero n text h = absurd (omega (arith, h))
leading_number-print_digits (suc fuel) n text h = elim (Bool-cases (ltb n 10)) [
  | inl t ↦
      let small : n % 10 ≡ n = omega (arith, ltb_lt n 10 t) in
      rw t (
        leading_digit 0 (n % 10) text (omega arith)
        ∙ ap (λ k. leading_number k text) (omega (arith, small)))
  | inr f ↦
      let fewer : n / 10 < fuel = omega (arith, h, ltb_ge n 10 f) in
      rw f (
        leading_number-print_digits fuel (n / 10) (digit (n % 10) ∷ text) fewer
        ∙ leading_digit (n / 10) (n % 10) text (omega arith)
        ∙ ap (λ k. leading_number k text) (omega arith))
]

pub leading_number-print_number :
    (n : ℕ) (rest : String) → leading_number 0 (print_number n <> rest) ≡ leading_number n rest
unfolding print_number
leading_number-print_number n rest =
    ap (leading_number 0)
      (print_digits-append (suc n) n [] rest ∙ ap (print_digits (suc n) n) (nil-append rest))
    ∙ leading_number-print_digits (suc n) n rest (omega arith)
