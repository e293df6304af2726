-- ===== src/Base/Decimal.antt =====
-- Python's `str(n)`, as text and as ASCII bytes, and the value of a run of digits.
use Prim.Native.Nat.{compare, Ordering, ℕ, zero, suc, ◌+◌, ◌*◌, ◌/◌, ◌%◌, ◌≤◌, ◌<◌}
use Prim.Native.Char.{Char, char, IsScalar}
use Prim.Native.String.{String}
use mathlib.Core.Path.{◌≡◌, ap, ◌∙◌}
use mathlib.Core.Logic.{inl, inr}
use mathlib.Core.List.{List, [], ◌∷◌, map}
use native.Mathlib.Omega.{arith}
use kafka_reliability.Base.Tests.{leb, if◌then◌else◌, Bool-cases}
use kafka_reliability.Base.Lists.{All, length}

-- The digits of `n` in front of those given: a round for each digit, within the fuel.
unfoldable pub digits_from : ℕ → ℕ → List ℕ → List ℕ
digits_from zero n out = out
digits_from (suc fuel) n out =
    let rest = digits_from fuel (n / 10) (n % 10 ∷ out) in if leb n 9 then n % 10 ∷ out else rest

unfoldable pub digits : ℕ → List ℕ
unfolding digits_from
digits n = digits_from (suc n) n []

-- ASCII bytes
unfoldable pub decimal_bytes : ℕ → List ℕ
unfolding digits
decimal_bytes n = map (λ d. 48 + d) (digits n)

pub digit-IsScalar : (d : ℕ) → IsScalar (48 + d % 10)
digit-IsScalar d = let low : compare (48 + d % 10) 55296 ≡ Ordering.lt = ground arith in rw low tt

unfoldable pub digit_char : ℕ → Char
digit_char d = char (48 + d % 10) (digit-IsScalar d)

unfoldable pub digits_text : List ℕ → String
unfolding digit_char
digits_text [] = ""
digits_text (d ∷ ds) = String.◌∷◌ (digit_char d) (digits_text ds)

unfoldable pub decimal : ℕ → String
unfolding digits digits_text
decimal n = digits_text (digits n)

-- The number that digits spell behind `n`.
unfoldable pub spelled : ℕ → List ℕ → ℕ
spelled n [] = n
spelled n (d ∷ ds) = spelled (n * 10 + d) ds

spelled-digits_from :
    (fuel n : ℕ) (out : List ℕ) → n < fuel → spelled 0 (digits_from fuel n out) ≡ spelled n out
unfolding spelled digits_from
spelled-digits_from zero n out h = absurd (omega (arith, h))
spelled-digits_from (suc fuel) n out h = elim (Bool-cases (leb n 9)) [
  | inl last ↦ rw last (ap (λ m. spelled m out) (ground arith))
  | inr more ↦
      let smaller : n / 10 < fuel = ground arith in
      rw more (
        spelled-digits_from fuel (n / 10) (n % 10 ∷ out) smaller
        ∙ ap (λ m. spelled m out) (omega arith))
]

pub spelled-digits : (n : ℕ) → spelled 0 (digits n) ≡ n
unfolding digits spelled
spelled-digits n = spelled-digits_from (suc n) n [] (omega arith)

abbrev pub IsDigit : ℕ → Type 0
IsDigit d = d ≤ 9

digits_from-IsDigit :
    (fuel n : ℕ) (out : List ℕ) → All IsDigit out → All IsDigit (digits_from fuel n out)
unfolding digits_from
digits_from-IsDigit zero n out h = h
digits_from-IsDigit (suc fuel) n out h = elim (Bool-cases (leb n 9)) [
  | inl last ↦ rw last (omega arith, h)
  | inr more ↦ rw more (digits_from-IsDigit fuel (n / 10) (n % 10 ∷ out) (omega arith, h))
]

pub digits-IsDigit : (n : ℕ) → All IsDigit (digits n)
unfolding digits
digits-IsDigit n = digits_from-IsDigit (suc n) n [] tt

digits_from-longer : (fuel n : ℕ) (out : List ℕ) → length out ≤ length (digits_from fuel n out)
unfolding digits_from
digits_from-longer zero n out = omega arith
digits_from-longer (suc fuel) n out =
    ground (arith, digits_from-longer fuel (n / 10) (n % 10 ∷ out))

pub digits-not_empty : (n : ℕ) → 1 ≤ length (digits n)
unfolding digits digits_from
digits-not_empty n = ground (arith, digits_from-longer n (n / 10) (n % 10 ∷ []))

digits_from-shorter :
    (fuel n : ℕ) (out : List ℕ) → length (digits_from fuel n out) ≤ fuel + length out
unfolding digits_from
digits_from-shorter zero n out = omega arith
digits_from-shorter (suc fuel) n out =
    ground (arith, digits_from-shorter fuel (n / 10) (n % 10 ∷ out))

-- A crude bound on the number of digits.
pub length-digits : (n : ℕ) → length (digits n) ≤ suc n
unfolding digits
length-digits n = omega (arith, digits_from-shorter (suc n) n [])
