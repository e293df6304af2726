-- ===== src/Base/Equality.antt =====
-- Python's `==` on the types that the program compares, as an instance with its law.
use Prim.Native.Nat.{ℕ}
use Prim.Native.String.{String}
use mathlib.Core.Path.{◌≡◌, refl}
use mathlib.Core.Logic.{◌↔◌}
use mathlib.Core.Bool.{Bool, true, ◌&&◌}
use native.Mathlib.Omega.{arith}
use text.Mathlib.Text.{◌==◌ as str_eq}
use text.Mathlib.TextEquality.{eq_iff}
use kafka_reliability.Base.Tests.{nat_beq, nat_beq_iff}

-- A type whose values Python compares with `==`.
pub record Comparable {κ} (K : Type κ) : Type κ where
  pub equals : K → K → Bool
  pub equals_iff : (x y : K) → (equals x y ≡ true) ↔ (x ≡ y)

module _ {κ} {K : Type κ} ⦃c : Comparable K⦄ where
  pub equals_refl : (x : K) → c.equals x x ≡ true
  equals_refl x = (c.equals_iff x x).1 refl

  infix 50 ◌==◌
  abbrev pub ◌==◌ : K → K → Bool
  x == y = c.equals x y

module _ {κ μ} {K : Type κ} {L : Type μ} ⦃c : Comparable K⦄ ⦃d : Comparable L⦄ where
  abbrev pub pair_equals : K × L → K × L → Bool
  pair_equals (k, l) (k', l') = k == k' && l == l'

  pub pair_equals_iff : (p q : K × L) → (pair_equals p q ≡ true) ↔ (p ≡ q)
  pair_equals_iff (k, l) (k', l') = ground (arith, c.equals_iff k k', d.equals_iff l l')

  instance abbrev pub pair_eq : Comparable (K × L)
  pair_eq = record { equals = pair_equals; equals_iff = pair_equals_iff }

instance abbrev pub string_eq : Comparable String
string_eq = record { equals = str_eq; equals_iff = eq_iff }

instance abbrev pub nat_eq : Comparable ℕ
nat_eq = record { equals = nat_beq; equals_iff = nat_beq_iff }
