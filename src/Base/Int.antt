-- ===== src/Base/Int.antt =====
-- Python's integers that may be negative.
use Prim.Native.Nat.{ℕ, zero, suc, ◌≤◌}
use mathlib.Core.Path.{◌≡◌, refl}
use mathlib.Core.Logic.{◌↔◌}
use mathlib.Core.Bool.{Bool, true, false, not}
use native.Mathlib.Omega.{arith}
use kafka_reliability.Base.Tests.{nat_beq, leb, if◌then◌else◌}
use kafka_reliability.Base.Equality.{Comparable}

-- A Python int; `negsuc n` is -(n + 1).
pub data ℤ : Type 0 where
  pos : ℕ → ℤ
  negsuc : ℕ → ℤ

abbrev int_beq : ℤ → ℤ → Bool
int_beq (pos m) (pos n) = nat_beq m n
int_beq (negsuc m) (negsuc n) = nat_beq m n
int_beq _ _ = false

pub int_beq_iff : (a b : ℤ) → (int_beq a b ≡ true) ↔ (a ≡ b)
int_beq_iff (pos m) (pos n) = ground arith
int_beq_iff _ _ = ground arith

instance abbrev pub int_eq : Comparable ℤ
int_eq = record { equals = int_beq; equals_iff = int_beq_iff }

-- a <= b
abbrev pub int_leb : ℤ → ℤ → Bool
int_leb (pos m) (pos n) = leb m n
int_leb (negsuc m) (negsuc n) = leb n m
int_leb (negsuc m) (pos n) = true
int_leb (pos m) (negsuc n) = false

-- z + 1
abbrev pub next : ℤ → ℤ
next (pos n) = pos (suc n)
next (negsuc zero) = pos 0
next (negsuc (suc n)) = negsuc n

-- a < b
abbrev pub int_ltb : ℤ → ℤ → Bool
int_ltb a b = not (int_leb b a)

abbrev pub int_min : ℤ → ℤ → ℤ
int_min a b = if int_leb a b then a else b

-- abs(z)
abbrev pub magnitude : ℤ → ℕ
magnitude (pos n) = n
magnitude (negsuc n) = suc n

-- What is at least a natural number is one.
pub pos-magnitude :
    (z : ℤ) (n : ℕ) → int_ltb z (pos n) ≡ false → (z ≡ pos (magnitude z)) × (n ≤ magnitude z)
pos-magnitude (pos m) n h = (refl, ground (arith, h))
pos-magnitude (negsuc m) n h = absurd (cc)

pub int_min-positive :
    (a b : ℤ) (n : ℕ)
    → int_ltb (int_min a b) (pos n) ≡ false
    → (int_ltb a (pos n) ≡ false) × (int_ltb b (pos n) ≡ false)
int_min-positive (pos a) (pos b) n h = ground (arith, h)
int_min-positive (pos a) (negsuc b) n h = absurd (cc)
int_min-positive (negsuc a) (pos b) n h = absurd (cc)
int_min-positive (negsuc a) (negsuc b) n h = ground (arith, h)
