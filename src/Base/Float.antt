-- ===== src/Base/Float.antt =====
-- Python's floats where a rounding shows: the double nearest to a fraction, ties to an even mantissa,
-- as a fraction whose denominator is a power of two.
use Prim.Native.Nat.{ℕ, zero, suc, ◌+◌, ◌*◌, ◌/◌, ◌%◌, ◌^◌}
use kafka_reliability.Base.Tests.{ltb, if◌then◌else◌}

-- Doubled until the quotient has 53 bits; 80 doublings do for a millionth.
scale : ℕ → ℕ → ℕ → ℕ → ℕ × ℕ
scale zero num den down = (num, down)
scale (suc fuel) num den down =
    let more = scale fuel (num * 2) den (down + 1) in
    if ltb num (den * 2 ^ 52) then more else (num, down)

-- Halved until it has no more than 53 bits; 16 halvings do for the longest timedelta in milliseconds.
widen : ℕ → ℕ → ℕ → ℕ → ℕ × ℕ
widen zero num den up = (den, up)
widen (suc fuel) num den up =
    let more = widen fuel num (den * 2) (up + 1) in
    if ltb num (den * 2 ^ 53) then (den, up) else more

half_even : ℕ → ℕ → ℕ
half_even num den =
    let q = num / den in
    let twice = num % den * 2 in
    if ltb twice den then q else if ltb den twice then q + 1 else q + q % 2

unfoldable pub double : ℕ → ℕ → ℕ × ℕ
unfolding scale widen half_even
double num den =
    let (n, down) = scale 80 num den 0 in
    let (d, up) = widen 16 n den 0 in (half_even n d * 2 ^ up, 2 ^ down)
