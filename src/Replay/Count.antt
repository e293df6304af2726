-- ===== src/Replay/Count.antt =====
-- The numbers in headers: `str(n).encode()`, and `int(raw.decode("ascii"))`, which raises ValueError
-- (or UnicodeDecodeError, which is one) for what is no integer. Python accepts spaces round the
-- number, a sign, and single underscores between digits, and refuses more than 4300 digits.
pub mod RoundTrip
mod Tests
use kafka_reliability.Base.{
  ℕ, zero, suc, ◌+◌, ◌-◌, ◌*◌, Bool, true, false, ◌&&◌, ◌||◌, Option, none, some, List, [], ◌∷◌,
  leb, ltb, nat_beq, if◌then◌else◌,
}
use kafka_reliability.Base.Decimal.{decimal_bytes}
use kafka_reliability.Base.Int.{ℤ, pos, negsuc}
use kafka_reliability.Core.Utf8.{Bytes}

-- str(z).encode(), of up to 4300 digits; beyond them Python raises ValueError, which a count that was
-- read and then raised by one reaches from 4300 nines only.
unfoldable pub str_of : ℤ → Bytes
str_of (pos n) = decimal_bytes n
str_of (negsuc n) = 45 ∷ decimal_bytes (suc n)

abbrev pub is_space : ℕ → Bool
is_space c = nat_beq c 32 || leb 9 c && leb c 13

abbrev pub is_digit : ℕ → Bool
is_digit c = leb 48 c && leb c 57

all_spaces : Bytes → Bool
all_spaces [] = true
all_spaces (c ∷ s) = is_space c && all_spaces s

skip_spaces : Bytes → Bytes
skip_spaces [] = []
skip_spaces (c ∷ s) = let rest = skip_spaces s in if is_space c then rest else c ∷ s

-- A number of that many digits.
abbrev limited : ℕ → ℕ → Option ℕ
limited count n = if ltb 4300 count then none else some n

abbrev ended : Bool → ℕ → ℕ → Option ℕ
ended true count n = limited count n
ended false count n = none

-- The rest of a number, at a digit or (`after_digit`) at what may follow one.
scan : Bool → ℕ → ℕ → Bytes → Option ℕ
unfolding all_spaces
scan after_digit count n [] = ended after_digit count n
scan after_digit count n (c ∷ s) =
    let more = scan true (suc count) (n * 10 + (c - 48)) s in
    let gap = scan false count n s in
    if is_digit c
    then more
    else if after_digit && nat_beq c 95
    then gap
    else ended (after_digit && is_space c && all_spaces s) count n

abbrev negated : Option ℕ → Option ℤ
negated none = none
negated (some zero) = some (pos 0)
negated (some (suc n)) = some (negsuc n)

abbrev natural : Option ℕ → Option ℤ
natural none = none
natural (some n) = some (pos n)

signed : Bytes → Option ℤ
unfolding scan
signed [] = none
signed (c ∷ s) =
    if nat_beq c 45
    then negated (scan false 0 0 s)
    else if nat_beq c 43
    then natural (scan false 0 0 s)
    else natural (scan false 0 0 (c ∷ s))

is_ascii : Bytes → Bool
is_ascii [] = true
is_ascii (c ∷ s) = ltb c 128 && is_ascii s

-- int(raw.decode("ascii")); `none` is the exception
unfoldable pub int_of : Bytes → Option ℤ
unfolding is_ascii skip_spaces signed
int_of raw = if is_ascii raw then signed (skip_spaces raw) else none
