-- ===== src/Core/Utf8.antt =====
-- Python's `str.encode("utf-8")` and `bytes.decode("utf-8")`, strict and with `errors="replace"`,
-- as the source uses them. A byte is a number below 256. The decoder reads one byte at a time:
-- `needed` continuation bytes are still missing, the next of which lies in `low .. high`.
pub mod RoundTrip
use Prim.Native.Nat.{compare, Ordering}
use Prim.Native.Char.{Char, char, code, IsScalar}
use kafka_reliability.Base.{
  ℕ, ◌+◌, ◌-◌, ◌*◌, ◌/◌, ◌%◌, String, ◌≡◌, refl, ◌&&◌, Option, none, some, List, [], ◌∷◌, ◌++◌, leb,
  ltb, if◌then◌else◌,
}

abbrev pub Bytes : Type 0
Bytes = List ℕ

unfoldable pub encode_code : ℕ → Bytes
encode_code n =
    if ltb n 0x80
    then n ∷ []
    else if ltb n 0x800
    then (0xc0 + n / 64) ∷ (0x80 + n % 64) ∷ []
    else if ltb n 0x10000
    then (0xe0 + n / 4096) ∷ (0x80 + n / 64 % 64) ∷ (0x80 + n % 64) ∷ []
    else (0xf0 + n / 262144) ∷ (0x80 + n / 4096 % 64) ∷ (0x80 + n / 64 % 64) ∷ (0x80 + n % 64) ∷ []

unfoldable pub encode : String → Bytes
unfolding encode_code
encode String.[] = []
encode (String.◌∷◌ c s) = encode_code (code c) ++ encode s

pub record Decoder : Type 0 where
  pub needed : ℕ
  pub value : ℕ
  pub low : ℕ
  pub high : ℕ

abbrev pub start : Decoder
start = record { needed = 0; value = 0; low = 0x80; high = 0xbf }

-- The first byte of a character: what is decoded at once (`none` is an error), and what is awaited.
unfoldable pub lead : ℕ → List (Option ℕ) × Decoder
lead b =
    if ltb b 0x80
    then (some b ∷ [], start)
    else if leb 0xc2 b && leb b 0xdf
    then ([], record start { needed = 1; value = b - 0xc0 })
    else if leb 0xe0 b && leb b 0xef
    then (
      [],
      record {
        needed = 2;
        value = b - 0xe0;
        low = if leb 0xe1 b then 0x80 else 0xa0;
        high = if leb b 0xec then 0xbf else if leb 0xee b then 0xbf else 0x9f;
      },
    )
    else if leb 0xf0 b && leb b 0xf4
    then (
      [],
      record {
        needed = 3;
        value = b - 0xf0;
        low = if leb 0xf1 b then 0x80 else 0x90;
        high = if leb b 0xf3 then 0xbf else 0x8f;
      },
    )
    else (none ∷ [], start)

-- A byte out of range ends the character in an error and is read again as a first byte.
unfoldable pub feed : Decoder → ℕ → List (Option ℕ) × Decoder
unfolding lead
feed d b =
    if leb d.needed 0
    then lead b
    else if leb d.low b && leb b d.high
    then (let value = d.value * 64 + (b - 0x80) in
        if leb d.needed 1
        then (some value ∷ [], start)
        else ([], record start { needed = d.needed - 1; value = value }))
    else (let (out, d') = lead b in (none ∷ out, d'))

-- An unfinished character at the end is one error.
unfoldable pub decode_from : Decoder → Bytes → List (Option ℕ)
unfolding feed
decode_from d [] = if leb d.needed 0 then [] else none ∷ []
decode_from d (b ∷ bs) = let (out, d') = feed d b in out ++ decode_from d' bs

pub IsScalar-low : (n : ℕ) → compare n 55296 ≡ Ordering.lt → IsScalar n
IsScalar-low n h = rw h tt

pub IsScalar-high :
    (n : ℕ)
    → compare n 55296 ≡ Ordering.gt
    → compare 57343 n ≡ Ordering.lt
    → compare n 1114112 ≡ Ordering.lt
    → IsScalar n
IsScalar-high n h k l = rw (h, k, l) tt

-- Surrogates and numbers past U+10FFFF are no characters.
unfoldable pub to_char_high :
    (n : ℕ) (o p : Ordering)
    → compare n 55296 ≡ Ordering.gt
    → compare 57343 n ≡ o
    → compare n 1114112 ≡ p
    → Option Char
to_char_high n Ordering.lt Ordering.lt h k l = some (char n (IsScalar-high n h k l))
to_char_high n _ _ h k l = none

unfoldable pub to_char_from : (n : ℕ) (o : Ordering) → compare n 55296 ≡ o → Option Char
unfolding to_char_high
to_char_from n Ordering.lt h = some (char n (IsScalar-low n h))
to_char_from n Ordering.eq h = none
to_char_from n Ordering.gt h = to_char_high n (compare 57343 n) (compare n 1114112) h refl refl

unfoldable pub to_char : ℕ → Option Char
unfolding to_char_from
to_char n = to_char_from n (compare n 55296) refl

abbrev pub cons_strict : Option Char → Option String → Option String
cons_strict (some c) (some s) = some (String.◌∷◌ c s)
cons_strict _ _ = none

abbrev pub char_of : Option ℕ → Option Char
unfolding to_char
char_of none = none
char_of (some n) = to_char n

unfoldable pub strict : List (Option ℕ) → Option String
unfolding to_char
strict [] = some ""
strict (o ∷ os) = cons_strict (char_of o) (strict os)

abbrev or_replacement : Option Char → Char
or_replacement none = "�"
or_replacement (some c) = c

lenient : List (Option ℕ) → String
unfolding to_char
lenient [] = ""
lenient (o ∷ os) = String.◌∷◌ (or_replacement (char_of o)) (lenient os)

unfoldable pub decode : Bytes → Option String
unfolding strict decode_from
decode bs = strict (decode_from start bs)

unfoldable pub decode_replace : Bytes → String
unfolding lenient decode_from
decode_replace bs = lenient (decode_from start bs)

decode_euro : decode (0xe2 ∷ 0x82 ∷ 0xac ∷ 0x41 ∷ []) ≡ some "€A"
unfolding decode
decode_euro = refl

decode_surrogate : decode (0xed ∷ 0xa0 ∷ 0x80 ∷ []) ≡ none
unfolding decode
decode_surrogate = refl

replace_truncated : decode_replace (0xf0 ∷ 0x9f ∷ 0x41 ∷ 0xff ∷ []) ≡ "�A�"
unfolding decode_replace
replace_truncated = refl

encode_euro : encode "€A" ≡ 0xe2 ∷ 0x82 ∷ 0xac ∷ 0x41 ∷ []
unfolding encode
encode_euro = refl

abbrev or_without : Option Char → String → String
or_without none s = s
or_without (some c) s = String.◌∷◌ c s

ignoring : List (Option ℕ) → String
unfolding to_char
ignoring [] = ""
ignoring (o ∷ os) = or_without (char_of o) (ignoring os)

-- bytes.decode("utf-8", errors="ignore")
unfoldable pub decode_ignore : Bytes → String
unfolding decode_from ignoring
decode_ignore bs = ignoring (decode_from start bs)
