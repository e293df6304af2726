-- ===== src/Core/Utf8/RoundTrip.antt =====
-- What is encoded is decoded again.
use Prim.Native.Char.{Char, char, code, IsScalar}
use Prim.Native.Nat.{compare, Ordering}
use kafka_reliability.Base.{
  ℕ, ◌+◌, ◌-◌, ◌*◌, ◌/◌, ◌%◌, ◌≤◌, ◌<◌, String, ◌≡◌, refl, Bool-cases, ltb→lt, if◌then◌else◌, ◌∙◌,
  some, ◌∷◌, ◌++◌, arith, ap, ap₂, leb, ltb, ◌⊎◌, inl, inr,
}
use kafka_reliability.Core.Utf8.{
  Bytes, encode, decode, decode_from, encode_code, feed, lead, start, to_char, to_char_from,
  to_char_high, strict, cons_strict,
}
use text.Mathlib.TextEquality.{Char-path}

one_byte :
    (n : ℕ) (bs : Bytes) → n < 0x80 → decode_from start (n ∷ bs) ≡ some n ∷ decode_from start bs
unfolding decode_from feed lead
one_byte n bs h = ground arith

two_bytes :
    (n : ℕ) (bs : Bytes)
    → 0x80 ≤ n
    → n < 0x800
    → decode_from start ((0xc0 + n / 64) ∷ (0x80 + n % 64) ∷ bs) ≡ some n ∷ decode_from start bs
unfolding decode_from feed lead
two_bytes n bs h k = ground arith

three_bytes :
    (n : ℕ) (bs : Bytes)
    → 0x800 ≤ n
    → n < 0x10000
    → (n < 55296) ⊎ (57343 < n)
    → decode_from start ((0xe0 + n / 4096) ∷ (0x80 + n / 64 % 64) ∷ (0x80 + n % 64) ∷ bs)
      ≡ some n ∷ decode_from start bs
unfolding decode_from feed lead
three_bytes n bs h k l = ground arith

-- A continuation byte that is within the bounds, before another and as the last.
more_bytes :
    (k low high v b : ℕ) (bs : Bytes)
    → low ≤ b
    → b ≤ high
    → decode_from (record { needed = k + 2; value = v; low = low; high = high }) (b ∷ bs)
      ≡ decode_from (record start { needed = k + 1; value = v * 64 + (b - 0x80) }) bs
unfolding decode_from feed
more_bytes k low high v b bs h l = ground arith

last_byte :
    (v b : ℕ) (bs : Bytes)
    → 0x80 ≤ b
    → b ≤ 0xbf
    → decode_from (record start { needed = 1; value = v }) (b ∷ bs)
      ≡ some (v * 64 + (b - 0x80)) ∷ decode_from start bs
unfolding decode_from feed
last_byte v b bs h l = ground arith

continued :
    (low high v b c d : ℕ) (bs : Bytes)
    → low ≤ b
    → b ≤ high
    → c < 64
    → d < 64
    → decode_from
        (record { needed = 3; value = v; low = low; high = high })
        (b ∷ (0x80 + c) ∷ (0x80 + d) ∷ bs)
      ≡ some (((v * 64 + (b - 0x80)) * 64 + c) * 64 + d) ∷ decode_from start bs
continued low high v b c d bs h k l m =
    more_bytes 1 low high v b _ h k
    ∙ more_bytes 0 0x80 0xbf _ (0x80 + c) _ (omega arith) (omega (arith, l))
    ∙ last_byte _ (0x80 + d) bs (omega arith) (omega (arith, m))
    ∙ ap (λ n. some n ∷ decode_from start bs) (omega arith)

lead_four :
    (q : ℕ) (bs : Bytes)
    → q ≤ 4
    → decode_from start ((0xf0 + q) ∷ bs)
      ≡ decode_from
          (record {
            needed = 3;
            value = q;
            low = if leb 1 q then 0x80 else 0x90;
            high = if leb q 3 then 0xbf else 0x8f;
          })
          bs
unfolding decode_from feed lead
lead_four q bs h = ground arith

four_bytes :
    (n : ℕ) (bs : Bytes)
    → 0x10000 ≤ n
    → n < 1114112
    → decode_from start
        ((0xf0 + n / 262144) ∷ (0x80 + n / 4096 % 64) ∷ (0x80 + n / 64 % 64) ∷ (0x80 + n % 64) ∷ bs)
      ≡ some n ∷ decode_from start bs
four_bytes n bs h k =
    let q = n / 262144 in
    lead_four q _ (omega arith)
    ∙ continued (if leb 1 q then 0x80 else 0x90) (if leb q 3 then 0xbf else 0x8f) q
        (0x80 + n / 4096 % 64) (n / 64 % 64) (n % 64) bs (ground arith) (ground arith) (omega arith)
        (omega arith)
    ∙ ap (λ m. some m ∷ decode_from start bs) (omega arith)

IsScalar-cases : (n : ℕ) → IsScalar n → (n < 55296) ⊎ (57343 < n) × (n < 1114112)
IsScalar-cases n h = ground (arith, h)

decode-encode_code :
    (c : Char) (bs : Bytes)
    → decode_from start (encode_code (code c) ++ bs) ≡ some (code c) ∷ decode_from start bs
unfolding encode_code
decode-encode_code (char n h) bs = elim (Bool-cases (ltb n 0x80)) [
  | inl one ↦ rw one (one_byte n bs (omega (arith, ltb→lt n 0x80 one)))
  | inr not_one ↦ elim (Bool-cases (ltb n 0x800)) [
    | inl two ↦ rw (not_one, two) (two_bytes n bs (ground arith) (ltb→lt n 0x800 two))
    | inr not_two ↦ elim (Bool-cases (ltb n 0x10000)) [
      | inl three ↦
          rw (not_one, not_two, three)
            (three_bytes n bs (ground arith) (ltb→lt n 0x10000 three)
              (ground (arith, IsScalar-cases n h)))
      | inr four ↦
          rw (not_one, not_two, four)
            (four_bytes n bs (ground arith) (ground (arith, IsScalar-cases n h)))
    ]
  ]
]

high-char :
    (n : ℕ) (o p : Ordering)
    → (g : compare n 55296 ≡ Ordering.gt) → (k : compare 57343 n ≡ o) → (l : compare n 1114112 ≡ p)
    → (h : IsScalar n) → to_char_high n o p g k l ≡ some (char n h)
unfolding to_char_high
high-char n Ordering.lt Ordering.lt g k l h = ap some (Char-path _ _ refl)
high-char n Ordering.lt Ordering.eq g k l h = absurd (ground (arith, IsScalar-cases n h))
high-char n Ordering.lt Ordering.gt g k l h = absurd (ground (arith, IsScalar-cases n h))
high-char n Ordering.eq p g k l h = absurd (ground (arith, IsScalar-cases n h))
high-char n Ordering.gt p g k l h = absurd (ground (arith, IsScalar-cases n h))

char-from :
    (n : ℕ) (o : Ordering) (e : compare n 55296 ≡ o) (h : IsScalar n)
    → to_char_from n o e ≡ some (char n h)
unfolding to_char_from
char-from n Ordering.lt e h = ap some (Char-path _ _ refl)
char-from n Ordering.eq e h = absurd (ground (arith, IsScalar-cases n h))
char-from n Ordering.gt e h = high-char n _ _ e refl refl h

to_char-code : (c : Char) → to_char (code c) ≡ some c
unfolding to_char
to_char-code (char n h) = char-from n (compare n 55296) refl h

-- Every text is read back from its bytes.
pub decode-encode : (s : String) → decode (encode s) ≡ some s
unfolding encode decode strict decode_from
decode-encode String.[] = refl
decode-encode (String.◌∷◌ c s) =
    ap strict (decode-encode_code c (encode s)) ∙ ap₂ cons_strict (to_char-code c) (decode-encode s)
