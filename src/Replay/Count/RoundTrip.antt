-- ===== src/Replay/Count/RoundTrip.antt =====
-- A count is read back from its header.
use kafka_reliability.Base.{
  ℕ, suc, ◌+◌, ◌*◌, ◌≤◌, ◌≡◌, refl, ap, ◌∙◌, true, false, some, List, [], ◌∷◌, All, length, map,
  arith,
}
use kafka_reliability.Base.Decimal.{
  IsDigit, digits, spelled, spelled-digits, digits-IsDigit, digits-not_empty, decimal_bytes,
}
use kafka_reliability.Base.Int.{ℤ, pos, negsuc, magnitude}
use kafka_reliability.Replay.Count.{
  str_of, int_of, scan, limited, signed, natural, is_ascii, skip_spaces,
}

scan_digits :
    (ds : List ℕ) (count n : ℕ)
    → All IsDigit ds
    → scan true count n (map (λ d. 48 + d) ds) ≡ limited (count + length ds) (spelled n ds)
unfolding scan spelled
scan_digits [] count n h = ap (λ m. limited m n) (omega arith)
scan_digits (d ∷ ds) count n h = ground (arith, scan_digits ds (suc count) (n * 10 + d) h.1, h.0)

ascii_digits : (ds : List ℕ) → All IsDigit ds → is_ascii (map (λ d. 48 + d) ds) ≡ true
unfolding is_ascii
ascii_digits [] h = refl
ascii_digits (d ∷ ds) h = ground (arith, ascii_digits ds h.1, h.0)

no_leading_space :
    (ds : List ℕ) → All IsDigit ds → skip_spaces (map (λ d. 48 + d) ds) ≡ map (λ d. 48 + d) ds
unfolding skip_spaces
no_leading_space [] h = refl
no_leading_space (d ∷ ds) h = ground (arith, h.0)

first_digit :
    (ds : List ℕ)
    → 1 ≤ length ds
    → All IsDigit ds
    → scan false 0 0 (map (λ d. 48 + d) ds) ≡ limited (length ds) (spelled 0 ds)
unfolding scan spelled
first_digit [] one h = absurd (omega (arith, one))
first_digit (d ∷ ds) one h = ground (arith, scan_digits ds 1 d h.1, h.0)

signed_digits :
    (ds : List ℕ)
    → 1 ≤ length ds
    → All IsDigit ds
    → signed (map (λ d. 48 + d) ds) ≡ natural (scan false 0 0 (map (λ d. 48 + d) ds))
unfolding signed
signed_digits [] one h = absurd (omega (arith, one))
signed_digits (d ∷ ds) one h = ground (arith, h.0)

number_read : (n : ℕ) → length (digits n) ≤ 4300 → scan false 0 0 (decimal_bytes n) ≡ some n
unfolding decimal_bytes
number_read n short =
    first_digit (digits n) (digits-not_empty n) (digits-IsDigit n)
    ∙ ground (arith, spelled-digits n, short)

-- An integer of at most 4300 digits is read back from its decimal text.
pub int_of-str_of : (z : ℤ) → length (digits (magnitude z)) ≤ 4300 → int_of (str_of z) ≡ some z
unfolding int_of str_of is_ascii skip_spaces signed decimal_bytes
int_of-str_of (pos n) short =
    rw (ascii_digits (digits n) (digits-IsDigit n), no_leading_space (digits n) (digits-IsDigit n))
      (signed_digits (digits n) (digits-not_empty n) (digits-IsDigit n)
        ∙ ap natural (number_read n short))
int_of-str_of (negsuc n) short =
    rw (ascii_digits (digits (suc n)) (digits-IsDigit (suc n)))
      (ground (arith, number_read (suc n) short))
