-- ===== src/Dedup/Redis/Keys.antt =====
-- `_key` of dedup/backends/redis.py: the length in front of the group keeps keys apart.
use Prim.Native.Char.{code}
use Prim.Native.String.{◌++◌ as concat, count}
use text.Mathlib.TextLemmas.{
  append_cancel_left, append_inj, head-eq_of_cons-eq, tail-eq_of_cons-eq, nil-append, cons-append,
}
use kafka_reliability.Base.{ℕ, ◌≤◌, String, ◌≡◌, refl, ap, ap₂, sym, ◌∙◌, List, [], ◌∷◌, All, arith}
use kafka_reliability.Base.Decimal.{
  digit_char, digits_text, digits, spelled, spelled-digits, digits-IsDigit, IsDigit, decimal,
}
use kafka_reliability.Dedup.Redis.{redis_key}

digit-ne-colon : (d : ℕ) → digit_char d ≡ ":" → ⊥
unfolding digit_char
digit-ne-colon d h = absurd (omega (arith, ap code h))

same_digit : (d e : ℕ) → d ≤ 9 → e ≤ 9 → digit_char d ≡ digit_char e → d ≡ e
unfolding digit_char
same_digit d e h k same = omega (arith, h, k, ap code same)

colon : (x : String) → concat ":" x ≡ String.◌∷◌ ":" x
colon x = cons-append ":" "" x ∙ ap (String.◌∷◌ ":") (nil-append x)

-- A run of digits ends at the first colon.
split_digits :
    (ds es : List ℕ) (x y : String)
    → All IsDigit ds
    → All IsDigit es
    → concat (digits_text ds) (concat ":" x) ≡ concat (digits_text es) (concat ":" y)
    → (ds ≡ es) × (x ≡ y)
unfolding digits_text
split_digits [] [] x y h k same =
    (refl, append_cancel_left ":" x y (sym (nil-append _) ∙ same ∙ nil-append _))
split_digits [] (e ∷ es) x y h k same =
    let heads = sym (colon x) ∙ sym (nil-append _) ∙ same ∙ cons-append (digit_char e) _ _ in
    absurd (digit-ne-colon e (sym (head-eq_of_cons-eq heads)))
split_digits (d ∷ ds) [] x y h k same =
    let heads = sym (cons-append (digit_char d) _ _) ∙ same ∙ nil-append _ ∙ colon y in
    absurd (digit-ne-colon d (head-eq_of_cons-eq heads))
split_digits (d ∷ ds) (e ∷ es) x y h k same =
    let heads = sym (cons-append (digit_char d) _ _) ∙ same ∙ cons-append (digit_char e) _ _ in
    let (tails, rest) = split_digits ds es x y h.1 k.1 (tail-eq_of_cons-eq heads) in
    (ap₂ (λ a more. a ∷ more) (same_digit d e h.0 k.0 (head-eq_of_cons-eq heads)) tails, rest)

-- Under one prefix, two records have the same key in Redis only if they have the same group and the
-- same key, whatever characters these hold.
pub redis_key-injective :
    (prefix g k g' k' : String)
    → redis_key prefix g k ≡ redis_key prefix g' k'
    → (g ≡ g') × (k ≡ k')
unfolding redis_key decimal
redis_key-injective prefix g k g' k' same =
    let after_prefix = append_cancel_left ":" _ _ (append_cancel_left prefix _ _ same) in
    let (lengths, rest) =
      split_digits (digits (count g)) (digits (count g')) _ _ (digits-IsDigit (count g))
        (digits-IsDigit (count g')) after_prefix in
    let counts : count g ≡ count g' =
      sym (spelled-digits (count g)) ∙ ap (spelled 0) lengths ∙ spelled-digits (count g') in
    let (groups, keys) = append_inj rest counts in (groups, append_cancel_left ":" _ _ keys)
