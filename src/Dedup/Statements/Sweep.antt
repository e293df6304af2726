-- ===== src/Dedup/Statements/Sweep.antt =====
-- What the chunked sweep of the SQL stores leaves, against the sweep of the in-memory store.
use mathlib.Core.Path.{ap₂}
use kafka_reliability.Base.{
  ℕ, ◌+◌, String, ◌≡◌, Bool, not, sym, Option, List, [], ◌∷◌, arith, length, keep, string_eq,
  pair_eq,
}
use kafka_reliability.Base.Dict.{Distinct, erase_all}
use kafka_reliability.Dedup.Memory.{doomed}
use kafka_reliability.Dedup.Memory.Sweep.{erase_doomed}
use kafka_reliability.Dedup.Statements.{Table, is_doomed}

length-keep_both :
    {A : Type 0} (p : A → Bool) (xs : List A)
    → length (keep p xs) + length (keep (λ x. not (p x)) xs) ≡ length xs
length-keep_both p [] = omega arith
length-keep_both p (x ∷ xs) = ground (arith, length-keep_both p xs)

pub sweep-agrees :
    (scope : Option String) (now : ℕ) (rows : Table)
    → Distinct rows
    → ◌≡◌ {A = ℕ × Table}
        (length (keep (is_doomed scope now) rows), keep (λ row. not (is_doomed scope now row)) rows)
        (length (doomed scope now rows), erase_all (doomed scope now rows) rows)
sweep-agrees scope now rows d =
    let (kept, total) = erase_doomed scope now rows d in
    ap₂ (λ n (rest : Table). (n, rest))
      (omega (arith, total, length-keep_both (is_doomed scope now) rows)) (sym kept)
