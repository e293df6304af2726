-- ===== src/Outbox/Retention/Sweep.antt =====
-- The sweep of outbox/retention.py ends, and deletes the old published rows and no other.
use kafka_reliability.Base.{
  ℕ, ◌≡◌, refl, ap, Bool-cases, inl, inr, not, ◌||◌, false, some, List, keep, length, ltb,
  if◌then◌else◌, arith,
}
use kafka_reliability.Base.Int.{ℤ, pos, negsuc, int_ltb, magnitude}
use kafka_reliability.Base.Chunks.{sweep_loop_lem}
use kafka_reliability.Base.Effect.{ok, err}
use kafka_reliability.Core.Error.{configuration}
use kafka_reliability.Outbox.Table.{Row}
use kafka_reliability.Outbox.Retention.{swept, is_old, sweep_published}

chunk_positive : (chunk : ℤ) → int_ltb chunk (pos 1) ≡ false → ltb (magnitude chunk) 1 ≡ false
chunk_positive (pos n) h = ground (arith, h)
chunk_positive (negsuc n) h = absurd (cc)

-- A sweep with a chunk of at least one and an age that is not negative ends, within as many chunks as
-- the table has rows and one more: it deletes the rows that were published before its age, leaves all
-- others in their order, and returns how many it deleted. Any other chunk or age is refused.
pub sweep-exact :
    (older_than chunk : ℤ) (now : ℕ) (rows : List Row)
    → sweep_published older_than chunk now rows ≡ (
        if int_ltb chunk (pos 1) || int_ltb older_than (pos 0)
        then some (err configuration)
        else some (
            ok (
              length (keep (is_old (magnitude older_than) now) rows),
              keep (λ row. not (is_old (magnitude older_than) now row)) rows,
            )))
unfolding sweep_published
sweep-exact older_than chunk now rows = elim (Bool-cases (int_ltb chunk (pos 1))) [
  | inl none_at_all ↦ rw none_at_all refl
  | inr some_rows ↦ elim (Bool-cases (int_ltb older_than (pos 0))) [
    | inl negative ↦ rw (some_rows, negative) refl
    | inr age ↦
        rw (some_rows, age)
          (ap swept (
            sweep_loop_lem (is_old (magnitude older_than) now) (magnitude chunk) rows
              (chunk_positive chunk some_rows)))
  ]
]
