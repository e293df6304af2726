-- ===== src/Outbox/Table/Selection.antt =====
-- The rows that the relay's claim of outbox/backends/asyncpg_relay.py selects.
use kafka_reliability.Base.Int.{ℤ}
use kafka_reliability.Base.{
  ℕ, zero, suc, String, ◌≤◌, ◌≡◌, refl, Bool, true, false, ◌&&◌, not, Bool-cases, ◌⊎◌, inl, inr,
  List, [], ◌∷◌, arith, leb, length, take, keep, All, All-imp, All-take, Member,
}
use native.Mathlib.Nat.{le_trans}
use kafka_reliability.Outbox.Table.{
  Row, Status, pending, is_pending, is_blocked, in_shard, is_claimable, claimable, order_by_seq,
  insert_by_seq,
}
use kafka_reliability.Outbox.Table.Claims.{All-order_by_seq, All-insert_by_seq}

-- Each row is no later than those behind it.
abbrev pub IsSorted : List Row → Type 0
IsSorted [] = Unit
IsSorted (r ∷ rows) = All (λ s. r.seq ≤ s.seq) rows × IsSorted rows

Member-insert_by_seq :
    (x row : Row) (rows : List Row) → (x ≡ row) ⊎ Member x rows → Member x (insert_by_seq row rows)
unfolding insert_by_seq
Member-insert_by_seq x row [] h = h
Member-insert_by_seq x row (r ∷ rows) (inl new) = elim (Bool-cases (leb row.seq r.seq)) [
  | inl first ↦ rw first (inl new)
  | inr later ↦ rw later (inr (Member-insert_by_seq x row rows (inl new)))
]
Member-insert_by_seq x row (r ∷ rows) (inr (inl here)) = elim (Bool-cases (leb row.seq r.seq)) [
  | inl first ↦ rw first (inr (inl here))
  | inr later ↦ rw later (inl here)
]
Member-insert_by_seq x row (r ∷ rows) (inr (inr old)) = elim (Bool-cases (leb row.seq r.seq)) [
  | inl first ↦ rw first (inr (inr old))
  | inr later ↦ rw later (inr (Member-insert_by_seq x row rows (inr old)))
]

Member-order_by_seq : (x : Row) (rows : List Row) → Member x rows → Member x (order_by_seq rows)
unfolding order_by_seq
Member-order_by_seq x (row ∷ rows) (inl here) =
    Member-insert_by_seq x row (order_by_seq rows) (inl here)
Member-order_by_seq x (row ∷ rows) (inr old) =
    Member-insert_by_seq x row (order_by_seq rows) (inr (Member-order_by_seq x rows old))
Member-order_by_seq x [] h = absurd h

leb-true : (a b : ℕ) → leb a b ≡ true → a ≤ b
leb-true a b h = ground arith

leb-false : (a b : ℕ) → leb a b ≡ false → b ≤ a
leb-false a b h = ground arith

IsSorted-insert_by_seq :
    (row : Row) (rows : List Row) → IsSorted rows → IsSorted (insert_by_seq row rows)
unfolding insert_by_seq
IsSorted-insert_by_seq row [] h = (tt, tt)
IsSorted-insert_by_seq row (r ∷ rows) h = elim (Bool-cases (leb row.seq r.seq)) [
  | inl first ↦ rw first (
    (
      leb-true row.seq r.seq first,
      All-imp _ _ rows (λ s k. le_trans (leb-true row.seq r.seq first) k) h.0,
    ),
    h,
  )
  | inr later ↦ rw later (
    All-insert_by_seq (λ s. r.seq ≤ s.seq) row rows (leb-false row.seq r.seq later) h.0,
    IsSorted-insert_by_seq row rows h.1,
  )
]

IsSorted-order_by_seq : (rows : List Row) → IsSorted (order_by_seq rows)
unfolding order_by_seq
IsSorted-order_by_seq [] = tt
IsSorted-order_by_seq (row ∷ rows) =
    IsSorted-insert_by_seq row (order_by_seq rows) (IsSorted-order_by_seq rows)

IsSorted-take : (n : ℕ) (rows : List Row) → IsSorted rows → IsSorted (take n rows)
IsSorted-take zero rows h = tt
IsSorted-take (suc n) [] h = tt
IsSorted-take (suc n) (r ∷ rows) h = (All-take _ n rows h.0, IsSorted-take n rows h.1)

All-Member : {x : Row} (P : Row → Type 0) (rows : List Row) → All P rows → Member x rows → P x
All-Member P (r ∷ rows) h (inl here) = rw here h.0
All-Member P (r ∷ rows) h (inr later) = All-Member P rows h.1 later
All-Member P [] h m = absurd m

-- The first of sorted rows are no later than any row that is not among them.
Member-take :
    (x : Row) (n : ℕ) (rows : List Row)
    → IsSorted rows
    → Member x rows
    → Member x (take n rows) ⊎ ((n ≤ length (take n rows)) × All (λ r. r.seq ≤ x.seq) (take n rows))
Member-take x zero rows h m = inr (ground arith, tt)
Member-take x (suc n) [] h m = absurd m
Member-take x (suc n) (r ∷ rows) h (inl here) = inl (inl here)
Member-take x (suc n) (r ∷ rows) h (inr later) = elim (Member-take x n rows h.1 later) [
  | inl taken ↦ inl (inr taken)
  | inr (full, before) ↦
      inr (omega (arith, full), (All-Member (λ s. r.seq ≤ s.seq) rows h.0 later, before))
]

Member-keep :
    (p : Row → Bool) (x : Row) (rows : List Row)
    → p x ≡ true
    → Member x rows
    → Member x (keep p rows)
Member-keep p x (r ∷ rows) h (inl here) = rw⁻¹ here (rw h (inl refl))
Member-keep p x (r ∷ rows) h (inr old) = elim (Bool-cases (p r)) [
  | inl kept ↦ rw kept (inr (Member-keep p x rows h old))
  | inr dropped ↦ rw dropped (Member-keep p x rows h old)
]
Member-keep p x [] h m = absurd m

keep-All : (p : Row → Bool) (rows : List Row) → All (λ r. p r ≡ true) (keep p rows)
keep-All p [] = tt
keep-All p (r ∷ rows) = elim (Bool-cases (p r)) [
  | inl kept ↦ rw kept (kept, keep-All p rows)
  | inr dropped ↦ rw dropped (keep-All p rows)
]

length-take : (n : ℕ) (rows : List Row) → length (take n rows) ≤ n
length-take zero rows = ground arith
length-take (suc n) [] = ground arith
length-take (suc n) (r ∷ rows) = omega (arith, length-take n rows)

claimable_row :
    (status : Status) (shard blocked : Bool)
    → is_pending status && (shard && not blocked) ≡ true
    → (status ≡ pending) × ((shard ≡ true) × (blocked ≡ false))
claimable_row pending true false h = (refl, (refl, refl))
claimable_row _ _ _ h = absurd (cc)

module _ (hash : String → ℤ) (limit count index : ℕ) (table : List Row) where
  abbrev pub claimed : List Row
  claimed = claimable hash limit count index table

  -- A claim returns at most the limit, in the order of the table's sequence, and only rows that are
  -- pending, in the shard, and of no key that has a failed row.
  pub claimable_sound :
      (length claimed ≤ limit)
      × (IsSorted claimed
          × All
              (λ row.
                (row.status ≡ pending)
                × ((in_shard hash count index row.aggregateid ≡ true)
                    × (is_blocked table row.aggregateid ≡ false)))
              claimed)
  unfolding claimable is_claimable
  claimable_sound = (
    length-take limit _,
    (
      IsSorted-take limit _ (IsSorted-order_by_seq _),
      All-take _ limit _ (
          All-order_by_seq _ _ (
            All-imp _ _ _ (λ row. claimable_row row.status _ _)
              (keep-All (is_claimable hash count index table) table))),
    ),
  )

  -- A row that could be claimed and was not is no earlier than any row that was, and the claim has
  -- reached its limit.
  pub claimable-oldest :
      (row : Row)
      → Member row table
      → is_claimable hash count index table row ≡ true
      → Member row claimed ⊎ ((length claimed ≡ limit) × All (λ r. r.seq ≤ row.seq) claimed)
  unfolding claimable
  claimable-oldest row here ready =
      elim (Member-take row limit _ (IsSorted-order_by_seq _) (
        Member-order_by_seq row _
          (Member-keep (is_claimable hash count index table) row table ready here))) [
            | inl taken ↦ inl taken
            | inr (full, before) ↦ inr (
              omega (
                arith,
                full,
                length-take limit (order_by_seq (keep (is_claimable hash count index table) table)),
              ),
              before,
            )
          ]
