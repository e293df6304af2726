-- ===== src/Outbox/Table/Marks.antt =====
-- Marking the rows of outbox/backends/asyncpg_relay.py's table by several statements or by one.
use mathlib.Core.Path.{ap₂}
use kafka_reliability.Base.{
  ℕ, String, ◌≡◌, refl, ap, ◌∙◌, Bool, ◌||◌, Bool-cases, inl, inr, List, [], ◌∷◌, ◌++◌, map, arith,
  any, ltb, if◌then◌else◌, ◌==◌, string_eq, pair_eq, nat_eq,
}
use kafka_reliability.Base.Int.{int_eq}
use kafka_reliability.Outbox.Row.{RelayRow}
use kafka_reliability.Outbox.Row.Totals.{total, total_all, total-append}
use kafka_reliability.Outbox.Relay.Healthy.{concat}
use kafka_reliability.Outbox.Table.{Row, mark_row, publish_rows, publish_row}

abbrev pub id_of : RelayRow → String
id_of r = r.id

any-append : (p : String → Bool) (xs ys : List String) → any p (xs ++ ys) ≡ (any p xs || any p ys)
any-append p [] ys = refl
any-append p (x ∷ xs) ys = ground (arith, any-append p xs ys)

mark_row-append :
    (now : ℕ) (xs ys : List String) (row : Row)
    → mark_row now ys (mark_row now xs row) ≡ mark_row now (xs ++ ys) row
unfolding mark_row
mark_row-append now xs ys row =
    rw (any-append (λ i. i == row.id) xs ys) (elim (Bool-cases (any (λ i. i == row.id) xs)) [
      | inl first ↦ elim (Bool-cases (any (λ i. i == row.id) ys)) [
        | inl second ↦ rw first (rw second refl)
        | inr neither ↦ rw first (rw neither refl)
      ]
      | inr other ↦ rw other refl
    ])

pub publish_rows-append :
    (now : ℕ) (xs ys : List String) (rows : List Row)
    → publish_rows now ys (publish_rows now xs rows) ≡ publish_rows now (xs ++ ys) rows
unfolding publish_rows
publish_rows-append now xs ys [] = refl
publish_rows-append now xs ys (row ∷ rows) =
    ap₂ (λ r rs. r ∷ rs) (mark_row-append now xs ys row) (publish_rows-append now xs ys rows)

pub publish_rows-nil : (now : ℕ) (rows : List Row) → publish_rows now [] rows ≡ rows
unfolding publish_rows mark_row
publish_rows-nil now [] = refl
publish_rows-nil now (row ∷ rows) = ap (λ rs. row ∷ rs) (publish_rows-nil now rows)

-- Only which ids are named matters.
pub publish_rows-same :
    (now : ℕ) (xs ys : List String) (rows : List Row)
    → ((id : String) → any (λ i. i == id) xs ≡ any (λ i. i == id) ys)
    → publish_rows now xs rows ≡ publish_rows now ys rows
unfolding publish_rows mark_row
publish_rows-same now xs ys [] same = refl
publish_rows-same now xs ys (row ∷ rows) same =
    ap₂ (λ r rs. r ∷ rs) (ap (λ b. if b then publish_row now row else row) (same row.id))
      (publish_rows-same now xs ys rows same)

abbrev pub named : String → RelayRow → ℕ
named id r = if r.id == id then 1 else 0

pub any-total :
    (id : String) (rs : List RelayRow)
    → any (λ i. i == id) (map id_of rs) ≡ ltb 0 (total (named id) rs)
any-total id [] = refl
any-total id (r ∷ rs) = elim (Bool-cases (r.id == id)) [
  | inl hit ↦ rw hit (ground arith)
  | inr miss ↦ rw miss (any-total id rs ∙ ap (ltb 0) (omega arith))
]

pub total-concat :
    (f : RelayRow → ℕ) (groups : List (List RelayRow))
    → total f (concat groups) ≡ total_all f groups
total-concat f [] = refl
total-concat f (g ∷ gs) = omega (arith, total-append f g (concat gs), total-concat f gs)

pub map-append : (xs ys : List RelayRow) → map id_of (xs ++ ys) ≡ map id_of xs ++ map id_of ys
map-append [] ys = refl
map-append (x ∷ xs) ys = ap (λ zs. x.id ∷ zs) (map-append xs ys)
