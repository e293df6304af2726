-- ===== src/Outbox/Row/Totals.antt =====
-- The groups of outbox/relay.py's `_group_by_key` hold each claimed row once: totals over the rows.
use kafka_reliability.Base.{
  ℕ, ◌+◌, String, ◌≡◌, Bool-cases, inl, inr, List, [], ◌∷◌, ◌++◌, arith, ◌==◌, string_eq,
}
use kafka_reliability.Base.Dict.{Dict, lookup, insert}
use kafka_reliability.Outbox.Row.{RelayRow, append_row, group_rows, group_by_key, or_empty, values}

module _ (f : RelayRow → ℕ) where
  abbrev pub total : List RelayRow → ℕ
  total [] = 0
  total (row ∷ rows) = f row + total rows

  abbrev pub total_all : List (List RelayRow) → ℕ
  total_all [] = 0
  total_all (g ∷ gs) = total g + total_all gs

  pub total-append : (xs ys : List RelayRow) → total (xs ++ ys) ≡ total xs + total ys
  total-append [] ys = omega arith
  total-append (x ∷ xs) ys = omega (arith, total-append xs ys)

  total_all-append :
      (xs ys : List (List RelayRow)) → total_all (xs ++ ys) ≡ total_all xs + total_all ys
  total_all-append [] ys = omega arith
  total_all-append (x ∷ xs) ys = omega (arith, total_all-append xs ys)

  total-insert :
      (k : String) (rows : List RelayRow) (groups : Dict String (List RelayRow))
      → total_all (values (insert k rows groups)) + total (or_empty (lookup k groups))
        ≡ total_all (values groups) + total rows
  unfolding insert lookup
  total-insert k rows [] = omega arith
  total-insert k rows ((x, old) ∷ groups) = elim (Bool-cases (x == k)) [
    | inl hit ↦ rw hit (omega arith)
    | inr miss ↦ rw miss (omega (arith, total-insert k rows groups))
  ]

  total-append_row :
      (row : RelayRow) (groups : Dict String (List RelayRow))
      → total_all (values (append_row row groups)) ≡ total_all (values groups) + f row
  unfolding append_row
  total-append_row row groups =
      let old = or_empty (lookup row.aggregateid groups) in
      omega
        (arith, total-insert row.aggregateid (old ++ row ∷ []) groups, total-append old (row ∷ []))

  total-group_rows :
      (groups : Dict String (List RelayRow)) (singles : List (List RelayRow)) (rows : List RelayRow)
      → total_all (values (group_rows groups singles rows).0)
          + total_all (group_rows groups singles rows).1
        ≡ total_all (values groups) + (total_all singles + total rows)
  unfolding group_rows append_row
  total-group_rows groups singles [] = omega arith
  total-group_rows groups singles (row ∷ rows) = elim (Bool-cases (row.aggregateid == "")) [
    | inl keyless ↦ rw keyless (
        omega (
          arith,
          total-group_rows groups (singles ++ (row ∷ []) ∷ []) rows,
          total_all-append singles ((row ∷ []) ∷ []),
        ))
    | inr keyed ↦ rw keyed (
        omega (
          arith,
          total-group_rows (append_row row groups) singles rows,
          total-append_row row groups,
        ))
  ]

  pub total-group_by_key : (rows : List RelayRow) → total_all (group_by_key rows) ≡ total rows
  unfolding group_by_key
  total-group_by_key rows = omega (
    arith,
    total_all-append (values (group_rows [] [] rows).0) (group_rows [] [] rows).1,
    total-group_rows [] [] rows,
  )
