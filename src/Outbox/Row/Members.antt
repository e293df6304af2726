-- ===== src/Outbox/Row/Members.antt =====
-- The groups of outbox/relay.py's `_group_by_key` hold no row but those that were claimed.
use kafka_reliability.Base.{
  String, Bool-cases, inl, inr, List, [], ◌∷◌, All, All-append, ◌==◌, string_eq,
}
use kafka_reliability.Base.Dict.{Dict, lookup, insert}
use kafka_reliability.Outbox.Row.{RelayRow, append_row, group_rows, group_by_key, or_empty, values}

module _ (P : RelayRow → Type 0) where
  abbrev AllIn : Dict String (List RelayRow) → Type 0
  AllIn groups = All (All P) (values groups)

  AllIn-lookup :
      (k : String) (groups : Dict String (List RelayRow))
      → AllIn groups
      → All P (or_empty (lookup k groups))
  unfolding lookup
  AllIn-lookup k [] h = tt
  AllIn-lookup k ((x, rows) ∷ groups) h = elim (Bool-cases (x == k)) [
    | inl hit ↦ rw hit h.0
    | inr miss ↦ rw miss (AllIn-lookup k groups h.1)
  ]

  AllIn-insert :
      (k : String) (rows : List RelayRow) (groups : Dict String (List RelayRow))
      → All P rows
      → AllIn groups
      → AllIn (insert k rows groups)
  unfolding insert
  AllIn-insert k rows [] new h = (new, tt)
  AllIn-insert k rows ((x, old) ∷ groups) new h = elim (Bool-cases (x == k)) [
    | inl hit ↦ rw hit (new, h.1)
    | inr miss ↦ rw miss (h.0, AllIn-insert k rows groups new h.1)
  ]

  AllIn-append_row :
      (row : RelayRow) (groups : Dict String (List RelayRow))
      → P row
      → AllIn groups
      → AllIn (append_row row groups)
  unfolding append_row
  AllIn-append_row row groups p h =
      AllIn-insert row.aggregateid _ groups
        (All-append P _ _ (AllIn-lookup row.aggregateid groups h) (p, tt)) h

  All-group_rows :
      (groups : Dict String (List RelayRow)) (singles : List (List RelayRow)) (rows : List RelayRow)
      → AllIn groups
      → All (All P) singles
      → All P rows
      → AllIn (group_rows groups singles rows).0 × All (All P) (group_rows groups singles rows).1
  unfolding group_rows append_row
  All-group_rows groups singles [] g s h = (g, s)
  All-group_rows groups singles (row ∷ rows) g s h = elim (Bool-cases (row.aggregateid == "")) [
    | inl keyless ↦
        rw keyless
          (All-group_rows groups _ rows g (All-append (All P) singles _ s ((h.0, tt), tt)) h.1)
    | inr keyed ↦ rw keyed (
        All-group_rows (append_row row groups) singles rows (AllIn-append_row row groups h.0 g) s
          h.1)
  ]

  pub All-group_by_key : (rows : List RelayRow) → All P rows → All (All P) (group_by_key rows)
  unfolding group_by_key
  All-group_by_key rows h =
      let both = All-group_rows [] [] rows tt tt h in All-append (All P) _ _ both.0 both.1
