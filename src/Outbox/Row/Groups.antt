-- ===== src/Outbox/Row/Groups.antt =====
-- `_group_by_key`: the ordering units of a batch.
use mathlib.Core.List.{append-nil, append_assoc}
use kafka_reliability.Base.{
  keep-append, String, ◌≡◌, ◌⊎◌, refl, ap, sym, ◌∙◌, Bool, true, false, Bool-cases, inl, inr,
  Option, none, some, List, [], ◌∷◌, ◌++◌, arith, keep, if◌then◌else◌, ◌==◌, string_eq, equals_refl,
}
use kafka_reliability.Base.Dict.{Dict, Distinct, lookup, insert, lookup-insert, insert-Distinct}
use kafka_reliability.Outbox.Row.{RelayRow, group_rows, group_by_key, values, append_row, or_empty}

-- The rows of a key, in their order.
abbrev pub rows_of : String → List RelayRow → List RelayRow
rows_of k = keep (λ r. r.aggregateid == k)

-- The group of a key after more rows: the one before, and the key's new rows behind it.
abbrev group_of : String → Dict String (List RelayRow) → List RelayRow
group_of k groups = or_empty (lookup k groups)

group_of-append_row :
    (k : String) (row : RelayRow) (groups : Dict String (List RelayRow))
    → group_of k (append_row row groups)
      ≡ (if row.aggregateid == k then group_of k groups ++ row ∷ [] else group_of k groups)
unfolding append_row
group_of-append_row k row groups =
    simp lookup-insert (ground (arith, string_eq.equals_iff row.aggregateid k))

group_of-group_rows :
    (k : String) (groups : Dict String (List RelayRow)) (singles : List (List RelayRow))
    (rows : List RelayRow)
    → (k == "") ≡ false
    → group_of k (group_rows groups singles rows).0 ≡ group_of k groups ++ rows_of k rows
unfolding group_rows
group_of-group_rows k groups singles [] h = sym (append-nil (group_of k groups))
group_of-group_rows k groups singles (row ∷ rows) h = ground (
  arith,
  group_of-group_rows k groups (singles ++ (row ∷ []) ∷ []) rows h,
  group_of-group_rows k (append_row row groups) singles rows h,
  group_of-append_row k row groups,
  append_assoc (group_of k groups) (row ∷ []) (rows_of k rows),
  string_eq.equals_iff row.aggregateid k,
  string_eq.equals_iff row.aggregateid "",
  string_eq.equals_iff k "",
)

-- The keyless rows, each alone.
abbrev pub alone : List RelayRow → List (List RelayRow)
alone [] = []
alone (row ∷ rows) = (row ∷ []) ∷ alone rows

singles-group_rows :
    (groups : Dict String (List RelayRow)) (singles : List (List RelayRow)) (rows : List RelayRow)
    → (group_rows groups singles rows).1 ≡ singles ++ alone (rows_of "" rows)
unfolding group_rows
singles-group_rows groups singles [] = sym (append-nil singles)
singles-group_rows groups singles (row ∷ rows) = ground (
  arith,
  singles-group_rows groups (singles ++ (row ∷ []) ∷ []) rows,
  singles-group_rows (append_row row groups) singles rows,
  append_assoc singles ((row ∷ []) ∷ []) (alone (rows_of "" rows)),
)

-- The first row of a group has the key.
abbrev pub headed : String → List RelayRow → Bool
headed k [] = false
headed k (row ∷ rows) = row.aggregateid == k

-- Each entry of the dict is headed by its key, which is not empty.
abbrev IsHeaded : Dict String (List RelayRow) → Type 0
IsHeaded [] = Unit
IsHeaded ((k, rows) ∷ d) = (headed k rows ≡ true) × ((k == "") ≡ false) × IsHeaded d

headed-append :
    (k : String) (o : Option (List RelayRow)) (row : RelayRow)
    → row.aggregateid ≡ k
    → (o ≡ none) ⊎ (headed k (or_empty o) ≡ true)
    → headed k (or_empty o ++ row ∷ []) ≡ true
headed-append k none row e h = rw e (equals_refl k)
headed-append k (some []) row e h = rw e (equals_refl k)
headed-append k (some (r ∷ rs)) row e h = ground arith

insert-IsHeaded :
    (k : String) (rows : List RelayRow) (d : Dict String (List RelayRow))
    → headed k rows ≡ true
    → (k == "") ≡ false
    → IsHeaded d
    → IsHeaded (insert k rows d)
unfolding insert
insert-IsHeaded k rows [] h n d = (h, n, tt)
insert-IsHeaded k rows ((j, g) ∷ d) h n v =
    ground (arith, insert-IsHeaded k rows d h n v.2, string_eq.equals_iff j k)

lookup-IsHeaded :
    (k : String) (d : Dict String (List RelayRow))
    → IsHeaded d
    → (lookup k d ≡ none) ⊎ (headed k (or_empty (lookup k d)) ≡ true)
unfolding lookup
lookup-IsHeaded k [] v = inl refl
lookup-IsHeaded k ((j, g) ∷ d) v = ground (arith, lookup-IsHeaded k d v.2, string_eq.equals_iff j k)

append_row-IsHeaded :
    (row : RelayRow) (d : Dict String (List RelayRow))
    → (row.aggregateid == "") ≡ false
    → IsHeaded d
    → IsHeaded (append_row row d)
unfolding append_row
append_row-IsHeaded row d n v =
    insert-IsHeaded row.aggregateid (or_empty (lookup row.aggregateid d) ++ row ∷ []) d
      (headed-append row.aggregateid (lookup row.aggregateid d) row refl
        (lookup-IsHeaded row.aggregateid d v))
      n v

record IsGrouped (d : Dict String (List RelayRow)) : Type 0 where
  entries : IsHeaded d
  distinct : Distinct d

group_rows-IsGrouped :
    (d : Dict String (List RelayRow)) (singles : List (List RelayRow)) (rows : List RelayRow)
    → IsGrouped d
    → IsGrouped (group_rows d singles rows).0
unfolding group_rows
group_rows-IsGrouped d singles [] v = v
group_rows-IsGrouped d singles (row ∷ rows) v = elim (Bool-cases (row.aggregateid == "")) [
  | inl keyless ↦ rw keyless (group_rows-IsGrouped d (singles ++ (row ∷ []) ∷ []) rows v)
  | inr keyed ↦ rw keyed (
      group_rows-IsGrouped (append_row row d) singles rows (record {
        entries = append_row-IsHeaded row d keyed v.entries;
        distinct =
            unfold append_row in
            insert-Distinct row.aggregateid (or_empty (lookup row.aggregateid d) ++ row ∷ []) d
              v.distinct;
      }))
]

-- The groups of a key.
abbrev pub units : String → List (List RelayRow) → List (List RelayRow)
units k = keep (headed k)

abbrev pub one_unless_empty : List RelayRow → List (List RelayRow)
one_unless_empty [] = []
one_unless_empty (row ∷ rows) = (row ∷ rows) ∷ []

units-values :
    (k : String) (d : Dict String (List RelayRow))
    → IsGrouped d
    → units k (values d) ≡ one_unless_empty (group_of k d)
unfolding lookup
units-values k [] v = refl
units-values k ((j, []) ∷ d) v = absurd (cc (v.entries.0))
units-values k ((j, row ∷ rows) ∷ d) v = ground (
  arith,
  units-values k d (record { entries = v.entries.2; distinct = v.distinct.1 }),
  string_eq.equals_iff row.aggregateid j,
  string_eq.equals_iff row.aggregateid k,
  string_eq.equals_iff j k,
  v.distinct.0,
  v.entries.0,
)

units-alone :
    (k : String) (rows : List RelayRow)
    → units k (alone (rows_of "" rows)) ≡ (if k == "" then alone (rows_of "" rows) else [])
units-alone k [] = ground arith
units-alone k (row ∷ rows) = ground (
  arith,
  units-alone k rows,
  string_eq.equals_iff row.aggregateid "",
  string_eq.equals_iff row.aggregateid k,
  string_eq.equals_iff k "",
)

no_empty_key : (d : Dict String (List RelayRow)) → IsHeaded d → lookup "" d ≡ none
unfolding lookup
no_empty_key [] v = refl
no_empty_key ((j, g) ∷ d) v = ground (arith, no_empty_key d v.2)

units-keyed :
    (k : String) (rows : List RelayRow) (d : Dict String (List RelayRow))
    → IsGrouped d
    → ((k == "") ≡ false → group_of k d ≡ rows_of k rows)
    → units k (values d) ≡ (if k == "" then [] else one_unless_empty (rows_of k rows))
units-keyed k rows d v full = elim (Bool-cases (k == "")) [
  | inl no_key ↦ rw no_key (
      units-values k d v
      ∙ ap (λ j. one_unless_empty (group_of j d)) ((string_eq.equals_iff k "").0 no_key)
      ∙ ap (λ o. one_unless_empty (or_empty o)) (no_empty_key d v.entries))
  | inr some_key ↦ rw some_key (units-values k d v ∙ ap one_unless_empty (full some_key))
]

join_units :
    (b : Bool) (xs ys : List (List RelayRow))
    → (if b then [] else xs) ++ (if b then ys else []) ≡ (if b then ys else xs)
join_units true xs ys = refl
join_units false xs ys = append-nil xs

-- The batch falls into ordering units: a key that is not empty has one, which holds its rows in
-- their order, if it has rows and none if not; each row with the empty key is a unit of its own.
pub units-group_by_key :
    (k : String) (rows : List RelayRow)
    → units k (group_by_key rows)
      ≡ (if k == "" then alone (rows_of "" rows) else one_unless_empty (rows_of k rows))
unfolding group_by_key lookup
units-group_by_key k rows =
    let groups = (group_rows [] [] rows).0 in
    let v = group_rows-IsGrouped [] [] rows (record { entries = tt; distinct = tt }) in
    keep-append (headed k) (values groups) (group_rows [] [] rows).1
    ∙ ap (λ xs. xs ++ units k (group_rows [] [] rows).1)
        (units-keyed k rows groups v (λ h. group_of-group_rows k [] [] rows h))
    ∙ ap (λ ys. (if k == "" then [] else one_unless_empty (rows_of k rows)) ++ ys)
        (ap (units k) (singles-group_rows [] [] rows) ∙ units-alone k rows)
    ∙ join_units (k == "") (one_unless_empty (rows_of k rows)) (alone (rows_of "" rows))
