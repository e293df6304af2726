-- ===== src/Dedup/Memory/Sweep.antt =====
-- `purge` without a key, the sweep of expired rows.
use kafka_reliability.Base.{
  ℕ, ◌+◌, String, keep, not, ◌&&◌, ◌≡◌, refl, Bool, true, false, Option, none, some, [], ◌∷◌, leb,
  arith, any, length, if◌then◌else◌, ◌==◌, string_eq, pair_eq, pair_equals_iff, equals_refl,
}
use kafka_reliability.Base.Dict.{
  Dict, Distinct, lookup, erase, erase_all, lookup-erase_all, erase_absent, erase_all-cons,
}
use kafka_reliability.Base.Effect.{ok}
use kafka_reliability.Dedup.Memory.{Key, Row, Memory, purge, doomed, in_scope}
use kafka_reliability.Dedup.Memory.View.{live, view}

abbrev is_expired : ℕ → Option Row → Bool
is_expired now none = false
is_expired now (some row) = leb row.expires_at now

-- A key that the sweep chose is bound to an expired row.
doomed_expired :
    (scope : Option String) (now : ℕ) (j : Key) (rows : Dict Key Row)
    → Distinct rows
    → any (λ k. k == j) (doomed scope now rows) ≡ true
    → is_expired now (lookup j rows) ≡ true
unfolding doomed lookup
doomed_expired scope now j [] d h = cc
doomed_expired scope now j ((k, row) ∷ rows) d h =
    ground (arith, doomed_expired scope now j rows d.1, pair_equals_iff k j)

live-doomed :
    (scope : Option String) (s : Memory) (j : Key)
    → Distinct s.rows
    → live s.now (if any (λ k. k == j) (doomed scope s.now s.rows) then none else lookup j s.rows)
      ≡ live s.now (lookup j s.rows)
live-doomed scope s j d = ground (arith, doomed_expired scope s.now j s.rows d)

-- Over rows with distinct keys, the sweep of expired rows, of one group or of all, changes the live state of no key.
pub view-purge :
    (scope : Option String) (s : Memory) (j : Key)
    → Distinct s.rows
    → view (purge scope none s).1 j ≡ view s j
unfolding purge view
view-purge scope s j d =
    rw (lookup-erase_all (doomed scope s.now s.rows) j s.rows) (live-doomed scope s j d)

abbrev pub survives : Option String → ℕ → Key × Row → Bool
survives scope now (k, row) = not (leb row.expires_at now && in_scope scope k.0)

not_doomed :
    (scope : Option String) (now : ℕ) (k : Key) (rows : Dict Key Row)
    → Distinct rows
    → lookup k rows ≡ none
    → any (λ i. i == k) (doomed scope now rows) ≡ false
not_doomed scope now k rows d h = ground (arith, doomed_expired scope now k rows d)

pub erase_doomed :
    (scope : Option String) (now : ℕ) (rows : Dict Key Row)
    → Distinct rows
    → (erase_all (doomed scope now rows) rows ≡ keep (survives scope now) rows)
      × (length (keep (survives scope now) rows) + length (doomed scope now rows) ≡ length rows)
unfolding doomed erase_all erase
erase_doomed scope now [] d = (refl, omega arith)
erase_doomed scope now ((k, row) ∷ rows) d = ground (
  arith,
  erase_doomed scope now rows d.1,
  not_doomed scope now k rows d.1 d.0,
  erase_all-cons (doomed scope now rows) k row rows,
  erase_absent k rows d.0,
  equals_refl k,
)

-- Over rows with distinct keys, the sweep keeps the rows that are live or out of its scope, in their order, removes all others,
-- and returns how many it removed.
pub purge_exact :
    (scope : Option String) (s : Memory)
    → Distinct s.rows
    → let s' = (purge scope none s).1 in
      (s'.rows ≡ keep (survives scope s.now) s.rows)
      × (n : ℕ) × ((purge scope none s).0 ≡ ok n)
      × (length s'.rows + n ≡ length s.rows)
unfolding purge
purge_exact scope s d =
    let (kept, total) = erase_doomed scope s.now s.rows d in
    (kept, length (doomed scope s.now s.rows), refl, rw kept total)
