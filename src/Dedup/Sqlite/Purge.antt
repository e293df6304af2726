-- ===== src/Dedup/Sqlite/Purge.antt =====
-- The chunked sweep of the SQLite store against the sweep of the in-memory store.
use kafka_reliability.Base.{
  ℕ, String, ◌≡◌, refl, ap, ◌∙◌, Bool-cases, inl, inr, Option, none, some, arith, ltb, string_eq,
  pair_eq, if◌then◌else◌,
}
use kafka_reliability.Base.Dict.{Distinct}
use kafka_reliability.Base.Chunks.{sweep_loop_lem}
use kafka_reliability.Base.Effect.{err}
use kafka_reliability.Core.Error.{configuration}
use kafka_reliability.Dedup.Memory as Memory
use kafka_reliability.Dedup.Memory.{Memory, Row, Key}
use kafka_reliability.Dedup.Statements.Sweep.{sweep-agrees}
use kafka_reliability.Dedup.Statements.{delete_row, is_doomed}
use kafka_reliability.Dedup.Sqlite.{purge, swept}

-- Over rows with distinct keys, the chunked sweep of one group or of all ends, and leaves and returns
-- what the in-memory store's sweep does, whatever the size of a chunk; a chunk below one is refused.
pub purge-sweeps :
    (scope : Option String) (chunk : ℕ) (s : Memory)
    → Distinct s.rows
    → purge scope none chunk s
      ≡ (if ltb chunk 1 then some (err configuration, s) else some (Memory.purge scope none s))
unfolding purge Memory.purge
purge-sweeps none chunk s d = elim (Bool-cases (ltb chunk 1)) [
  | inl empty ↦ rw empty refl
  | inr full ↦ rw full (
      ap (swept s) (sweep_loop_lem (is_doomed none s.now) chunk s.rows full)
      ∙ ap (λ p. swept s (some p)) (sweep-agrees none s.now s.rows d))
]
purge-sweeps (some group) chunk s d = elim (Bool-cases (ltb chunk 1)) [
  | inl empty ↦ rw empty refl
  | inr full ↦ rw full (
      ap (swept s) (sweep_loop_lem (is_doomed (some group) s.now) chunk s.rows full)
      ∙ ap (λ p. swept s (some p)) (sweep-agrees (some group) s.now s.rows d))
]

-- By its key, a record of a group is deleted as the in-memory store deletes it.
pub purge-key :
    (group key : String) (chunk : ℕ) (s : Memory)
    → purge (some group) (some key) chunk s ≡ some (Memory.purge (some group) (some key) s)
unfolding purge delete_row Memory.purge Memory.purge_key
purge-key group key chunk s = ground arith
