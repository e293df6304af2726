-- ===== src/Dedup/Postgres/Quiet.antt =====
-- The methods of the Postgres store while nobody else uses the table and the connection lasts,
-- against those of the in-memory store.
use kafka_reliability.Base.{
  ℕ, zero, suc, ◌+◌, String, ◌≡◌, refl, ap, ◌∙◌, Bool, Bool-cases, inl, inr, Option, none, some, [],
  arith, length, ltb, if◌then◌else◌, string_eq, pair_eq,
}
use kafka_reliability.Base.Dict.{Distinct, lookup}
use kafka_reliability.Base.Chunks.{delete_chunk, sweep_loop, sweep_loop_lem}
use kafka_reliability.Base.Effect.{Result, ok, err}
use kafka_reliability.Core.Error.{Error, configuration}
use kafka_reliability.Dedup.Store.{ClaimState}
use kafka_reliability.Dedup.Memory as Memory
use kafka_reliability.Dedup.Memory.{Row, Memory}
use kafka_reliability.Dedup.Statements.{Table, insert_row, update_row, delete_row, is_doomed}
use kafka_reliability.Dedup.Statements.Sweep.{sweep-agrees}
use kafka_reliability.Dedup.Connection.{exec}
use kafka_reliability.Dedup.Postgres.{
  Database, claim, confirm, release, is_done, purge, attempt, purge_loop,
}

abbrev pub quiet : Memory → Database
quiet s = record { state = s; turns = [] }

abbrev pub quietly : {A : Type 0} → Result Error A × Memory → Result Error A × Database
quietly (r, s) = (r, quiet s)

module _ (group key : String) (s : Memory) where
  -- Undisturbed, a claim is answered and changes the table as the in-memory store's.
  pub claim-quiet :
      (state : ClaimState) (expires_in : ℕ) (conn : Bool)
      → claim group key state expires_in (quiet s)
        ≡ quietly (Memory.claim group key state expires_in conn s)
  unfolding claim exec attempt insert_row update_row Memory.claim Memory.put_row
  claim-quiet state expires_in conn = ground arith

  pub confirm-quiet :
      (expires_in : ℕ) (row : Row)
      → lookup (group, key) s.rows ≡ some row
      → confirm group key expires_in (quiet s) ≡ quietly (Memory.confirm group key expires_in s)
  unfolding confirm exec update_row Memory.confirm Memory.put_row
  confirm-quiet expires_in row found = rw found refl

  pub release-quiet : release group key (quiet s) ≡ quietly (Memory.release group key s)
  unfolding release exec delete_row Memory.release
  release-quiet = ground arith

  pub is_done-quiet : is_done group key (quiet s) ≡ quietly (Memory.is_done group key s)
  unfolding is_done exec Memory.is_done
  is_done-quiet = refl

abbrev quietly_swept : Memory → Option (ℕ × Table) → Option (Result Error ℕ × Database)
quietly_swept s none = none
quietly_swept s (some (total, rows)) = some (ok total, quiet (record s { rows = rows }))

purge_loop-quiet :
    (scope : Option String) (chunk fuel total : ℕ) (s : Memory)
    → purge_loop scope chunk fuel total (quiet s)
      ≡ quietly_swept s (sweep_loop (is_doomed scope s.now) chunk fuel total s.rows)
unfolding purge_loop sweep_loop exec
purge_loop-quiet scope chunk zero total s = refl
purge_loop-quiet scope chunk (suc fuel) total s =
    let p = delete_chunk (is_doomed scope s.now) chunk s.rows in
    elim (Bool-cases (ltb p.1 chunk)) [
      | inl short ↦ rw short refl
      | inr full ↦
          rw full (purge_loop-quiet scope chunk fuel (total + p.1) (record s { rows = p.0 }))
    ]

-- Undisturbed, over rows with distinct keys, the chunked sweep of one group or of all ends, within as
-- many chunks as there are rows and one more, and leaves and returns what the in-memory store's does;
-- a chunk below one is refused.
pub purge-quiet :
    (scope : Option String) (chunk : ℕ) (s : Memory)
    → Distinct s.rows
    → purge scope none chunk (suc (length s.rows)) (quiet s) ≡ (
        if ltb chunk 1
        then some (err configuration, quiet s)
        else some (quietly (Memory.purge scope none s)))
unfolding purge Memory.purge
purge-quiet scope chunk s d = elim (Bool-cases (ltb chunk 1)) [
  | inl empty ↦ rw empty refl
  | inr full ↦ rw full (
      purge_loop-quiet scope chunk (suc (length s.rows)) 0 s
      ∙ ap (quietly_swept s) (sweep_loop_lem (is_doomed scope s.now) chunk s.rows full)
      ∙ ap (λ p. quietly_swept s (some p)) (sweep-agrees scope s.now s.rows d))
]
