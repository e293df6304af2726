-- ===== src/Dedup/Sqlite.antt =====
-- dedup/backends/sqlite.py: the methods, over the statements on the table. The state is the table and
-- the clock's time, as the in-memory store's. The statements of a transaction and of the store's own
-- connection work on the same table. Its times, floats of seconds in the source, are exact here.
pub mod Agrees
pub mod Purge
pub mod Consumer
pub mod Race
mod Tests
use kafka_reliability.Base.{
  ℕ, suc, ◌+◌, String, Bool, true, false, ◌&&◌, Option, none, some, length, leb, ltb, nat_beq,
  if◌then◌else◌, ◌==◌, string_eq, pair_eq,
}
use kafka_reliability.Base.Dict.{lookup}
use kafka_reliability.Base.Chunks.{sweep_loop}
use kafka_reliability.Base.Effect.{Exec, Result, ok, err}
use kafka_reliability.Core.Error.{Error, configuration, type_error}
use kafka_reliability.Dedup.Store.{ClaimState, ClaimResult, Claim, DedupStore}
use kafka_reliability.Dedup.Memory.{Key, Row, Memory, held, is_live_done}
use kafka_reliability.Dedup.Statements.{
  Table, insert_row, update_row, delete_row, expired, is_in_progress, any_row, is_doomed,
}

-- The claim after a conflict: what the SELECT found decides, and the UPDATE's rowcount is not read.
-- `meanwhile` is what other connections do before the UPDATE.
takeover : Key → Row → ℕ → (Table → Table) → Option Row → Exec Error Table Claim
takeover k new now meanwhile none rows = (err type_error, rows)
takeover k new now meanwhile (some old) rows =
    if ltb now old.expires_at then (ok (held old), rows) else (
      ok (record { result = ClaimResult.claimed; lease_expired = is_in_progress old.state }),
      (update_row (expired now) k new (meanwhile rows)).1,
    )

-- The statements of a claim, with what others do before its SELECT and before its UPDATE.
pub claim_between : Key → Row → ℕ → (Table → Table) → (Table → Table) → Exec Error Table Claim
unfolding takeover
claim_between k new now before meanwhile rows =
    let (rowcount, rows1) = insert_row k new rows in
    if nat_beq rowcount 1
    then (ok (record { result = ClaimResult.claimed; lease_expired = false }), rows1)
    else takeover k new now meanwhile (lookup k (before rows1)) (before rows1)

abbrev on_table : {A : Type 0} → Memory → Result Error A × Table → Result Error A × Memory
on_table s (r, rows) = (r, record s { rows = rows })

pub claim : String → String → ClaimState → ℕ → Bool → Exec Error Memory Claim
unfolding claim_between
claim group key state expires_in conn s = on_table s (
    claim_between (group, key) (record { state = state; expires_at = s.now + expires_in }) s.now
      (λ rows. rows) (λ rows. rows) s.rows)

pub confirm : String → String → ℕ → Exec Error Memory (Unit {0})
confirm group key expires_in s = (
  ok tt,
  record s {
    rows =
        (update_row any_row (group, key)
          (record { state = ClaimState.done; expires_at = s.now + expires_in }) s.rows).1;
  },
)

pub release : String → String → Exec Error Memory (Unit {0})
release group key s = (
  ok tt,
  record s { rows = (delete_row (λ row. is_in_progress row.state) (group, key) s.rows).1 },
)

pub is_done : String → String → Exec Error Memory Bool
is_done group key s = (ok (is_live_done s.now (lookup (group, key) s.rows)), s)

abbrev swept : Memory → Option (ℕ × Table) → Option (Result Error ℕ × Memory)
swept s none = none
swept s (some (total, rows)) = some (ok total, record s { rows = rows })

-- `none` if the fuel of the loop does not do.
pub purge : Option String → Option String → ℕ → Memory → Option (Result Error ℕ × Memory)
unfolding delete_row
purge none (some key) chunk s = some (err configuration, s)
purge (some group) (some key) chunk s =
    let (rowcount, rows) = delete_row any_row (group, key) s.rows in
    some (ok rowcount, record s { rows = rows })
purge scope none chunk s =
    if ltb chunk 1
    then some (err configuration, s)
    else swept s (sweep_loop (is_doomed scope s.now) chunk (suc (length s.rows)) 0 s.rows)

-- The loop has enough fuel, so that the second clause is not reached.
abbrev settled : Memory → Option (Result Error ℕ × Memory) → Result Error ℕ × Memory
settled s (some r) = r
settled s none = (err configuration, s)

abbrev pub sqlite_store : DedupStore Memory
sqlite_store = record {
  supports_transactions = true;
  claim = claim;
  confirm = confirm;
  release = release;
  is_done = is_done;
  purge = λ group key s. settled s (purge group key 10000 s);
}
