-- ===== src/Dedup/Postgres.antt =====
-- dedup/backends/postgres.py: the methods, over the statements on the table behind a connection.
pub mod Contention
pub mod Quiet
mod Tests
use kafka_reliability.Base.{
  ℕ, zero, suc, ◌+◌, String, Bool, true, false, Option, none, some, List, [], ◌∷◌, length, ltb,
  nat_beq, if◌then◌else◌, string_eq, pair_eq,
}
use kafka_reliability.Base.Dict.{lookup}
use kafka_reliability.Base.Chunks.{delete_chunk}
use kafka_reliability.Base.Effect.{Exec, Result, ok, err, pure, raise, ◌>>=◌}
use kafka_reliability.Core.Error.{Error, configuration, store_unavailable}
use kafka_reliability.Dedup.Store.{ClaimState, ClaimResult, Claim}
use kafka_reliability.Dedup.Memory.{Key, Row, Memory, is_live_done}
use kafka_reliability.Dedup.Connection.{Call, Remote, exec}
use kafka_reliability.Dedup.Statements.{
  Table, insert_row, update_row, delete_row, expired, is_in_progress, any_row, is_doomed,
}

abbrev pub Database : Type 0
Database = Remote Memory

abbrev Statement : Type 0 → Type 0
Statement A = Call Memory A

-- The state that an UPDATE of that many rows returns.
state_if : ℕ → Option Row → Option ClaimState
state_if zero old = none
state_if (suc n) none = none
state_if (suc n) (some row) = some row.state

abbrev pub state_of : Option Row → Option ClaimState
state_of none = none
state_of (some row) = some row.state

-- The answer to what the SELECT found; a row that vanished makes the loop go on.
settled : Option ClaimState → Exec Error Database Claim → Exec Error Database Claim
settled (some ClaimState.done) again =
    pure (record { result = ClaimResult.already_done; lease_expired = false })
settled (some ClaimState.in_progress) again =
    pure (record { result = ClaimResult.in_progress; lease_expired = false })
settled none again = again

module _ (k : Key) (state : ClaimState) (expires_in : ℕ) where
  -- The row that a claim writes, by the database's clock.
  abbrev pub new_row : Memory → Row
  new_row s = record { state = state; expires_at = s.now + expires_in }

  -- INSERT ... ON CONFLICT DO NOTHING RETURNING 1
  insert_returning : Statement Bool
  insert_returning s =
      let (rowcount, rows) = insert_row k (new_row s) s.rows in
      (nat_beq rowcount 1, record s { rows = rows })

  -- UPDATE ... WHERE expires_at <= now() RETURNING old.state
  update_returning : Statement (Option ClaimState)
  unfolding state_if
  update_returning s =
      let (rowcount, rows) = update_row (expired s.now) k (new_row s) s.rows in
      (state_if rowcount (lookup k s.rows), record s { rows = rows })

  -- SELECT state
  select_state : Statement (Option ClaimState)
  select_state s = (state_of (lookup k s.rows), s)

  taken_over : Option ClaimState → Exec Error Database Claim → Exec Error Database Claim
  unfolding select_state settled
  taken_over (some old) again =
      pure (record { result = ClaimResult.claimed; lease_expired = is_in_progress old })
  taken_over none again = do live ← exec select_state; settled live again

  inserted : Bool → Exec Error Database Claim → Exec Error Database Claim
  unfolding update_returning taken_over
  inserted true again = pure (record { result = ClaimResult.claimed; lease_expired = false })
  inserted false again = do old ← exec update_returning; taken_over old again

  -- for _ in range(attempts)
  attempt : ℕ → Exec Error Database Claim
  unfolding insert_returning inserted
  attempt zero = raise store_unavailable
  attempt (suc n) = let again = attempt n in do got ← exec insert_returning; inserted got again

pub claim : String → String → ClaimState → ℕ → Exec Error Database Claim
unfolding attempt
claim group key state expires_in = attempt (group, key) state expires_in 3

pub confirm : String → String → ℕ → Exec Error Database (Unit {0})
confirm group key expires_in = exec λ s. (
  tt,
  record s {
    rows =
        (update_row any_row (group, key)
          (record { state = ClaimState.done; expires_at = s.now + expires_in }) s.rows).1;
  },
)

pub release : String → String → Exec Error Database (Unit {0})
release group key = exec λ s.
    (tt, record s { rows = (delete_row (λ row. is_in_progress row.state) (group, key) s.rows).1 })

pub is_done : String → String → Exec Error Database Bool
is_done group key = exec λ s. (is_live_done s.now (lookup (group, key) s.rows), s)

delete_key : Key → Statement ℕ
delete_key k s =
    let (rowcount, rows) = delete_row any_row k s.rows in (rowcount, record s { rows = rows })

-- WITH doomed AS (SELECT ... LIMIT $1) DELETE ...
delete_doomed : Option String → ℕ → Statement ℕ
delete_doomed scope chunk s =
    let (rows, deleted) = delete_chunk (is_doomed scope s.now) chunk s.rows in
    (deleted, record s { rows = rows })

purge_then :
    ℕ
    → ℕ
    → (ℕ → Database → Option (Result Error ℕ × Database))
    → Result Error ℕ × Database
    → Option (Result Error ℕ × Database)
purge_then chunk total again (err e, db) = some (err e, db)
purge_then chunk total again (ok deleted, db) =
    let rest = again (total + deleted) db in
    if ltb deleted chunk then some (ok (total + deleted), db) else rest

-- The loop of the sweep; `none` if the fuel does not do.
purge_loop : Option String → ℕ → ℕ → ℕ → Database → Option (Result Error ℕ × Database)
unfolding delete_doomed purge_then
purge_loop scope chunk zero total db = none
purge_loop scope chunk (suc fuel) total db =
    purge_then chunk total (purge_loop scope chunk fuel) (exec (delete_doomed scope chunk) db)

pub purge : Option String → Option String → ℕ → ℕ → Database → Option (Result Error ℕ × Database)
unfolding delete_key purge_loop
purge none (some key) chunk fuel db = some (err configuration, db)
purge (some group) (some key) chunk fuel db = some (exec (delete_key (group, key)) db)
purge scope none chunk fuel db =
    if ltb chunk 1 then some (err configuration, db) else purge_loop scope chunk fuel 0 db
