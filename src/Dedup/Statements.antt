-- ===== src/Dedup/Statements.antt =====
-- The SQL statements of the SQLite and Postgres stores (dedup/backends/sqlite.py, postgres.py) on
-- the table, whose primary key is the pair of group and key. `processed_at`, which no statement reads,
-- is left out.
pub mod Sweep
use kafka_reliability.Base.{
  ℕ, String, Bool, true, false, ◌&&◌, Option, none, some, leb, if◌then◌else◌, string_eq, pair_eq,
}
use kafka_reliability.Base.Dict.{Dict, lookup, insert, erase}
use kafka_reliability.Dedup.Store.{ClaimState}
use kafka_reliability.Dedup.Memory.{Key, Row, in_scope}

abbrev pub Table : Type 0
Table = Dict Key Row

-- The statements: the number of rows that they changed, and the table after them.
insert_found : Key → Row → Option Row → Table → ℕ × Table
insert_found k row none rows = (1, insert k row rows)
insert_found k row (some old) rows = (0, rows)

-- INSERT ... ON CONFLICT (consumer_group, dedup_key) DO NOTHING
unfoldable pub insert_row : Key → Row → Table → ℕ × Table
unfolding insert_found
insert_row k row rows = insert_found k row (lookup k rows) rows

update_found : (Row → Bool) → Key → Row → Option Row → Table → ℕ × Table
update_found where_ k row none rows = (0, rows)
update_found where_ k row (some old) rows = if where_ old then (1, insert k row rows) else (0, rows)

-- UPDATE ... WHERE consumer_group = ? AND dedup_key = ? AND a condition on the row
unfoldable pub update_row : (Row → Bool) → Key → Row → Table → ℕ × Table
unfolding update_found
update_row where_ k row rows = update_found where_ k row (lookup k rows) rows

delete_found : (Row → Bool) → Key → Option Row → Table → ℕ × Table
delete_found where_ k none rows = (0, rows)
delete_found where_ k (some old) rows = if where_ old then (1, erase k rows) else (0, rows)

-- DELETE ... WHERE consumer_group = ? AND dedup_key = ? AND a condition on the row
unfoldable pub delete_row : (Row → Bool) → Key → Table → ℕ × Table
unfolding delete_found
delete_row where_ k rows = delete_found where_ k (lookup k rows) rows

abbrev pub expired : ℕ → Row → Bool
expired now row = leb row.expires_at now

abbrev pub is_in_progress : ClaimState → Bool
is_in_progress ClaimState.in_progress = true
is_in_progress ClaimState.done = false

abbrev pub any_row : Row → Bool
any_row row = true

-- WHERE expires_at <= ? AND consumer_group = ?, the second with a group only
abbrev pub is_doomed : Option String → ℕ → Key × Row → Bool
is_doomed scope now (k, row) = expired now row && in_scope scope k.0
