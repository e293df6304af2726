-- ===== src/Outbox/Retention.antt =====
-- outbox/retention.py: the sweep of published rows, in chunks. The statements of one sweep run at
-- one time of the database's clock, and a chunk takes the rows that come first in the table, where
-- the SQL leaves the choice open.
pub mod Sweep
mod Tests
use kafka_reliability.Base.{
  ℕ, zero, suc, ◌+◌, Bool, true, false, ◌&&◌, Option, none, some, List, [], ◌∷◌, length, ltb,
  if◌then◌else◌,
}
use kafka_reliability.Base.Int.{ℤ, pos, int_ltb, magnitude}
use kafka_reliability.Base.Chunks.{sweep_loop}
use kafka_reliability.Base.Effect.{Result, ok, err}
use kafka_reliability.Core.Error.{Error, configuration}
use kafka_reliability.Outbox.Table.{Row, Status, published}

abbrev is_published : Status → Bool
is_published published = true
is_published _ = false

-- published_at < now() - older_than, which is not true of NULL
abbrev is_before : ℕ → ℕ → Option ℕ → Bool
is_before older_than now none = false
is_before older_than now (some at) = ltb (at + older_than) now

abbrev pub is_old : ℕ → ℕ → Row → Bool
is_old older_than now row = is_published row.status && is_before older_than now row.published_at

abbrev pub swept : Option (ℕ × List Row) → Option (Result Error (ℕ × List Row))
swept none = none
swept (some r) = some (ok r)

-- The result is the number of rows deleted and the table that is left.
pub sweep_published : ℤ → ℤ → ℕ → List Row → Option (Result Error (ℕ × List Row))
unfolding sweep_loop
sweep_published older_than chunk now rows =
    if int_ltb chunk (pos 1)
    then some (err configuration)
    else if int_ltb older_than (pos 0)
    then some (err configuration)
    else swept (
        sweep_loop (is_old (magnitude older_than) now) (magnitude chunk) (suc (length rows)) 0 rows)
