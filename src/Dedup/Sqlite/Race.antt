-- ===== src/Dedup/Sqlite/Race.antt =====
-- Two claims whose statements interleave, of two processes on one database file.
use kafka_reliability.Base.{ℕ, ◌≡◌, ◌<◌, ◌≤◌, some, arith, string_eq, pair_eq, equals_refl}
use kafka_reliability.Base.Dict.{lookup, lookup-insert}
use kafka_reliability.Base.Effect.{ok}
use kafka_reliability.Dedup.Store.{ClaimResult, Claim}
use kafka_reliability.Dedup.Memory.{Key, Row}
use kafka_reliability.Dedup.Statements.{Table, insert_row, update_row, is_in_progress}
use kafka_reliability.Dedup.Sqlite.{claim_between}

-- A claim of one process on its own.
abbrev pub alone : Key → Row → ℕ → Table → Table
alone k new now rows = (claim_between k new now (λ t. t) (λ t. t) rows).1

abbrev pub granted : Row → Claim
granted old = record { result = ClaimResult.claimed; lease_expired = is_in_progress old.state }

-- Two claims of one key whose row has expired, the second of which runs between the SELECT and the
-- UPDATE of the first: both are granted, and the table keeps the second's row only.
pub both_claimed :
    (k : Key) (old first second : Row) (now : ℕ) (rows : Table)
    → lookup k rows ≡ some old
    → old.expires_at ≤ now
    → now < second.expires_at
    → ((claim_between k first now (λ t. t) (alone k second now) rows).0 ≡ ok (granted old))
      × ((claim_between k second now (λ t. t) (λ t. t) rows).0 ≡ ok (granted old))
      × (lookup k (claim_between k first now (λ t. t) (alone k second now) rows).1 ≡ some second)
unfolding claim_between insert_row update_row
both_claimed k old first second now rows found gone live =
    ground (arith, lookup-insert k k second rows, equals_refl k.0, equals_refl k.1)
