-- ===== src/Dedup/Sqlite/Agrees.antt =====
-- The methods of the SQLite store, run one after another, against those of the in-memory store.
use kafka_reliability.Base.{ℕ, String, ◌≡◌, refl, Bool, none, some, arith, string_eq, pair_eq}
use kafka_reliability.Base.Dict.{lookup}
use kafka_reliability.Dedup.Store.{ClaimState}
use kafka_reliability.Dedup.Memory as Memory
use kafka_reliability.Dedup.Memory.{Row, Memory}
use kafka_reliability.Dedup.Sqlite.{claim, confirm, release, is_done}
use kafka_reliability.Dedup.Statements.{insert_row, update_row, delete_row}

module _ (group key : String) (s : Memory) where
  pub claim-agrees :
      (state : ClaimState) (expires_in : ℕ) (conn : Bool)
      → claim group key state expires_in conn s ≡ Memory.claim group key state expires_in conn s
  unfolding claim insert_row update_row Memory.claim Memory.put_row
  claim-agrees state expires_in conn = ground arith

  pub release-agrees : release group key s ≡ Memory.release group key s
  unfolding release delete_row Memory.release
  release-agrees = ground arith

  pub is_done-agrees : is_done group key s ≡ Memory.is_done group key s
  unfolding is_done Memory.is_done
  is_done-agrees = refl

  pub confirm-agrees :
      (expires_in : ℕ) {row : Row}
      → lookup (group, key) s.rows ≡ some row
      → confirm group key expires_in s ≡ Memory.confirm group key expires_in s
  unfolding confirm update_row Memory.confirm Memory.put_row
  confirm-agrees expires_in found = rw found refl

  pub confirm-missing :
      (expires_in : ℕ)
      → lookup (group, key) s.rows ≡ none
      → (confirm group key expires_in s).1.rows ≡ s.rows
  unfolding confirm update_row
  confirm-missing expires_in missing = rw missing refl
