-- ===== src/Dedup/Store.antt =====
-- dedup/store.py: the protocol that a store of processed messages implements. Times and durations
-- are numbers of microseconds; `conn` says whether the caller passed its transaction.
use kafka_reliability.Base.{ℕ, String, Bool, Option}
use kafka_reliability.Base.Effect.{Exec}
use kafka_reliability.Core.Error.{Error}

pub data ClaimState : Type 0 where
  in_progress done : ClaimState

pub data ClaimResult : Type 0 where
  claimed already_done in_progress : ClaimResult

pub record Claim : Type 0 where
  pub result : ClaimResult
  pub lease_expired : Bool

pub record DedupStore (S : Type 0) : Type 0 where
  pub supports_transactions : Bool
  pub claim : String → String → ClaimState → ℕ → Bool → Exec Error S Claim
  pub confirm : String → String → ℕ → Exec Error S (Unit {0})
  pub release : String → String → Exec Error S (Unit {0})
  pub is_done : String → String → Exec Error S Bool
  pub purge : Option String → Option String → Exec Error S ℕ
