-- ===== src/Dedup/Sqlite/Consumer.antt =====
-- The deduplicator over the SQLite store, without a transaction, against the one over the in-memory
-- store.
use kafka_reliability.Base.{String, ◌≡◌, refl, false, Option, none, some, string_eq, pair_eq}
use kafka_reliability.Base.Dict.{lookup}
use kafka_reliability.Base.Effect.{Holds}
use kafka_reliability.Core.Error.{Error}
use kafka_reliability.Core.Message.{Record}
use kafka_reliability.Dedup.Store.{ClaimState, Claim}
use kafka_reliability.Dedup.Memory.{Row, Memory, memory_store}
use kafka_reliability.Dedup.Memory.View.{view, answer, claim-eq, lookup-claim_self}
use kafka_reliability.Dedup.Deduplicator.{Deduplicator, World, consume}
use kafka_reliability.Dedup.Deduplicator.Owning.{Granted}
use kafka_reliability.Dedup.Deduplicator.Exchange.{consume-agrees}
use kafka_reliability.Dedup.Sqlite.{sqlite_store}
use kafka_reliability.Dedup.Sqlite.Agrees.{
  claim-agrees, is_done-agrees, release-agrees, confirm-agrees,
}

Present : String → String → Memory → Type 0
Present group key s = (row : Row) × (lookup (group, key) s.rows ≡ some row)

module _ (self : Deduplicator) (group key : String) (s : Memory) where
  abbrev claimed_state : Memory
  claimed_state = (memory_store.claim group key ClaimState.in_progress self.lease false s).1

  answer-Granted :
      (v : Option ClaimState)
      → view s (group, key) ≡ v
      → Granted Present group key (some (answer v)) claimed_state
  unfolding Present
  answer-Granted none free =
      (_, lookup-claim_self group key s ClaimState.in_progress self.lease false free)
  answer-Granted (some ClaimState.done) h = tt
  answer-Granted (some ClaimState.in_progress) h = tt

  claim-Granted :
      Holds
        (λ (c : Claim) s'. Granted Present group key (some c.result) s')
        (memory_store.claim group key ClaimState.in_progress self.lease false s)
  claim-Granted =
      rw (claim-eq group key s ClaimState.in_progress self.lease false)
        (answer-Granted (view s (group, key)) refl)

-- Without a transaction, in any mode, one guarded record over the SQLite store ends as it does over
-- the in-memory store: the same reply or exception, the same rows, reports and handled records.
pub consume_as_memory :
    (self : Deduplicator) (r : Record) (outcome : Option Error) (w : World Memory)
    → consume sqlite_store self r false outcome w ≡ consume memory_store self r false outcome w
unfolding Present
consume_as_memory self r outcome w =
    consume-agrees Present sqlite_store memory_store self
      (λ group key state expires_in conn s. claim-agrees group key s state expires_in conn)
      (λ group key s. is_done-agrees group key s) (λ group key s. release-agrees group key s)
      (λ group key s p. confirm-agrees group key s self.ttl p.1)
      (λ group key s. claim-Granted self group key s) r outcome w
