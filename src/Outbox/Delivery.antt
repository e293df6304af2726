-- ===== src/Outbox/Delivery.antt =====
-- At-least-once delivery by outbox/relay.py over outbox/backends/asyncpg_relay.py: a row is marked
-- as published only behind the send of its message.
use kafka_reliability.Base.Int.{ℤ}
use kafka_reliability.Base.{ℕ, String, ◌≡◌, refl}
use kafka_reliability.Producers.{in_memory}
use kafka_reliability.Producers.Memory.{InMemoryProducer}
use kafka_reliability.Outbox.Config.{RelayConfig}
use kafka_reliability.Outbox.Relay.{World, run}
use kafka_reliability.Outbox.Relay.Runs.{Keeps-run}
use kafka_reliability.Outbox.Table.{Session, relay_store}
use kafka_reliability.Outbox.Table.Claims.{HasKey}
use kafka_reliability.Outbox.Table.Contract.{Holds, Taken, table_contract}
use kafka_reliability.Outbox.Table.Delivered.{Agrees, IsDelivered, skeleton}

-- Over a table with distinct ids whose published rows were sent, a run of any number of passes
-- leaves each row its id and message and its place, and each row that is published then was sent,
-- whatever becomes of the connection's queries and whichever sends the client refuses.
pub at_least_once :
    (hash : String → ℤ) (crc32 : String → ℕ) (table : String) (self : RelayConfig) (passes : ℕ)
    (w : World Session InMemoryProducer)
    → HasKey (skeleton w.store.rows)
    → IsDelivered w.store.rows w.producer.sent
    → let w' = (run (relay_store hash table) in_memory self crc32 passes w).1 in
      (skeleton w'.store.rows ≡ skeleton w.store.rows) × IsDelivered w'.store.rows w'.producer.sent
at_least_once hash crc32 table self passes w key delivered =
    let sk = skeleton w.store.rows in
    Keeps-run (relay_store hash table) in_memory self (Holds sk) (Agrees sk) Taken
      (table_contract hash table sk key) crc32 passes w (refl, delivered)
