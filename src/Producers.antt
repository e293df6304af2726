-- ===== src/Producers.antt =====
-- producers/port.py: what the relay and the replay runner publish through.
pub mod Memory
pub mod Confluent
use kafka_reliability.Base.Effect.{Exec}
use kafka_reliability.Core.Error.{Error}
use kafka_reliability.Core.Message.{OutgoingMessage}
use Memory.{InMemoryProducer, send, flush}

pub record Producer (P : Type 0) : Type 0 where
  pub send : OutgoingMessage → Exec Error P (Unit {0})
  pub flush : Exec Error P (Unit {0})

abbrev pub in_memory : Producer InMemoryProducer
in_memory = record { send = send; flush = flush }
