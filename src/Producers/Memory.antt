-- ===== src/Producers/Memory.antt =====
-- producers/memory.py: the public test double, with its failure injection.
pub mod Sends
mod Tests
use kafka_reliability.Base.{
  ℕ, ◌+◌, ◌-◌, String, ◌≡◌, Bool, true, false, Option, none, some, List, [], ◌∷◌, ◌++◌, ltb, arith,
  keep, ◌==◌, string_eq, if◌then◌else◌,
}
use kafka_reliability.Base.Effect.{Exec, Result, ok, err}
use kafka_reliability.Core.Error.{Error, producer}
use kafka_reliability.Core.Message.{OutgoingMessage}

pub record InMemoryProducer : Type 0 where
  pub sent : List OutgoingMessage
  pub failed : List OutgoingMessage
  pub to_fail : ℕ
  pub fail_rule : Option (OutgoingMessage → Bool)
  pub flush_count : ℕ

pub init : InMemoryProducer
init = record { sent = []; failed = []; to_fail = 0; fail_rule = none; flush_count = 0 }

abbrev pub breaks_rule : Option (OutgoingMessage → Bool) → OutgoingMessage → Bool
breaks_rule none message = false
breaks_rule (some predicate) message = predicate message

fail : OutgoingMessage → Exec Error InMemoryProducer (Unit {0})
fail message self = (err producer, record self { failed = self.failed ++ message ∷ [] })

unfoldable pub send : OutgoingMessage → Exec Error InMemoryProducer (Unit {0})
unfolding fail
send message self =
    if ltb 0 self.to_fail
    then fail message (record self { to_fail = self.to_fail - 1 })
    else if breaks_rule self.fail_rule message
    then fail message self
    else (ok tt, record self { sent = self.sent ++ message ∷ [] })

pub flush : Exec Error InMemoryProducer (Unit {0})
flush self = (ok tt, record self { flush_count = self.flush_count + 1 })

pub fail_next : ℕ → InMemoryProducer → InMemoryProducer
fail_next n self = record self { to_fail = n }

pub fail_when : Option (OutgoingMessage → Bool) → InMemoryProducer → InMemoryProducer
fail_when predicate self = record self { fail_rule = predicate }

pub messages_for : String → InMemoryProducer → List OutgoingMessage
messages_for topic self = keep (λ m. m.topic == topic) self.sent

pub clear : InMemoryProducer → InMemoryProducer
clear self = record self { sent = []; failed = []; flush_count = 0 }
