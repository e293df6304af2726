-- ===== src/Producers/Confluent.antt =====
-- ConfluentProducerAdapter of producers/confluent.py, over the calls of a confluent_kafka client. The
-- poller's thread is whether it runs, and what it does while a task waits is the client's.
mod Tests
use kafka_reliability.Base.{
  ℕ, zero, suc, String, Bool, true, false, Option, none, some, List, [], ◌∷◌, if◌then◌else◌,
  nat_beq,
}
use kafka_reliability.Base.Effect.{Exec, Result, ok, err, pure, raise, modify, ◌>>=◌, ◌>>◌}
use kafka_reliability.Core.Error.{Error, producer}
use kafka_reliability.Core.Message.{OutgoingMessage}
use kafka_reliability.Core.Utf8.{Bytes}
use kafka_reliability.Producers.{Producer}

-- How `produce` ends: enqueued, BufferError, or KafkaException.
pub data Produced : Type 0 where
  enqueued queue_full rejected : Produced

-- The headers as they are handed over: `none` in place of an empty list.
abbrev pub Headers : Type 0
Headers = Option (List (String × Bytes))

-- `wait` is a sleep of the poll interval; `delivered` waits for the delivery callback, and is whether
-- it was called without an error; `flush` returns the number of messages left, or raises.
pub record Client (C : Type 0) : Type 0 where
  pub produce : OutgoingMessage → Headers → C → Produced × C
  pub wait : C → C
  pub delivered : C → Bool × C
  pub flush : Option ℕ → C → Option ℕ × C

pub record Adapter (C : Type 0) : Type 0 where
  pub client : C
  pub polling : Bool
  pub stop : Bool

abbrev items_or_none : List (String × Bytes) → Headers
items_or_none [] = none
items_or_none (x ∷ xs) = some (x ∷ xs)

-- A thread that is not alive is started, with the stop flag cleared.
abbrev ensure_poller : {C : Type 0} → Adapter C → Adapter C
ensure_poller self = if self.polling then self else record self { polling = true; stop = false }

on_client : {C A : Type 0} → (C → A × C) → Exec Error (Adapter C) A
on_client call self = let (a, c) = call self.client in (ok a, record self { client = c })

module _ {C : Type 0} (client : Client C) (queue_full_retries : ℕ) where
  await_delivered : Bool → Exec Error (Adapter C) (Unit {0})
  await_delivered true = pure tt
  await_delivered false = raise producer

  after_produce : Exec Error (Adapter C) (Unit {0}) → Produced → Exec Error (Adapter C) (Unit {0})
  unfolding on_client await_delivered
  after_produce again enqueued = do reported ← on_client client.delivered; await_delivered reported
  after_produce again queue_full = do
    modify (λ self. record self { client = client.wait self.client })
    again
  after_produce again rejected = raise producer

  -- for _ in range(attempts), and its else
  send_attempts : OutgoingMessage → ℕ → Exec Error (Adapter C) (Unit {0})
  unfolding after_produce on_client
  send_attempts message zero = raise producer
  send_attempts message (suc attempts) =
      let again = send_attempts message attempts in
      do
        produced ← on_client (client.produce message (items_or_none message.headers))
        after_produce again produced

  unfoldable pub send : OutgoingMessage → Exec Error (Adapter C) (Unit {0})
  unfolding send_attempts
  send message = do modify ensure_poller; send_attempts message (suc queue_full_retries)

  check_remaining : Option ℕ → Exec Error (Adapter C) (Unit {0})
  check_remaining none = raise producer
  check_remaining (some zero) = pure tt
  check_remaining (some (suc n)) = raise producer

  unfoldable pub flush : Option ℕ → Exec Error (Adapter C) (Unit {0})
  unfolding check_remaining on_client
  flush timeout = do remaining ← on_client (client.flush timeout); check_remaining remaining

  stopped : {A : Type 0} → A × Adapter C → A × Adapter C
  stopped (end, self) = (end, record self { stop = true; polling = false })

  -- The flush, and whether it raised or not the poller is stopped and joined.
  unfoldable pub close : Option ℕ → Exec Error (Adapter C) (Unit {0})
  unfolding stopped
  close timeout self = stopped (flush timeout self)

  abbrev pub confluent : Producer (Adapter C)
  confluent = record { send = send; flush = flush none }
