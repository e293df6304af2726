-- ===== src/Replay/Rounds.antt =====
-- A poison message: replay/runner.py sends it, its handler fails, replay/dlq.py sends it to the
-- dead-letter topic, and the runner reads it there again.
pub mod Bounded
mod Tests
use kafka_reliability.Base.{ℕ, zero, suc, String, ◌≡◌, none}
use kafka_reliability.Base.Effect.{ok}
use kafka_reliability.Core.Message.{Record, OutgoingMessage}
use kafka_reliability.Replay.Message.{skip_reason, build}
use kafka_reliability.Replay.Options.{ReplayOptions}
use kafka_reliability.Replay.Selector.{Selection}
use kafka_reliability.Replay.Dlq.{DlqRouter, Failure, dlq_build}

-- Where and when the broker stores a message.
pub record Place : Type 0 where
  pub partition : ℕ
  pub offset : ℕ
  pub timestamp : ℕ

-- The record that a consumer reads.
unfoldable pub stored_at : Place → OutgoingMessage → Record
stored_at place message = record {
  topic = message.topic;
  partition = place.partition;
  offset = place.offset;
  key = message.key;
  value = message.value;
  headers = message.headers;
  timestamp = place.timestamp;
}

-- After so many rounds the first record stands in the dead-letter topic as the second one.
module _ (options : ReplayOptions) (selection : Selection) (router : DlqRouter) where
  pub data Rounds : ℕ → Record → Record → Type 0 where
    first : (r : Record) → Rounds zero r r
    again :
        {n : ℕ} {r0 r : Record} (id : String) (started : ℕ) (place : Place) (now : ℕ)
        (failure : Failure) (attempts : ℕ) (place' : Place) (message dead : OutgoingMessage)
        → Rounds n r0 r
        → skip_reason options id started r selection ≡ ok none
        → build options id started r ≡ ok message
        → dlq_build router now (stored_at place message) failure attempts ≡ ok dead
        → Rounds (suc n) r0 (stored_at place' dead)
