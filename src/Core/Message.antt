-- ===== src/Core/Message.antt =====
-- core/message.py and core/headers.py. Texts are `String`, bytes are numbers below 256, and a
-- timestamp is a number of microseconds.
use kafka_reliability.Base.{
  ℕ, String, Option, none, some, List, [], ◌∷◌, ◌==◌, string_eq, if◌then◌else◌,
}
use kafka_reliability.Base.Dict.{Dict}
use kafka_reliability.Core.Utf8.{Bytes}

pub record Record : Type 0 where
  pub topic : String
  pub partition : ℕ
  pub offset : ℕ
  pub key : Option Bytes
  pub value : Bytes
  pub headers : List (String × Bytes)
  pub timestamp : ℕ

pub record OutgoingMessage : Type 0 where
  pub topic : String
  pub value : Bytes
  pub key : Option Bytes
  pub headers : Dict String Bytes

-- The first header of that name.
unfoldable pub get_header : List (String × Bytes) → String → Option Bytes
get_header [] name = none
get_header ((header_name, value) ∷ rest) name =
    if header_name == name then some value else get_header rest name

abbrev pub event_id : String
event_id = "x-event-id"

abbrev pub replay_id : String
replay_id = "x-replay-id"

abbrev pub replay_at : String
replay_at = "x-replay-at"

abbrev pub dlq_replay_count : String
dlq_replay_count = "x-dlq-replay-count"

abbrev pub dlq_source_topic : String
dlq_source_topic = "x-dlq-source-topic"

abbrev pub dlq_source_partition : String
dlq_source_partition = "x-dlq-source-partition"

abbrev pub dlq_source_offset : String
dlq_source_offset = "x-dlq-source-offset"

abbrev pub dlq_source_timestamp : String
dlq_source_timestamp = "x-dlq-source-timestamp"

abbrev pub dlq_consumer_group : String
dlq_consumer_group = "x-dlq-consumer-group"

abbrev pub dlq_error_type : String
dlq_error_type = "x-dlq-error-type"

abbrev pub dlq_error_message : String
dlq_error_message = "x-dlq-error-message"

abbrev pub dlq_attempts : String
dlq_attempts = "x-dlq-attempts"

abbrev pub dlq_first_failed_at : String
dlq_first_failed_at = "x-dlq-first-failed-at"

abbrev pub dlq_trace_id : String
dlq_trace_id = "x-dlq-trace-id"
