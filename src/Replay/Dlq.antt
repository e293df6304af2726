-- ===== src/Replay/Dlq.antt =====
-- replay/dlq.py: the router to a dead-letter topic. An exception is its class, the name of its type and
-- its text.
pub mod Headers
pub mod Routing
mod Tests
use text.Mathlib.Text.{starts_with}
use kafka_reliability.Base.{
  ℕ, zero, suc, ◌-◌, String, Bool, true, false, ◌&&◌, ◌||◌, not, Option, none, some, List, [], ◌∷◌,
  take, length, nat_beq, if◌then◌else◌, ◌==◌, string_eq,
}
use kafka_reliability.Base.Decimal.{decimal_bytes}
use kafka_reliability.Base.Dict.{Dict, lookup, insert}
use kafka_reliability.Base.Effect.{Exec, Result, ok, err, raise, lift, ◌>>=◌, ◌>>◌}
use kafka_reliability.Base.Int.{ℤ, pos, negsuc, int_leb}
use kafka_reliability.Core.Clock.{iso}
use kafka_reliability.Core.Error.{
  Error, configuration, permanent, transient, unclassified, value_error,
}
use kafka_reliability.Core.Message.{
  Record, OutgoingMessage, get_header, dlq_source_topic, dlq_source_partition, dlq_source_offset,
  dlq_source_timestamp, dlq_consumer_group, dlq_error_type, dlq_error_message, dlq_attempts,
  dlq_first_failed_at, dlq_trace_id, dlq_replay_count,
}
use kafka_reliability.Core.Utf8.{Bytes, encode, decode, decode_ignore}
use kafka_reliability.Producers.{Producer}

pub record Failure : Type 0 where
  pub class : Error
  pub type_name : String
  pub text : String

-- typed_errors, a classifier: True is to dead-letter
pub typed_errors : Failure → Result Error Bool
typed_errors failure = elim failure.class [
  | permanent ↦ ok true
  | transient ↦ ok false
  | _ ↦ err unclassified
]

pub data Topic : Type 0 where
  named : String → Topic
  computed : (Record → Result Error String) → Topic

pub record DlqRouter : Type 0 where
  pub topic : Topic
  pub consumer_group : String
  pub classify : Failure → Result Error Bool
  pub include_error : Bool
  pub max_error_bytes : ℤ

abbrev is_unnamed : Topic → Bool
is_unnamed (named topic) = topic == ""
is_unnamed (computed f) = false

-- __init__; that `classify` can be called is in its type
pub dlq_init : DlqRouter → Result Error DlqRouter
dlq_init self =
    if is_unnamed self.topic
    then err configuration
    else if int_leb self.max_error_bytes (negsuc 0)
    then err configuration
    else ok self

pub should_dead_letter : DlqRouter → Failure → Result Error Bool
should_dead_letter self failure = self.classify failure

not_empty : Result Error String → Result Error String
not_empty (ok topic) = if topic == "" then err configuration else ok topic
not_empty (err e) = err e

topic_of : Topic → Record → Result Error String
topic_of (named topic) r = ok topic
topic_of (computed f) r = f r

unfoldable pub dead_letter_topic : DlqRouter → Record → Result Error String
unfolding not_empty topic_of
dead_letter_topic self r = not_empty (topic_of self.topic r)

-- An old diagnosis, which is replaced.
abbrev pub is_stale : String → Bool
is_stale name =
    starts_with name "x-dlq-" && not (name == dlq_replay_count || name == dlq_first_failed_at)

unfoldable pub kept_headers : List (String × Bytes) → Dict String Bytes → Dict String Bytes
kept_headers [] out = out
kept_headers ((name, value) ∷ headers) out =
    let kept = kept_headers headers (insert name value out) in
    let rest = kept_headers headers out in if is_stale name then rest else kept

insert_missing : String → Bytes → Option Bytes → Dict String Bytes → Dict String Bytes
insert_missing name value none d = insert name value d
insert_missing name value (some old) d = d

-- d.setdefault(name, value)
unfoldable pub set_default : String → Bytes → Dict String Bytes → Dict String Bytes
unfolding insert_missing
set_default name value d = insert_missing name value (lookup name d) d

-- bytes[:limit]
abbrev first_bytes : ℤ → Bytes → Bytes
first_bytes (pos n) bs = take n bs
first_bytes (negsuc n) bs = take (length bs - suc n) bs

-- _truncate
unfoldable pub truncate : String → ℤ → Bytes
truncate text limit = encode (decode_ignore (first_bytes limit (encode text)))

-- The part of a split at `-` after the first one: what is read up to the next `-`.
second_part : Bytes → Bytes
second_part [] = []
second_part (c ∷ s) = let rest = second_part s in if nat_beq c 45 then [] else c ∷ rest

abbrev non_empty : Bytes → Option Bytes
non_empty [] = none
non_empty (c ∷ s) = some (c ∷ s)

-- parent.split(b"-")[1], if there is one and it is not empty
after_dash : Bytes → Option Bytes
unfolding second_part
after_dash [] = none
after_dash (c ∷ s) =
    let rest = after_dash s in if nat_beq c 45 then non_empty (second_part s) else rest

parent_id : Option Bytes → Option Bytes
unfolding after_dash
parent_id none = none
parent_id (some parent) = after_dash parent

existing_or : Option Bytes → Option Bytes → Option Bytes
existing_or (some id) other = some id
existing_or none other = other

-- _trace_id
unfoldable pub trace_id_of : Record → Option Bytes
unfolding existing_or parent_id
trace_id_of r =
    existing_or (get_header r.headers dlq_trace_id) (parent_id (get_header r.headers "traceparent"))

insert_if : String → Option Bytes → Dict String Bytes → Dict String Bytes
insert_if name none d = d
insert_if name (some value) d = insert name value d

module _ (self : DlqRouter) (now : ℕ) (r : Record) (failure : Failure) (attempts : ℕ) where
  -- The diagnosis, over the headers that are kept.
  diagnosed : Dict String Bytes → Dict String Bytes
  diagnosed kept = insert dlq_attempts (decimal_bytes attempts) (
      insert dlq_error_type (encode failure.type_name) (
        insert dlq_consumer_group (encode self.consumer_group) (
          insert dlq_source_timestamp (iso r.timestamp) (
            insert dlq_source_offset (decimal_bytes r.offset) (
              insert dlq_source_partition (decimal_bytes r.partition)
                (insert dlq_source_topic (encode r.topic) kept))))))

  with_message : Dict String Bytes → Dict String Bytes
  with_message d =
      if self.include_error
      then insert dlq_error_message (truncate failure.text self.max_error_bytes) d
      else d

  pub dlq_headers : Dict String Bytes
  unfolding diagnosed with_message insert_if
  dlq_headers = insert_if dlq_trace_id (trace_id_of r) (
      with_message
        (set_default dlq_first_failed_at (iso now) (diagnosed (kept_headers r.headers []))))

  dead_letter : Result Error String → Result Error OutgoingMessage
  dead_letter (err e) = err e
  dead_letter (ok topic) =
      ok (record { topic = topic; value = r.value; key = r.key; headers = dlq_headers })

  -- build
  unfoldable pub dlq_build : Result Error OutgoingMessage
  unfolding dead_letter
  dlq_build = dead_letter (dead_letter_topic self r)

  decoded : Option String → Result Error (Unit {0})
  decoded none = err value_error
  decoded (some s) = ok tt

  or_empty : Option Bytes → Bytes
  or_empty none = []
  or_empty (some bs) = bs

  -- The arguments of the log call, of which one is decoded strictly.
  logged : OutgoingMessage → Result Error (Unit {0})
  unfolding decoded or_empty
  logged message = decoded (decode (or_empty (lookup dlq_trace_id message.headers)))

  pub route : {P : Type 0} → Producer P → Exec Error P (Unit {0})
  unfolding logged
  route producer = do message ← lift dlq_build; lift (logged message); producer.send message
