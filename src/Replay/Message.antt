-- ===== src/Replay/Message.antt =====
-- What ReplayRunner of replay/runner.py makes of one record: why it is skipped, or the message that is
-- sent for it, and its audit entry. The replay's uuid and its start are parameters.
pub mod Selected
use kafka_reliability.Base.{
  ℕ, String, Bool, true, false, ◌||◌, Option, none, some, List, [], ◌∷◌, if◌then◌else◌, ◌==◌,
  string_eq,
}
use kafka_reliability.Base.Int.{ℤ, pos, int_leb, next}
use kafka_reliability.Base.Dict.{Dict, insert}
use kafka_reliability.Base.Effect.{Result, ok, err}
use kafka_reliability.Core.Clock.{iso}
use kafka_reliability.Core.Error.{Error, value_error}
use kafka_reliability.Core.Message.{
  Record, OutgoingMessage, get_header, replay_id, replay_at, dlq_replay_count,
}
use kafka_reliability.Core.Utf8.{Bytes, encode}
use kafka_reliability.Replay.Audit.{AuditEntry, encode_key}
use kafka_reliability.Replay.Count.{int_of, str_of}
use kafka_reliability.Replay.Options.{ReplayOptions}
use kafka_reliability.Replay.Selector.{Selection}

abbrev skip_predicate : String
skip_predicate = "predicate"

abbrev skip_replay_count : String
skip_replay_count = "replay_count_threshold"

abbrev skip_bad_replay_count : String
skip_bad_replay_count = "invalid_replay_count"

-- The count of an int that is there, of a missing header 0; `none` is a ValueError.
unfoldable pub count_in : Option Bytes → Option ℤ
count_in none = some (pos 0)
count_in (some raw) = int_of raw

-- dict(headers)
unfoldable pub dict_of : List (String × Bytes) → Dict String Bytes → Dict String Bytes
dict_of [] out = out
dict_of ((name, value) ∷ headers) out = dict_of headers (insert name value out)

abbrev pub is_replay_header : String → Bool
is_replay_header name = name == replay_id || name == replay_at || name == dlq_replay_count

-- {n: v for n, v in headers if n not in (REPLAY_ID, REPLAY_AT, DLQ_REPLAY_COUNT)}
unfoldable pub other_headers : List (String × Bytes) → Dict String Bytes → Dict String Bytes
other_headers [] out = out
other_headers ((name, value) ∷ headers) out =
    let kept = other_headers headers (insert name value out) in
    let rest = other_headers headers out in if is_replay_header name then rest else kept

module _ (options : ReplayOptions) (id : String) (started : ℕ) where
  by_count : Option Bytes → Option ℤ → Option String
  by_count none count = none
  by_count (some raw) none = some skip_bad_replay_count
  by_count (some raw) (some count) =
      if int_leb options.max_replay_count count then some skip_replay_count else none

  unless_matched : Record → Bool → Option String
  unfolding by_count
  unless_matched record_ false = some skip_predicate
  unless_matched record_ true =
      let raw = get_header record_.headers dlq_replay_count in by_count raw (count_in raw)

  after_predicate : Record → Result Error Bool → Result Error (Option String)
  unfolding unless_matched
  after_predicate record_ (ok matches) = ok (unless_matched record_ matches)
  after_predicate record_ (err e) = err e

  applied : Option (Record → Result Error Bool) → Record → Result Error Bool
  applied none record_ = ok true
  applied (some predicate) record_ = predicate record_

  -- _skip_reason
  unfoldable pub skip_reason : Record → Selection → Result Error (Option String)
  unfolding after_predicate applied
  skip_reason record_ selection = after_predicate record_ (applied selection.predicate record_)

  unfoldable pub replayed : Record → ℤ → OutgoingMessage
  replayed record_ count = record {
    topic = options.target_topic;
    value = record_.value;
    key = if options.preserve_key then record_.key else none;
    headers = insert replay_at (iso started) (
        insert replay_id (encode id)
          (insert dlq_replay_count (str_of (next count)) (other_headers record_.headers [])));
  }

  or_value_error : Record → Option ℤ → Result Error OutgoingMessage
  unfolding replayed
  or_value_error record_ none = err value_error
  or_value_error record_ (some count) = ok (replayed record_ count)

  -- _build
  unfoldable pub build : Record → Result Error OutgoingMessage
  unfolding or_value_error
  build record_ = or_value_error record_ (count_in (get_header record_.headers dlq_replay_count))

  -- _audit_entry
  pub audit_entry : Record → OutgoingMessage → AuditEntry
  audit_entry record_ message = record {
    replay_id = id;
    replayed_at = iso started;
    source_topic = record_.topic;
    source_partition = record_.partition;
    source_offset = record_.offset;
    target_topic = message.topic;
    key = encode_key record_.key;
  }
