-- ===== src/Replay/Rounds/Tests.antt =====
-- One round of a poison message.
use kafka_reliability.Base.{◌≤◌, ◌≡◌, refl, true, false, none, some, [], ◌∷◌, arith, string_eq}
use kafka_reliability.Base.Int.{pos}
use kafka_reliability.Core.Error.{permanent}
use kafka_reliability.Core.Message.{Record, OutgoingMessage, get_header, dlq_replay_count}
use kafka_reliability.Replay.Dlq.{
  DlqRouter, Failure, named, typed_errors, dlq_headers, dlq_build, dead_letter_topic,
}
use kafka_reliability.Replay.Message.{count_in, replayed, build, skip_reason}
use kafka_reliability.Replay.Options.{ReplayOptions, options_init}
use kafka_reliability.Replay.Rounds.{Place, stored_at, Rounds, first, again}
use kafka_reliability.Replay.Rounds.Bounded.{poison_bounded}
use kafka_reliability.Replay.Selector.{Selection}

abbrev options : ReplayOptions
options = record {
  target_topic = "orders";
  rate_per_second = none;
  max_replay_count = pos 3;
  allow_same_topic = false;
  preserve_key = true;
  commit_source_offsets = false;
  confirm_above = pos 10;
  assume_yes = false;
}

abbrev selection : Selection
selection = record {
  topic = "orders.dlq";
  from_offset = none;
  to_offset = none;
  from_timestamp = none;
  to_timestamp = none;
  partitions = none;
  predicate = none;
  max_messages = none;
}

abbrev router : DlqRouter
router = record {
  topic = named "orders.dlq";
  consumer_group = "billing";
  classify = typed_errors;
  include_error = false;
  max_error_bytes = pos 4;
}

abbrev failure : Failure
failure = record { class = permanent; type_name = "PermanentError"; text = "no" }

abbrev place : Place
place = record { partition = 0; offset = 7; timestamp = 5 }

abbrev poison : Record
poison = record {
  topic = "orders.dlq";
  partition = 0;
  offset = 3;
  key = none;
  value = 1 ∷ [];
  headers = [];
  timestamp = 0;
}

abbrev message : OutgoingMessage
message = replayed options "id" 0 poison (pos 0)

abbrev dead : OutgoingMessage
dead = record {
  topic = "orders.dlq";
  value = 1 ∷ [];
  key = none;
  headers = dlq_headers router 9 (stored_at place message) failure 1;
}

one_round : Rounds options selection router 1 poison (stored_at place dead)
unfolding replayed stored_at skip_reason build dlq_build dead_letter_topic count_in get_header
one_round = again "id" 0 place 9 failure 1 place message dead (first poison) refl refl refl

poison_bounded_example :
    (1 ≤ 3) × (count_in (get_header (stored_at place dead).headers dlq_replay_count) ≡ some (pos 1))
unfolding options_init get_header
poison_bounded_example =
    poison_bounded options selection router 1 poison (stored_at place dead) 3 refl refl
      (omega arith) refl one_round
