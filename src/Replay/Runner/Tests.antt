-- ===== src/Replay/Runner/Tests.antt =====
-- The theorems on the runner at a concrete topic of one partition.
use kafka_reliability.Base.{
  ℕ, ◌+◌, String, ◌≡◌, refl, true, false, Option, none, some, List, [], ◌∷◌, ◌++◌, keep, length,
  string_eq, nat_eq,
}
use kafka_reliability.Base.Dict.{lookup, insert}
use kafka_reliability.Base.Effect.{Exec, ok, raise}
use kafka_reliability.Base.Int.{pos}
use kafka_reliability.Core.Error.{Error, configuration}
use kafka_reliability.Core.Message.{Record, get_header, dlq_replay_count}
use kafka_reliability.Core.Utf8.{encode}
use kafka_reliability.Producers.{in_memory}
use kafka_reliability.Producers.Memory.{InMemoryProducer}
use kafka_reliability.Replay.Count.{int_of}
use kafka_reliability.Replay.Message.{count_in}
use kafka_reliability.Replay.Message.Selected.{skips_by_header, decides_by_header}
use kafka_reliability.Replay.Options.{ReplayOptions}
use kafka_reliability.Replay.Reader.{
  InMemoryReader, in_memory_reader, partitions, beginning_offsets, end_offsets, read,
}
use kafka_reliability.Replay.Selector.{Selection, ResolvedSelection, resolve}
use kafka_reliability.Replay.Runner.{
  World, ReplayResult, nothing_yet, traverse, check_target, check_size,
}
use kafka_reliability.Replay.Runner.DryRun.{Matches, dry_run-Matches}
use kafka_reliability.Replay.Runner.Treats.{up_to, is_selected, messages}
use kafka_reliability.Replay.Runner.Sends.{records_of, execute_sends, Calm}

abbrev options : ReplayOptions
options = record {
  target_topic = "orders";
  rate_per_second = none;
  max_replay_count = pos 3;
  allow_same_topic = false;
  preserve_key = true;
  commit_source_offsets = false;
  confirm_above = pos 10;
  assume_yes = false;
}

abbrev dead : ℕ → String → Record
dead n count = record {
  topic = "orders.dlq";
  partition = 0;
  offset = n;
  key = none;
  value = n ∷ [];
  headers = (dlq_replay_count, encode count) ∷ [];
  timestamp = 1000 + n;
}

-- Of three records the second one has been replayed too often.
abbrev reader : InMemoryReader
reader = record {
  topic = "orders.dlq";
  data_ = (0, dead 7 "1" ∷ dead 8 "3" ∷ dead 9 "0" ∷ []) ∷ [];
  committed = [];
  reads = [];
}

abbrev selection : Selection
selection = record {
  topic = "orders.dlq";
  from_offset = none;
  to_offset = none;
  from_timestamp = none;
  to_timestamp = none;
  partitions = none;
  predicate = none;
  max_messages = some 5;
}

abbrev start : World InMemoryReader InMemoryProducer
start = record {
  reader = reader;
  producer = record { sent = []; failed = []; to_fail = 0; fail_rule = none; flush_count = 0 };
  events = [];
  audit = none;
  limiter = record { interval = 0; next = 0; now = 0 };
  progress = nothing_yet;
  produced = 0;
}

abbrev resolved : ResolvedSelection
resolved = record {
  selection = selection;
  ranges = record { partition = 0; start = 7; end_ = 10 } ∷ [];
  notes = [];
}

-- With the commits of an execution asked for, and a reader whose commits all fail.
abbrev committing : ReplayOptions
committing = record options { commit_source_offsets = true }

abbrev refuse_commit : String → ℕ → ℕ → Exec Error InMemoryReader (Unit {0})
refuse_commit topic p offset = raise configuration

dry_run-Matches_example :
    Matches start
      (traverse in_memory_reader in_memory committing none "id" 0 selection true start)
      (traverse in_memory_reader in_memory committing none "id" 0 selection false start)
    × (traverse
          (record in_memory_reader { commit = refuse_commit })
          in_memory
          committing
          none
          "id"
          0
          selection
          false
          start
        ≡ traverse in_memory_reader in_memory committing none "id" 0 selection false start)
dry_run-Matches_example =
    dry_run-Matches in_memory_reader in_memory committing none "id" 0 selection refuse_commit start

abbrev skips : Record → Option String
skips = skips_by_header options "id" 0

abbrev chosen : List Record
chosen =
    up_to (some 5) 0
      (keep (is_selected skips) (records_of in_memory_reader "orders.dlq" resolved.ranges reader))

execute_sends_example :
    (result : ReplayResult) × (last : World InMemoryReader InMemoryProducer) × (traverse
        in_memory_reader in_memory options none "id" 0 selection true start
      ≡ (ok result, last))
    × (last.producer.sent ≡ [] ++ messages options "id" 0 chosen)
    × (result.plan.matched ≡ length chosen)
unfolding lookup insert Calm check_target check_size resolve partitions beginning_offsets
    end_offsets read
execute_sends_example =
    execute_sends in_memory_reader options none "id" 0 selection skips
      (λ r. decides_by_header options "id" 0 selection r refl) resolved reader start (refl, refl)
      refl refl (refl, tt) refl refl

two_of_three : chosen ≡ dead 7 "1" ∷ dead 9 "0" ∷ []
unfolding records_of read lookup skips_by_header get_header count_in int_of encode
two_of_three = refl
