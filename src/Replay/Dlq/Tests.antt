-- ===== src/Replay/Dlq/Tests.antt =====
-- The theorems on the router at a record whose trace id is no text.
use kafka_reliability.Base.{◌≡◌, refl, true, false, none, [], ◌∷◌, string_eq}
use kafka_reliability.Base.Dict.{lookup}
use kafka_reliability.Base.Int.{pos}
use kafka_reliability.Core.Error.{permanent}
use kafka_reliability.Core.Message.{Record, get_header, dlq_replay_count}
use kafka_reliability.Core.Utf8.{encode, decode, decode_ignore}
use kafka_reliability.Producers.{in_memory}
use kafka_reliability.Producers.Memory.{InMemoryProducer}
use kafka_reliability.Replay.Dlq.{
  DlqRouter, Failure, named, typed_errors, dlq_build, dlq_headers, route, trace_id_of, truncate,
}
use kafka_reliability.Replay.Dlq.Headers.{last_header, lookup-dlq_headers}
use kafka_reliability.Replay.Dlq.Routing.{outcome, is_readable, route-outcome}

abbrev router : DlqRouter
router = record {
  topic = named "orders.dlq";
  consumer_group = "billing";
  classify = typed_errors;
  include_error = true;
  max_error_bytes = pos 4;
}

abbrev failure : Failure
failure = record { class = permanent; type_name = "PermanentError"; text = "no €" }

abbrev order : Record
order = record {
  topic = "orders";
  partition = 0;
  offset = 7;
  key = none;
  value = 1 ∷ [];
  headers =
      ("traceparent", 48 ∷ 45 ∷ 255 ∷ 45 ∷ 48 ∷ [])
      ∷ (dlq_replay_count, encode "2")
      ∷ ("x-dlq-error-type", encode "Old")
      ∷ [];
  timestamp = 0;
}

abbrev client : InMemoryProducer
client = record { sent = []; failed = []; to_fail = 0; fail_rule = none; flush_count = 0 }

route-outcome_example :
    route router 5 order failure 1 in_memory client
    ≡ outcome in_memory
        (is_readable (trace_id_of order))
        (dlq_build router 5 order failure 1)
        client
route-outcome_example = route-outcome in_memory router 5 order failure 1 client

not_readable : is_readable (trace_id_of order) ≡ false
unfolding trace_id_of get_header decode
not_readable = refl

lookup-dlq_headers_example :
    lookup dlq_replay_count (dlq_headers router 5 order failure 1)
    ≡ last_header dlq_replay_count order.headers none
lookup-dlq_headers_example = lookup-dlq_headers router 5 order failure 1 dlq_replay_count refl

cut_at_a_character : truncate "no €" (pos 4) ≡ encode "no "
unfolding truncate encode decode_ignore
cut_at_a_character = refl
