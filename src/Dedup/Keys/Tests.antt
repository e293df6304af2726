-- ===== src/Dedup/Keys/Tests.antt =====
-- The keys of one record.
use kafka_reliability.Base.{String, ◌≡◌, refl, none, [], ◌∷◌}
use kafka_reliability.Base.Decimal.{decimal}
use kafka_reliability.Base.Effect.{Result, ok, err}
use kafka_reliability.Base.Dict.{lookup}
use kafka_reliability.Outbox.Row.{RelayRow, to_message}
use kafka_reliability.Dedup.Keys.Relayed.{relayed_key}
use kafka_reliability.Core.Error.{Error, configuration, dedup_key}
use kafka_reliability.Core.Message.{Record, get_header}
use kafka_reliability.Dedup.Keys.{KeyFunction, header_key, from_header, topic_partition_offset}

abbrev record_7 : Record
record_7 = record {
  topic = "orders";
  partition = 3;
  offset = 17;
  key = none;
  value = [];
  headers = ("x-event-id", 0x61 ∷ []) ∷ ("broken", 0xff ∷ []) ∷ [];
  timestamp = 0;
}

abbrev key_by : String → Result Error String
key_by name = elim (from_header name) [ ok key ↦ key record_7 | err e ↦ err e ]

by_header :
    (key_by "x-event-id" ≡ ok "a")
    × (key_by "broken" ≡ err dedup_key)
    × (key_by "missing" ≡ err dedup_key)
    × (key_by "" ≡ err configuration)
unfolding from_header kafka_reliability.Core.Message.get_header kafka_reliability.Core.Utf8.decode
by_header = (refl, refl, refl, refl)

coordinates : topic_partition_offset record_7 ≡ ok "orders:3:17"
unfolding topic_partition_offset decimal
coordinates = refl

abbrev row : RelayRow
row = record {
  id = "6f1c";
  seq = 4;
  topic = "orders";
  aggregateid = "";
  payload = [];
  headers = ("x-event-id", "forged") ∷ ("étage", "Zürich") ∷ [];
  attempts = 0;
}

abbrev delivered : Record
delivered = record record_7 { headers = (to_message row).headers }

abbrev by_name : String → KeyFunction
by_name name r = header_key (get_header r.headers name)

own_id : by_name "x-event-id" delivered ≡ ok "6f1c"
unfolding header_key get_header kafka_reliability.Core.Utf8.decode to_message
    kafka_reliability.Base.Dict.insert kafka_reliability.Core.Utf8.encode
own_id = refl

relayed_key_example : by_name "étage" delivered ≡ ok "Zürich"
unfolding from_header lookup
relayed_key_example = relayed_key "étage" (by_name "étage") row delivered refl refl
