-- ===== src/Outbox/Writer/Tests.antt =====
-- Two headers of outbox/writer.py, one of them beyond ASCII.
use kafka_reliability.Base.{String, refl, [], ◌∷◌}
use kafka_reliability.Base.Dict.{Dict, lookup}
use kafka_reliability.Core.Utf8.{Bytes}
use kafka_reliability.Outbox.Writer.{validate_headers}
use kafka_reliability.Outbox.Writer.Headers.{Stores, storable, validate_headers-storable}

abbrev two_headers : Dict String Bytes
two_headers = ("trace", 0x61 ∷ []) ∷ ("lang", 0xc3 ∷ 0xa9 ∷ []) ∷ []

validate_headers-storable_example :
    Stores two_headers (validate_headers two_headers) (storable two_headers)
unfolding lookup
validate_headers-storable_example = validate_headers-storable two_headers (refl, (refl, tt))
