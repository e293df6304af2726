-- ===== src/Replay/Count/Tests.antt =====
-- What Python's int() accepts, and the round trip at a number.
use kafka_reliability.Base.{◌≡◌, refl, none, some, [], arith}
use kafka_reliability.Base.Decimal.{digits, digits_from}
use kafka_reliability.Base.Int.{pos, negsuc}
use kafka_reliability.Core.Utf8.{encode}
use kafka_reliability.Replay.Count.{int_of, str_of}
use kafka_reliability.Replay.Count.RoundTrip.{int_of-str_of}

accepted : (int_of (encode " +1_0\n") ≡ some (pos 10)) × (int_of (encode "-7") ≡ some (negsuc 6))
unfolding int_of encode
accepted = (refl, refl)

refused : (int_of (encode "1__0") ≡ none) × (int_of (encode "- 1") ≡ none) × (int_of [] ≡ none)
unfolding int_of encode
refused = (refl, refl, refl)

int_of-str_of_example : int_of (str_of (negsuc 41)) ≡ some (negsuc 41)
unfolding digits digits_from
int_of-str_of_example = int_of-str_of (negsuc 41) (omega arith)
