-- ===== src/Outbox/Row/Headers.antt =====
-- The headers that `_to_message` of outbox/relay.py gives a message.
use kafka_reliability.Base.{
  String, ◌≡◌, refl, Bool-cases, inl, inr, Option, none, some, [], ◌∷◌, ◌==◌, string_eq,
  if◌then◌else◌,
}
use kafka_reliability.Base.Dict.{Dict, lookup, lookup-insert}
use kafka_reliability.Core.Message.{event_id}
use kafka_reliability.Core.Utf8.{Bytes, encode}
use kafka_reliability.Outbox.Row.{RelayRow, encode_headers, to_message}

abbrev pub encoded : Option String → Option Bytes
encoded none = none
encoded (some text) = some (encode text)

lookup-encode_headers :
    (name : String) (headers : Dict String String)
    → lookup name (encode_headers headers) ≡ encoded (lookup name headers)
unfolding lookup encode_headers
lookup-encode_headers name [] = refl
lookup-encode_headers name ((j, text) ∷ headers) = elim (Bool-cases (j == name)) [
  | inl hit ↦ rw hit refl
  | inr miss ↦ rw miss (lookup-encode_headers name headers)
]

-- A message carries its row's id as its event id, whatever headers were stored with the row: a
-- stored header cannot forge it. Every other stored header is passed on, and none is added.
pub lookup-to_message :
    (row : RelayRow) (name : String)
    → lookup name (to_message row).headers
      ≡ (if event_id == name then some (encode row.id) else encoded (lookup name row.headers))
unfolding to_message
lookup-to_message row name =
    rw (lookup-insert event_id name (encode row.id) (encode_headers row.headers))
      (rw (lookup-encode_headers name row.headers) refl)
