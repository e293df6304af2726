-- ===== src/Dedup/Keys/Relayed.antt =====
-- The keys of messages that the outbox relay published.
use kafka_reliability.Base.{
  String, Bool, true, false, ◌≡◌, refl, ap, ◌∙◌, Option, none, some, [], ◌∷◌, ◌==◌, string_eq,
  if◌then◌else◌, arith,
}
use kafka_reliability.Base.Dict.{Dict, lookup}
use kafka_reliability.Base.Effect.{ok}
use kafka_reliability.Core.Message.{Record, get_header, event_id}
use kafka_reliability.Core.Utf8.{Bytes, encode}
use kafka_reliability.Core.Utf8.RoundTrip.{decode-encode}
use kafka_reliability.Dedup.Keys.{KeyFunction, from_header, header_key, text_or_error}
use kafka_reliability.Outbox.Row.{RelayRow, to_message}
use kafka_reliability.Outbox.Row.Headers.{encoded, lookup-to_message}

get_header-lookup :
    (headers : Dict String Bytes) (name : String) → get_header headers name ≡ lookup name headers
unfolding get_header lookup
get_header-lookup [] name = refl
get_header-lookup ((j, value) ∷ headers) name =
    ap (λ o. if j == name then some value else o) (get_header-lookup headers name)

from_header-key :
    (name : String) (key : KeyFunction) (r : Record)
    → from_header name ≡ ok key
    → key r ≡ header_key (get_header r.headers name)
unfolding from_header
from_header-key name key r h = ground (arith, h)

header_key-encoded : (text : Option String) → header_key (encoded text) ≡ text_or_error text
unfolding header_key
header_key-encoded none = refl
header_key-encoded (some text) = ap text_or_error (decode-encode text)

header_key-id :
    (own : Bool) (id : String) (stored : Option String)
    → header_key (if own then some (encode id) else encoded stored)
      ≡ text_or_error (if own then some id else stored)
header_key-id true id stored = header_key-encoded (some id)
header_key-id false id stored = header_key-encoded stored

-- The key that a header of a relayed message gives: of the event id's header the id of the row,
-- and of any other the text that was stored with the row, or DedupKeyError where there is none.
pub relayed_key :
    (name : String) (key : KeyFunction) (row : RelayRow) (r : Record)
    → from_header name ≡ ok key
    → r.headers ≡ (to_message row).headers
    → key r ≡ text_or_error (if event_id == name then some row.id else lookup name row.headers)
relayed_key name key row r made sent =
    from_header-key name key r made
    ∙ ap (λ headers. header_key (get_header headers name)) sent
    ∙ ap header_key (get_header-lookup (to_message row).headers name ∙ lookup-to_message row name)
    ∙ header_key-id (event_id == name) row.id (lookup name row.headers)
