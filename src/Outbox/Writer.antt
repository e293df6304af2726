-- ===== src/Outbox/Writer.antt =====
-- outbox/writer.py: the row that a writer inserts for a message. A header's name is a text and its
-- value bytes, as their types say; `uuid.uuid4()` is a parameter, the ids it returns one by one.
pub mod Headers
mod Tests
use Prim.Native.Char.{code}
use kafka_reliability.Base.{
  ℕ, suc, String, Bool, true, false, ◌||◌, Option, none, some, List, [], ◌∷◌, nat_beq, ◌==◌,
  string_eq, if◌then◌else◌,
}
use kafka_reliability.Base.Dict.{Dict, insert}
use kafka_reliability.Base.Effect.{Result, ok, err}
use kafka_reliability.Core.Error.{Error, header_validation, value_error}
use kafka_reliability.Core.Utf8.{Bytes, decode}

pub data PayloadType : Type 0 where
  bytea jsonb : PayloadType

pub data Payload : Type 0 where
  binary : Bytes → Payload
  textual : String → Payload

pub record OutboxMessage : Type 0 where
  pub topic : String
  pub payload : Bytes
  pub aggregatetype : String
  pub aggregateid : String
  pub event_type : String
  pub headers : Dict String Bytes
  pub event_id : Option String

pub record OutboxRow : Type 0 where
  pub id : String
  pub aggregatetype : String
  pub aggregateid : String
  pub event_type : String
  pub payload : Payload
  pub topic : String
  pub headers : Dict String String

-- "\x00" in text
pub has_nul : String → Bool
has_nul String.[] = false
has_nul (String.◌∷◌ c s) = nat_beq (code c) 0 || has_nul s

-- One header's text, if it can be stored.
header_text : String → Option String → Result Error String
unfolding has_nul
header_text name none = err header_validation
header_text name (some text) = if has_nul text then err header_validation else ok text

abbrev and_then : {A B : Type 0} → Result Error A → (A → Result Error B) → Result Error B
and_then (ok a) f = f a
and_then (err e) f = err e

-- The loop, with the headers that were accepted so far.
validate_from : Dict String String → Dict String Bytes → Result Error (Dict String String)
unfolding header_text
validate_from out [] = ok out
validate_from out ((name, value) ∷ headers) =
    if name == ""
    then err header_validation
    else and_then (header_text name (decode value))
        (λ text. validate_from (insert name text out) headers)

pub validate_headers : Dict String Bytes → Result Error (Dict String String)
unfolding validate_from
validate_headers headers = validate_from [] headers

abbrev any_nul : List String → Bool
unfolding has_nul
any_nul [] = false
any_nul (label ∷ labels) = has_nul label || any_nul labels

build_payload : PayloadType → Bytes → Result Error Payload
build_payload bytea bytes = ok (binary bytes)
build_payload jsonb bytes = elim (decode bytes) [ none ↦ err value_error | some t ↦ ok (textual t) ]

abbrev or_minted : Option String → String → String
or_minted none minted = minted
or_minted (some id) minted = id

-- _build_row
pub build_row : PayloadType → String → OutboxMessage → Result Error OutboxRow
unfolding validate_headers build_payload
build_row payload_type minted message =
    if message.topic == ""
    then err value_error
    else if any_nul
        (message.topic ∷ message.aggregatetype ∷ message.aggregateid ∷ message.event_type ∷ [])
    then err value_error
    else and_then (validate_headers message.headers) λ headers.
      and_then (build_payload payload_type message.payload) λ payload. ok (record {
        id = or_minted message.event_id minted;
        aggregatetype = message.aggregatetype;
        aggregateid = message.aggregateid;
        event_type = message.event_type;
        payload = payload;
        topic = message.topic;
        headers = headers;
      })

-- _build_rows: every message is validated before any is written.
pub build_rows : PayloadType → (ℕ → String) → List OutboxMessage → Result Error (List OutboxRow)
unfolding build_row
build_rows payload_type mint [] = ok []
build_rows payload_type mint (message ∷ messages) =
    and_then (build_row payload_type (mint 0) message)
      λ row. and_then (build_rows payload_type (λ n. mint (suc n)) messages) λ rows. ok (row ∷ rows)
