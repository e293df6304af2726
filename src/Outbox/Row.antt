-- ===== src/Outbox/Row.antt =====
-- `RelayRow`, `_group_by_key` and `_to_message` of outbox/relay.py. A uuid is its text.
pub mod Groups
pub mod Headers
pub mod Members
pub mod Totals
use kafka_reliability.Base.{
  ℕ, String, ◌≡◌, refl, Bool, true, false, Option, none, some, List, [], ◌∷◌, ◌++◌, map, arith,
  ◌==◌, string_eq, if◌then◌else◌,
}
use kafka_reliability.Base.Dict.{Dict, lookup, insert}
use kafka_reliability.Core.Message.{OutgoingMessage, event_id}
use kafka_reliability.Core.Utf8.{Bytes, encode}

pub record RelayRow : Type 0 where
  pub id : String
  pub seq : ℕ
  pub topic : String
  pub aggregateid : String
  pub payload : Bytes
  pub headers : Dict String String
  pub attempts : ℕ

encode_headers : Dict String String → Dict String Bytes
encode_headers [] = []
encode_headers ((name, value) ∷ d) = (name, encode value) ∷ encode_headers d

-- b or None
abbrev or_none : Bytes → Option Bytes
or_none [] = none
or_none (b ∷ bs) = some (b ∷ bs)

unfoldable pub to_message : RelayRow → OutgoingMessage
unfolding encode_headers
to_message row = record {
  topic = row.topic;
  value = row.payload;
  key = or_none (encode row.aggregateid);
  headers = insert event_id (encode row.id) (encode_headers row.headers);
}

abbrev or_empty : Option (List RelayRow) → List RelayRow
or_empty none = []
or_empty (some rows) = rows

-- groups.setdefault(key, []).append(row)
append_row : RelayRow → Dict String (List RelayRow) → Dict String (List RelayRow)
append_row row groups =
    insert row.aggregateid (or_empty (lookup row.aggregateid groups) ++ row ∷ []) groups

unfoldable pub group_rows :
    Dict String (List RelayRow)
    → List (List RelayRow)
    → List RelayRow
    → Dict String (List RelayRow) × List (List RelayRow)
unfolding append_row
group_rows groups singles [] = (groups, singles)
group_rows groups singles (row ∷ rows) =
    let keyless = group_rows groups (singles ++ (row ∷ []) ∷ []) rows in
    let keyed = group_rows (append_row row groups) singles rows in
    if row.aggregateid == "" then keyless else keyed

-- list(groups.values())
abbrev pub values : Dict String (List RelayRow) → List (List RelayRow)
values [] = []
values ((k, rows) ∷ d) = rows ∷ values d

unfoldable pub group_by_key : List RelayRow → List (List RelayRow)
unfolding group_rows
group_by_key rows = let (groups, singles) = group_rows [] [] rows in values groups ++ singles
