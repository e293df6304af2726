-- ===== src/Replay/Audit.antt =====
-- replay/audit.py: the key of an audit entry, and the two sinks. The file of JsonlAuditSink is a list
-- of lines; the entries are not rendered as JSON.
use kafka_reliability.Base.{
  ℕ, ◌+◌, ◌/◌, ◌%◌, String, ◌≡◌, refl, Bool, true, false, Option, none, some, List, [], ◌∷◌, ◌++◌,
  ltb, if◌then◌else◌,
}
use kafka_reliability.Core.Utf8.{Bytes, decode}

-- A key is not text (hex) or is.
pub data AuditKey : Type 0 where
  text : String → AuditKey
  hex : Bytes → AuditKey

hex_digit : ℕ → ℕ
hex_digit n = if ltb n 10 then 48 + n else 87 + n

-- key.hex(), as ASCII bytes
hex_of : Bytes → Bytes
unfolding hex_digit
hex_of [] = []
hex_of (b ∷ bs) = hex_digit (b / 16) ∷ hex_digit (b % 16) ∷ hex_of bs

text_or_hex : Bytes → Option String → AuditKey
unfolding hex_of
text_or_hex key (some s) = text s
text_or_hex key none = hex (hex_of key)

pub encode_key : Option Bytes → Option AuditKey
unfolding text_or_hex
encode_key none = none
encode_key (some key) = some (text_or_hex key (decode key))

pub record AuditEntry : Type 0 where
  pub replay_id : String
  pub replayed_at : Bytes
  pub source_topic : String
  pub source_partition : ℕ
  pub source_offset : ℕ
  pub target_topic : String
  pub key : Option AuditKey

-- The lines of the file, and whether it is open.
pub record JsonlAuditSink : Type 0 where
  pub lines : List AuditEntry
  pub is_open : Bool

unfoldable pub write : AuditEntry → JsonlAuditSink → JsonlAuditSink
write entry self = record { lines = self.lines ++ entry ∷ []; is_open = true }

unfoldable pub close : JsonlAuditSink → JsonlAuditSink
close self = record self { is_open = false }

hex_of_bytes : hex_of (0 ∷ 255 ∷ 26 ∷ []) ≡ 48 ∷ 48 ∷ 102 ∷ 102 ∷ 49 ∷ 97 ∷ []
unfolding hex_of hex_digit
hex_of_bytes = refl
