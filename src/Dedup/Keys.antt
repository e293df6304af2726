-- ===== src/Dedup/Keys.antt =====
-- dedup/keys.py: the keys from a header and from the coordinates of a record.
pub mod Relayed
mod Tests
use Prim.Native.String.{◌++◌ as concat}
use kafka_reliability.Base.{String, Option, none, some, ◌==◌, string_eq, if◌then◌else◌}
use kafka_reliability.Base.Decimal.{decimal}
use kafka_reliability.Base.Effect.{Result, ok, err}
use kafka_reliability.Core.Error.{Error, configuration, dedup_key}
use kafka_reliability.Core.Message.{Record, get_header}
use kafka_reliability.Core.Utf8.{Bytes, decode}

-- A key, or the exception that the key function raises.
abbrev pub KeyFunction : Type 0
KeyFunction = Record → Result Error String

abbrev pub text_or_error : Option String → Result Error String
text_or_error none = err dedup_key
text_or_error (some text) = ok text

unfoldable pub header_key : Option Bytes → Result Error String
header_key none = err dedup_key
header_key (some value) = text_or_error (decode value)

unfoldable pub from_header : String → Result Error KeyFunction
unfolding header_key
from_header name =
    if name == "" then err configuration else ok (λ r. header_key (get_header r.headers name))

unfoldable pub topic_partition_offset : KeyFunction
topic_partition_offset r =
    ok (concat r.topic (concat ":" (concat (decimal r.partition) (concat ":" (decimal r.offset)))))
