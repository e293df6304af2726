-- ===== src/Outbox/Schema.antt =====
-- The checks of outbox/schema.py on a table's name and a payload type. In the regular expression each
-- run of characters ends where it has to; its `$` also stands before a newline that ends the text.
mod Tests
use Prim.Native.Char.{code}
use kafka_reliability.Base.{
  ℕ, String, Bool, true, false, ◌&&◌, ◌||◌, leb, nat_beq, ◌==◌, string_eq, if◌then◌else◌,
}
use kafka_reliability.Base.Effect.{Result, ok, err}
use kafka_reliability.Core.Error.{Error, configuration}

abbrev letter : ℕ → Bool
letter c = leb 65 c && leb c 90 || leb 97 c && leb c 122 || nat_beq c 95

abbrev word : ℕ → Bool
word c = letter c || leb 48 c && leb c 57

-- What follows the characters `[A-Za-z0-9_]*`.
rest_of : String → String
rest_of String.[] = ""
rest_of (String.◌∷◌ c s) = let rest = rest_of s in if word (code c) then rest else String.◌∷◌ c s

abbrev at_end : String → Bool
at_end s = s == "" || s == "\n"

-- The identifier behind the dot, and the end.
last_part : String → Bool
unfolding rest_of
last_part String.[] = false
last_part (String.◌∷◌ c s) = letter (code c) && at_end (rest_of s)

qualified : String → Bool
unfolding last_part
qualified String.[] = false
qualified (String.◌∷◌ c s) = nat_beq (code c) 46 && last_part s

table_match : String → Bool
unfolding rest_of qualified
table_match String.[] = false
table_match (String.◌∷◌ c s) =
    let rest = rest_of s in letter (code c) && (at_end rest || qualified rest)

unfoldable pub validate_table_name : String → Result Error String
unfolding table_match
validate_table_name table = if table_match table then ok table else err configuration

unfoldable pub check_payload : String → Result Error (Unit {0})
check_payload payload =
    if payload == "bytea" || payload == "jsonb" then ok tt else err configuration
