-- ===== src/Replay/Expr.antt =====
-- replay/expr.py: the header filter of the command line. The two regular expressions are matched by
-- hand; each of their runs of characters ends where it has to, so that no match needs a second try.
mod Tests
use Prim.Native.Char.{Char, code}
use Prim.Native.String.{◌++◌ as concat}
use kafka_reliability.Base.{
  ℕ, zero, suc, ◌+◌, ◌-◌, String, Bool, true, false, ◌&&◌, ◌||◌, not, Option, none, some, List, [],
  ◌∷◌, leb, nat_beq, if◌then◌else◌, ◌==◌, string_eq,
}
use kafka_reliability.Base.Effect.{Result, ok, err}
use kafka_reliability.Core.Error.{Error, configuration}
use kafka_reliability.Core.Message.{Record, get_header}
use kafka_reliability.Core.Utf8.{decode_replace}

-- The header's name, `==` or `!=`, and the literal.
pub record Clause : Type 0 where
  pub name : String
  pub op : String
  pub wanted : String

abbrev between : ℕ → ℕ → ℕ → Bool
between a b c = leb a c && leb c b

-- `\s` of a text
abbrev space_code : ℕ → Bool
space_code c =
    between 9 13 c
    || between 28 32 c
    || nat_beq c 133
    || nat_beq c 160
    || nat_beq c 5760
    || between 8192 8202 c
    || between 8232 8233 c
    || nat_beq c 8239
    || nat_beq c 8287
    || nat_beq c 12288

-- `[A-Za-z0-9._-]`
abbrev name_code : ℕ → Bool
name_code c =
    between 65 90 c
    || between 97 122 c
    || between 48 57 c
    || nat_beq c 46
    || nat_beq c 95
    || nat_beq c 45

abbrev is_space : Char → Bool
is_space c = space_code (code c)

-- The longest run of characters that pass, and what follows it.
span : (Char → Bool) → String → String × String
span test String.[] = ("", "")
span test (String.◌∷◌ c s) =
    let (run, rest) = span test s in
    if test c then (String.◌∷◌ c run, rest) else ("", String.◌∷◌ c s)

skip_spaces : String → String
unfolding span
skip_spaces s = (span is_space s).1

-- What follows a fixed text at the start of another.
after : String → String → Option String
after String.[] s = some s
after (String.◌∷◌ c p) String.[] = none
after (String.◌∷◌ c p) (String.◌∷◌ d s) =
    let rest = after p s in if nat_beq (code c) (code d) then rest else none

rstrip : String → String
rstrip String.[] = ""
rstrip (String.◌∷◌ c s) =
    let rest = rstrip s in if is_space c && rest == "" then "" else String.◌∷◌ c rest

strip : String → String
unfolding skip_spaces rstrip
strip s = rstrip (skip_spaces s)

size : String → ℕ
size String.[] = 0
size (String.◌∷◌ c s) = suc (size s)

-- How many characters `\s+and\s+` matches from here; 0 when it does not.
joined : ℕ → Option String → ℕ
unfolding span size
joined zero rest = 0
joined (suc n) none = 0
joined (suc n) (some rest) =
    let more = size (span is_space rest).0 in if nat_beq more 0 then 0 else suc n + 3 + more

separator : String → ℕ
unfolding span size after joined
separator s = let (run, rest) = span is_space s in joined (size run) (after "and" rest)

push : Char → List String → List String
push c [] = String.◌∷◌ c "" ∷ []
push c (part ∷ parts) = String.◌∷◌ c part ∷ parts

-- re.split, with so many characters of a separator still to be dropped
split_from : ℕ → String → List String
unfolding separator push
split_from skipped String.[] = "" ∷ []
split_from (suc n) (String.◌∷◌ c s) = split_from n s
split_from zero (String.◌∷◌ c s) =
    let n = separator (String.◌∷◌ c s) in
    let parts = split_from (n - 1) s in if nat_beq n 0 then push c parts else "" ∷ parts

is_quote : Char → Char → Bool
is_quote q c = nat_beq (code q) (code c)

-- A quote, and behind it nothing but spaces.
ended : String → String → String → String → Option Clause
unfolding skip_spaces
ended name op value String.[] = none
ended name op value (String.◌∷◌ q s) =
    if skip_spaces s == "" then some (record { name = name; op = op; wanted = value }) else none

literal : String → String → String → Option Clause
unfolding is_quote span ended
literal name op String.[] = none
literal name op (String.◌∷◌ q s) =
    let (value, rest) = span (λ c. not (is_quote q c)) s in
    if is_quote "'" q || is_quote "\"" q then ended name op value rest else none

compared : String → Option String → Option String → Option Clause
unfolding skip_spaces literal
compared name (some rest) _ = literal name "==" (skip_spaces rest)
compared name none (some rest) = literal name "!=" (skip_spaces rest)
compared name none none = none

-- _CLAUSE.match
match_clause : String → Option Clause
unfolding span skip_spaces after compared
match_clause part =
    let (name, rest) = span (λ c. name_code (code c)) (skip_spaces part) in
    let behind = skip_spaces rest in
    if name == "" then none else compared name (after "==" behind) (after "!=" behind)

add_clause : Option Clause → Result Error (List Clause) → Result Error (List Clause)
add_clause none rest = err configuration
add_clause (some clause) (ok clauses) = ok (clause ∷ clauses)
add_clause (some clause) (err e) = err e

clauses_of : List String → Result Error (List Clause)
unfolding match_clause add_clause
clauses_of [] = ok []
clauses_of (part ∷ parts) = add_clause (match_clause part) (clauses_of parts)

-- The clauses that the predicate closes over.
unfoldable pub parse_header_filter : String → Result Error (List Clause)
unfolding strip split_from clauses_of
parse_header_filter expression = clauses_of (split_from 0 (strip expression))

abbrev equals : Option String → String → Bool
equals none wanted = false
equals (some text) wanted = text == wanted

abbrev decoded : Option (List ℕ) → Option String
decoded none = none
decoded (some raw) = some (decode_replace raw)

abbrev differ : Bool → Bool → Bool
differ true b = not b
differ false b = b

unfoldable pub predicate : List Clause → Record → Bool
predicate [] r = true
predicate (clause ∷ clauses) r =
    let actual = decoded (get_header r.headers clause.name) in
    if differ (equals actual clause.wanted) (clause.op == "==") then false else predicate clauses r
