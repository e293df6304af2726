-- ===== src/Outbox/Writer/Headers.antt =====
-- Which headers `validate_headers` of outbox/writer.py accepts, and what it stores.
use kafka_reliability.Base.{
  String, ◌≡◌, refl, ◌∙◌, Bool, true, false, Bool-cases, ◌&&◌, not, inl, inr, Option, none, some,
  [], ◌∷◌, arith, ◌==◌, string_eq,
}
use kafka_reliability.Base.Dict.{Dict, Distinct, lookup, insert, lookup-insert}
use kafka_reliability.Base.Effect.{Result, ok, err}
use kafka_reliability.Core.Error.{Error, header_validation}
use kafka_reliability.Core.Utf8.{Bytes, decode}
use kafka_reliability.Outbox.Writer.{has_nul, header_text, validate_from, validate_headers}

-- A header that can be stored: its name is not empty, and its value is UTF-8 without a NUL.
abbrev is_text : Option String → Bool
is_text none = false
is_text (some text) = not (has_nul text)

abbrev pub storable : Dict String Bytes → Bool
storable [] = true
storable ((name, value) ∷ headers) =
    not (name == "") && (is_text (decode value) && storable headers)

abbrev text_or : Option String → Option Bytes → Option String
text_or old none = old
text_or old (some value) = decode value

abbrev pub text_of : Option Bytes → Option String
text_of none = none
text_of (some value) = decode value

refused :
    (name : String) (o : Option String)
    → is_text o ≡ false
    → header_text name o ≡ err header_validation
unfolding header_text
refused name none h = refl
refused name (some text) h = ground arith

accepted :
    (name : String) (o : Option String)
    → is_text o ≡ true
    → (text : String) × ((o ≡ some text) × (header_text name o ≡ ok text))
unfolding header_text
accepted name none h = absurd (cc)
accepted name (some text) h = (text, (refl, ground arith))

-- The loop either stores all, in which case each name has its text, or is refused.
Outcome : Dict String String → Dict String Bytes → Result Error (Dict String String) → Bool → Type 0
Outcome out headers r false = r ≡ err header_validation
Outcome out headers r true =
    (stored : Dict String String) × ((r ≡ ok stored)
      × ((name : String) → lookup name stored ≡ text_or (lookup name out) (lookup name headers)))

text_or-insert :
    (out : Dict String String) (name : String) (value : Bytes) (text : String)
    (headers : Dict String Bytes) (j : String)
    → lookup name headers ≡ none
    → decode value ≡ some text
    → text_or (lookup j (insert name text out)) (lookup j headers)
      ≡ text_or (lookup j out) (lookup j ((name, value) ∷ headers))
unfolding lookup
text_or-insert out name value text headers j absent decoded =
    ground (arith, lookup-insert name j text out, string_eq.equals_iff name j)

stored_with :
    (out : Dict String String) (name : String) (value : Bytes) (text : String)
    (headers : Dict String Bytes) (r : Result Error (Dict String String)) (b : Bool)
    → lookup name headers ≡ none
    → decode value ≡ some text
    → Outcome (insert name text out) headers r b
    → Outcome out ((name, value) ∷ headers) r b
unfolding Outcome
stored_with out name value text headers r false absent decoded h = h
stored_with out name value text headers r true absent decoded (stored, (e, texts)) =
    (stored, (e, λ j. texts j ∙ text_or-insert out name value text headers j absent decoded))

validate_from_lem :
    (out : Dict String String) (headers : Dict String Bytes)
    → Distinct headers
    → Outcome out headers (validate_from out headers) (storable headers)
unfolding Outcome validate_from lookup
validate_from_lem out [] d = (out, (refl, λ name. refl))
validate_from_lem out ((name, value) ∷ headers) d = elim (Bool-cases (name == "")) [
  | inl empty ↦ rw empty refl
  | inr named ↦ elim (Bool-cases (is_text (decode value))) [
    | inl good ↦
        let (text, (decoded, passes)) = accepted name (decode value) good in
        rw named (
          rw good (
            rw passes (
              stored_with out name value text headers _ _ d.0 decoded
                (validate_from_lem (insert name text out) headers d.1))))
    | inr bad ↦ rw named (rw bad (rw (refused name (decode value) bad) refl))
  ]
]

-- What the call does with headers that can be stored, and with others.
abbrev pub Stores : Dict String Bytes → Result Error (Dict String String) → Bool → Type 0
Stores headers r false = r ≡ err header_validation
Stores headers r true =
    (stored : Dict String String) × ((r ≡ ok stored)
      × ((name : String) → lookup name stored ≡ text_of (lookup name headers)))

text_or-none : (o : Option Bytes) → text_or none o ≡ text_of o
text_or-none none = refl
text_or-none (some value) = refl

stores :
    (headers : Dict String Bytes) (r : Result Error (Dict String String)) (b : Bool)
    → Outcome [] headers r b
    → Stores headers r b
unfolding Outcome lookup
stores headers r false h = h
stores headers r true (stored, (e, texts)) =
    (stored, (e, λ name. texts name ∙ text_or-none (lookup name headers)))

-- Headers with distinct names are stored exactly if each has a name and a value that is UTF-8
-- without a NUL; then each name has the text of its value, and no other name is stored. If not, the
-- call raises HeaderValidationError.
pub validate_headers-storable :
    (headers : Dict String Bytes)
    → Distinct headers
    → Stores headers (validate_headers headers) (storable headers)
unfolding validate_headers
validate_headers-storable headers d =
    stores headers _ (storable headers) (validate_from_lem [] headers d)
