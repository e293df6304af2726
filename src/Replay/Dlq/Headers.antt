-- ===== src/Replay/Dlq/Headers.antt =====
-- The headers of a dead-lettered record.
use text.Mathlib.Text.{starts_with}
use kafka_reliability.Base.{
  ℕ, String, ◌≡◌, refl, ap, sym, ◌∙◌, Bool, Bool-cases, inl, inr, true, false, ◌||◌, not, Option,
  Option-cases, none, some, List, [], ◌∷◌, arith, if◌then◌else◌, ◌==◌, string_eq, equals_refl,
}
use kafka_reliability.Base.Dict.{Dict, lookup, insert, lookup-insert}
use kafka_reliability.Core.Clock.{iso}
use kafka_reliability.Core.Message.{
  Record, dlq_source_topic, dlq_source_partition, dlq_source_offset, dlq_source_timestamp,
  dlq_consumer_group, dlq_error_type, dlq_error_message, dlq_attempts, dlq_first_failed_at,
  dlq_trace_id, dlq_replay_count,
}
use kafka_reliability.Core.Utf8.{Bytes}
use kafka_reliability.Replay.Dlq.{
  DlqRouter, Failure, is_stale, kept_headers, set_default, insert_if, diagnosed, with_message,
  dlq_headers, trace_id_of,
}

-- The last header of a name, or what is given.
unfoldable pub last_header : String → List (String × Bytes) → Option Bytes → Option Bytes
last_header name [] before = before
last_header name ((n, v) ∷ headers) before =
    last_header name headers (if n == name then some v else before)

-- A name that the diagnosis does not use.
abbrev pub is_untouched : String → Bool
is_untouched name = not (starts_with name "x-dlq-") || name == dlq_replay_count

false-ne-true : false ≡ true → ⊥
false-ne-true h = cc

apart :
    (name other : String) (test : String → Bool)
    → test other ≡ false
    → test name ≡ true
    → (other == name) ≡ false
apart name other test h k = elim (Bool-cases (other == name)) [
  | inl same ↦
      absurd (false-ne-true (sym h ∙ ap test ((string_eq.equals_iff other name).0 same) ∙ k))
  | inr differ ↦ differ
]

lookup-kept_headers :
    (name : String) (headers : List (String × Bytes)) (out : Dict String Bytes)
    → is_stale name ≡ false
    → lookup name (kept_headers headers out) ≡ last_header name headers (lookup name out)
unfolding kept_headers last_header
lookup-kept_headers name [] out h = refl
lookup-kept_headers name ((n, v) ∷ headers) out h = elim (Bool-cases (is_stale n)) [
  | inl stale ↦
      rw (stale, apart name n (λ s. not (is_stale s)) (ap not stale) (ap not h))
        (lookup-kept_headers name headers out h)
  | inr kept ↦ rw kept (
      lookup-kept_headers name headers (insert n v out) h
      ∙ ap (last_header name headers) (lookup-insert n name v out))
]

lookup-insert_if :
    (name other : String) (value : Option Bytes) (d : Dict String Bytes)
    → (other == name) ≡ false
    → lookup name (insert_if other value d) ≡ lookup name d
unfolding insert_if
lookup-insert_if name other none d h = refl
lookup-insert_if name other (some v) d h = lookup-insert other name v d ∙ rw h refl

lookup-set_default :
    (name other : String) (value : Bytes) (d : Dict String Bytes)
    → (other == name) ≡ false
    → lookup name (set_default other value d) ≡ lookup name d
unfolding set_default
lookup-set_default name other value d h = elim (Option-cases (lookup other d)) [
  | inl missing ↦ rw missing (lookup-insert other name value d ∙ rw h refl)
  | inr (old, there) ↦ rw there refl
]

insert_apart :
    (name other : String) (value : Bytes) (d : Dict String Bytes)
    → (other == name) ≡ false
    → lookup name (insert other value d) ≡ lookup name d
insert_apart name other value d h = lookup-insert other name value d ∙ rw h refl

-- A name that is none of those that are always or perhaps written over.
record Avoids (name : String) : Type 0 where
  attempts : (dlq_attempts == name) ≡ false
  error_type : (dlq_error_type == name) ≡ false
  consumer_group : (dlq_consumer_group == name) ≡ false
  source_timestamp : (dlq_source_timestamp == name) ≡ false
  source_offset : (dlq_source_offset == name) ≡ false
  source_partition : (dlq_source_partition == name) ≡ false
  source_topic : (dlq_source_topic == name) ≡ false
  error_message : (dlq_error_message == name) ≡ false
  first_failed_at : (dlq_first_failed_at == name) ≡ false

module _ (self : DlqRouter) (now : ℕ) (r : Record) (failure : Failure) (attempts : ℕ)
    (name : String) (a : Avoids name) where
  lookup-diagnosed :
      (d : Dict String Bytes)
      → lookup name (diagnosed self now r failure attempts d) ≡ lookup name d
  unfolding diagnosed
  lookup-diagnosed d =
      insert_apart name dlq_attempts _ _ a.attempts
      ∙ insert_apart name dlq_error_type _ _ a.error_type
      ∙ insert_apart name dlq_consumer_group _ _ a.consumer_group
      ∙ insert_apart name dlq_source_timestamp _ _ a.source_timestamp
      ∙ insert_apart name dlq_source_offset _ _ a.source_offset
      ∙ insert_apart name dlq_source_partition _ _ a.source_partition
      ∙ insert_apart name dlq_source_topic _ _ a.source_topic

  lookup-with_message :
      (d : Dict String Bytes)
      → lookup name (with_message self now r failure attempts d) ≡ lookup name d
  unfolding with_message
  lookup-with_message d = elim (Bool-cases self.include_error) [
    | inl included ↦ rw included (insert_apart name dlq_error_message _ _ a.error_message)
    | inr omitted ↦ rw omitted refl
  ]

  abbrev without_id : Dict String Bytes
  without_id = with_message self now r failure attempts (
      set_default dlq_first_failed_at (iso now)
        (diagnosed self now r failure attempts (kept_headers r.headers [])))

  lookup-without_id : lookup name without_id ≡ lookup name (kept_headers r.headers [])
  lookup-without_id =
      lookup-with_message _
      ∙ lookup-set_default name dlq_first_failed_at (iso now) _ a.first_failed_at
      ∙ lookup-diagnosed (kept_headers r.headers [])

untouched-Avoids : (name : String) → is_untouched name ≡ true → Avoids name
untouched-Avoids name h = record {
  attempts = apart name dlq_attempts is_untouched refl h;
  error_type = apart name dlq_error_type is_untouched refl h;
  consumer_group = apart name dlq_consumer_group is_untouched refl h;
  source_timestamp = apart name dlq_source_timestamp is_untouched refl h;
  source_offset = apart name dlq_source_offset is_untouched refl h;
  source_partition = apart name dlq_source_partition is_untouched refl h;
  source_topic = apart name dlq_source_topic is_untouched refl h;
  error_message = apart name dlq_error_message is_untouched refl h;
  first_failed_at = apart name dlq_first_failed_at is_untouched refl h;
}

trace_id-Avoids : Avoids dlq_trace_id
trace_id-Avoids = record {
  attempts = refl;
  error_type = refl;
  consumer_group = refl;
  source_timestamp = refl;
  source_offset = refl;
  source_partition = refl;
  source_topic = refl;
  error_message = refl;
  first_failed_at = refl;
}

module _ (self : DlqRouter) (now : ℕ) (r : Record) (failure : Failure) (attempts : ℕ)
    (name : String) (untouched : is_untouched name ≡ true) where
  not_stale : is_stale name ≡ false
  not_stale = ground arith

  -- A dead-letter message keeps every header of its record whose name does not start with x-dlq-, and the
  -- count of replays: the last one of each name.
  pub lookup-dlq_headers :
      lookup name (dlq_headers self now r failure attempts) ≡ last_header name r.headers none
  unfolding dlq_headers lookup
  lookup-dlq_headers =
      lookup-insert_if name dlq_trace_id (trace_id_of r) _
        (apart name dlq_trace_id is_untouched refl untouched)
      ∙ lookup-without_id self now r failure attempts name (untouched-Avoids name untouched)
      ∙ lookup-kept_headers name r.headers [] not_stale

lookup-insert_self :
    (name : String) (value : Bytes) (d : Dict String Bytes)
    → lookup name (insert name value d) ≡ some value
lookup-insert_self name value d = lookup-insert name name value d ∙ rw (equals_refl name) refl

-- An old diagnosis does not stay.
stale_dropped :
    (name : String) (headers : List (String × Bytes)) (out : Dict String Bytes)
    → is_stale name ≡ true
    → lookup name (kept_headers headers out) ≡ lookup name out
unfolding kept_headers
stale_dropped name [] out h = refl
stale_dropped name ((n, v) ∷ headers) out h = elim (Bool-cases (is_stale n)) [
  | inl stale ↦ rw stale (stale_dropped name headers out h)
  | inr kept ↦ rw kept (
      stale_dropped name headers (insert n v out) h
      ∙ insert_apart name n v out (apart name n is_stale kept h))
]

module _ (self : DlqRouter) (now : ℕ) (r : Record) (failure : Failure) (attempts : ℕ) where
  traced :
      (id : Option Bytes)
      → lookup dlq_trace_id (
          insert_if dlq_trace_id id
            (without_id self now r failure attempts dlq_trace_id trace_id-Avoids))
        ≡ id
  unfolding insert_if lookup
  traced none =
      lookup-without_id self now r failure attempts dlq_trace_id trace_id-Avoids
      ∙ stale_dropped dlq_trace_id r.headers [] refl
  traced (some id) = lookup-insert_self dlq_trace_id id _

  pub lookup-trace_id :
      lookup dlq_trace_id (dlq_headers self now r failure attempts) ≡ trace_id_of r
  unfolding dlq_headers
  lookup-trace_id = traced (trace_id_of r)
