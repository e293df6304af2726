-- ===== src/Replay/Dlq/Routing.antt =====
-- What `route` does, for every record and error.
use kafka_reliability.Base.{
  ℕ, String, ◌≡◌, refl, Bool, true, false, Option, Option-cases, inl, inr, none, some, string_eq,
}
use kafka_reliability.Base.Dict.{lookup}
use kafka_reliability.Base.Effect.{Result, ok, err, continue}
use kafka_reliability.Core.Error.{Error, value_error}
use kafka_reliability.Core.Message.{Record, OutgoingMessage, dlq_trace_id}
use kafka_reliability.Core.Utf8.{Bytes, decode}
use kafka_reliability.Producers.{Producer}
use kafka_reliability.Replay.Dlq.{
  DlqRouter, Failure, dlq_build, dead_letter, dead_letter_topic, dlq_headers, logged, decoded,
  or_empty, trace_id_of, route,
}
use kafka_reliability.Replay.Dlq.Headers.{lookup-trace_id}

-- A trace id that is text, or none.
abbrev pub is_text : Option String → Bool
is_text none = false
is_text (some s) = true

abbrev pub is_readable : Option Bytes → Bool
is_readable none = true
is_readable (some id) = is_text (decode id)

abbrev pub outcome :
    {P : Type 0}
    → Producer P
    → Bool
    → Result Error OutgoingMessage
    → P
    → Result Error (Unit {0}) × P
outcome producer readable (err e) p = (err e, p)
outcome producer true (ok message) p = producer.send message p
outcome producer false (ok message) p = (err value_error, p)

module _ {P : Type 0} (producer : Producer P) (self : DlqRouter) (now : ℕ) (r : Record)
    (failure : Failure) (attempts : ℕ) where
  logged_by :
      (message : OutgoingMessage) (id : Option Bytes) (p : P)
      → lookup dlq_trace_id message.headers ≡ id
      → continue (logged self now r failure attempts message, p) (λ x. producer.send message)
        ≡ outcome producer (is_readable id) (ok message) p
  unfolding logged decoded or_empty decode
  logged_by message none p h = rw h refl
  logged_by message (some id) p h = rw h (elim (Option-cases (decode id)) [
    | inl garbled ↦ rw garbled refl
    | inr (text, clear) ↦ rw clear refl
  ])

  built :
      (topic : Result Error String) (p : P)
      → continue
          (dead_letter self now r failure attempts topic, p)
          (λ message p'.
            continue (logged self now r failure attempts message, p') (λ x. producer.send message))
        ≡ outcome producer
            (is_readable (trace_id_of r))
            (dead_letter self now r failure attempts topic)
            p
  unfolding dead_letter
  built (err e) p = refl
  built (ok topic) p = logged_by _ (trace_id_of r) p (lookup-trace_id self now r failure attempts)

  -- `route` sends the message that `build` makes, once, and ends as the send does; if `build` raises
  -- nothing is sent; and if the record's trace id is not UTF-8 text, which only the log line reads, it
  -- raises a UnicodeDecodeError and sends nothing.
  pub route-outcome :
      (p : P)
      → route self now r failure attempts producer p
        ≡ outcome producer (is_readable (trace_id_of r)) (dlq_build self now r failure attempts) p
  unfolding route dlq_build
  route-outcome p = built (dead_letter_topic self r) p

module _ (self : DlqRouter) (now : ℕ) (r : Record) (failure : Failure) (attempts : ℕ)
    (dead : OutgoingMessage) where
  letter_headers :
      (topic : Result Error String)
      → dead_letter self now r failure attempts topic ≡ ok dead
      → dead.headers ≡ dlq_headers self now r failure attempts
  unfolding dead_letter
  letter_headers (ok topic) h = cc
  letter_headers (err e) h = absurd (cc)

  pub dlq_build-headers :
      dlq_build self now r failure attempts ≡ ok dead
      → dead.headers ≡ dlq_headers self now r failure attempts
  unfolding dlq_build
  dlq_build-headers h = letter_headers (dead_letter_topic self r) h
