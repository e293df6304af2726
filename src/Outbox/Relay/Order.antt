-- ===== src/Outbox/Relay/Order.antt =====
-- The order in which `_publish_key` of outbox/relay.py sends the rows of a key.
use kafka_reliability.Base.{
  ℕ, ◌≡◌, refl, sym, ap, ◌∙◌, Bool-cases, ◌⊎◌, inl, inr, List, [], ◌∷◌, ◌++◌, map, take,
}
use kafka_reliability.Base.Effect.{Result, ok, err}
use kafka_reliability.Core.Error.{Error, store_unavailable}
use kafka_reliability.Producers.{in_memory}
use kafka_reliability.Producers.Memory.{InMemoryProducer}
use kafka_reliability.Producers.Memory.Sends.{send-cases}
use kafka_reliability.Outbox.Config.{RelayConfig}
use kafka_reliability.Outbox.Row.{RelayRow, to_message}
use kafka_reliability.Outbox.Relay.{
  RelayStore, World, Pass, send_rows, after_send, failure_noted, produce_failed, finally_mark,
  marked, report_published, publish_key, with_producer, give_up,
}
use mathlib.Core.List.{append-nil, append_assoc}

module _ {D : Type 0} (st : RelayStore D) (self : RelayConfig) where
  abbrev W : Type 0
  W = World D InMemoryProducer

  -- The client sent the first rows in order, was refused the next one if there is one, and was not
  -- asked for any after it.
  abbrev pub InOrder : List RelayRow → InMemoryProducer → InMemoryProducer → Type 0
  InOrder rows p q =
      (first : List RelayRow) × ((rest : List RelayRow) × ((rows ≡ first ++ rest)
          × ((q.sent ≡ p.sent ++ map to_message first)
              × (q.failed ≡ p.failed ++ map to_message (take 1 rest)))))

  producer-failure_noted :
      (row : RelayRow) (r : Result Error ℕ × W)
      → (failure_noted st in_memory self row r).1.producer ≡ r.1.producer
  producer-failure_noted row (err e, w) = refl
  producer-failure_noted row (ok n, w) = elim (Bool-cases (give_up st in_memory self row)) [
    | inl given_up ↦ rw given_up refl
    | inr retried ↦ rw retried refl
  ]

  producer-report_published :
      (rows : List RelayRow) (w : W)
      → (report_published st in_memory self rows w).producer ≡ w.producer
  unfolding report_published
  producer-report_published [] w = refl
  producer-report_published (row ∷ rows) w = producer-report_published rows _

  producer-marked :
      (pass : Pass) (r : Result Error (Unit {0}) × W)
      → (marked st in_memory self pass r).1.producer ≡ r.1.producer
  unfolding marked report_published
  producer-marked pass (ok u, w) = producer-report_published pass.sent w
  producer-marked pass (err store_unavailable, w) = refl
  producer-marked pass (err _, w) = refl

  producer-finally_mark :
      (pass : Pass) (rows : List RelayRow) (w : W)
      → (finally_mark st in_memory self pass rows w).1.producer ≡ w.producer
  unfolding finally_mark
  producer-finally_mark pass [] w = refl
  producer-finally_mark pass (row ∷ rows) w = producer-marked pass _

  InOrder-refused :
      (row : RelayRow) (rows : List RelayRow) (p q : InMemoryProducer)
      → q.sent ≡ p.sent
      → q.failed ≡ p.failed ++ to_message row ∷ []
      → InOrder (row ∷ rows) p q
  InOrder-refused row rows p q sent refused =
      ([], (row ∷ rows, (refl, (sent ∙ sym (append-nil p.sent), refused))))

  InOrder-sent :
      (row : RelayRow) (rows : List RelayRow) (p q r : InMemoryProducer)
      → q.sent ≡ p.sent ++ to_message row ∷ []
      → q.failed ≡ p.failed
      → InOrder rows q r
      → InOrder (row ∷ rows) p r
  InOrder-sent row rows p q r sent same (first, (rest, (split, (sent', refused)))) = (
    row ∷ first,
    (
      rest,
      (
        ap (λ xs. row ∷ xs) split,
        (
          sent'
              ∙ (ap (λ xs. xs ++ map to_message first) sent
                  ∙ append_assoc p.sent (to_message row ∷ []) (map to_message first)),
          refused ∙ ap (λ xs. xs ++ map to_message (take 1 rest)) same,
        ),
      ),
    ),
  )

  InOrder-after_send :
      (row : RelayRow) (rows : List RelayRow) (w : W)
      (r : Result Error (Unit {0}) × InMemoryProducer) (rest : W → Pass × W)
      → ((r.0 ≡ ok tt)
          × ((r.1.sent ≡ w.producer.sent ++ to_message row ∷ [])
              × (r.1.failed ≡ w.producer.failed)))
        ⊎ ((r.0 ≡ err Error.producer)
            × ((r.1.sent ≡ w.producer.sent)
                × (r.1.failed ≡ w.producer.failed ++ to_message row ∷ [])))
      → ((w' : W) → InOrder rows w'.producer (rest w').1.producer)
      → InOrder
          (row ∷ rows)
          w.producer
          (after_send st in_memory self row (with_producer w r) rest).1.producer
  unfolding produce_failed
  InOrder-after_send row rows w (ok u, q) rest (inl done) next =
      InOrder-sent row rows w.producer q (rest (record w { producer = q })).1.producer done.1.0
        done.1.1 (next (record w { producer = q }))
  InOrder-after_send row rows w (ok u, q) rest (inr refused) next = absurd (cc)
  InOrder-after_send row rows w (err e, q) rest (inl done) next = absurd (cc)
  InOrder-after_send row rows w (err e, q) rest (inr refused) next =
      rw (producer-failure_noted row _)
        (InOrder-refused row rows w.producer q refused.1.0 refused.1.1)

  InOrder-send_rows :
      (rows : List RelayRow) (w : W)
      → InOrder rows w.producer (send_rows st in_memory self rows w).1.producer
  unfolding send_rows produce_failed
  InOrder-send_rows [] w = ([], ([], (refl, (sym (append-nil _), sym (append-nil _)))))
  InOrder-send_rows (row ∷ rows) w =
      InOrder-after_send row rows w (in_memory.send (to_message row) w.producer)
        (send_rows st in_memory self rows) (send-cases (to_message row) w.producer)
        (InOrder-send_rows rows)

  -- Over any store, a group of rows is sent in its order up to the first refusal: the client has
  -- sent the messages of its first rows behind what it had sent, was refused the message of the row
  -- after them if there is one, and was handed no other.
  pub publish_key-InOrder :
      (rows : List RelayRow) (w : W)
      → InOrder rows w.producer (publish_key st in_memory self rows w).1.producer
  unfolding publish_key
  publish_key-InOrder rows w =
      rw (producer-finally_mark (send_rows st in_memory self rows w).0 _ _)
        (InOrder-send_rows rows w)
