-- ===== src/Outbox/Table/Contract.antt =====
-- The relay's statements on the table, with the in-memory producer, keep what the relay relies on.
use kafka_reliability.Base.{
  ℕ, String, ◌≡◌, ◌∙◌, Bool, inl, inr, Option, none, some, List, [], ◌∷◌, map, pair_eq, nat_eq, All,
  All-imp, Member,
}
use kafka_reliability.Base.Effect.{Result, ok, err}
use kafka_reliability.Core.Error.{Error}
use kafka_reliability.Core.Message.{OutgoingMessage}
use kafka_reliability.Producers.{in_memory}
use kafka_reliability.Producers.Memory.{InMemoryProducer}
use kafka_reliability.Producers.Memory.Sends.{send-cases}
use kafka_reliability.Base.Int.{int_eq, ℤ}
use kafka_reliability.Outbox.Row.{RelayRow, to_message}
use kafka_reliability.Outbox.Relay.Passes.{Contract, WhenOk}
use kafka_reliability.Outbox.Table.{
  Row, Session, call, claim, mark_published, record_failure, relay_store, int_of,
}
use kafka_reliability.Outbox.Table.Delivered.{
  Agrees, IsDelivered, IsDelivered-fail_rows, IsDelivered-publish_rows, Member-append, Member-last,
  skeleton, skeleton-fail_rows, skeleton-publish_rows,
}
use kafka_reliability.Outbox.Table.Claims.{Agrees-claimed, HasKey}
use kafka_reliability.Outbox.Table.Statements.{
  call-rows, call-reply, continue-rows, acquire-rows, release-rows, stats-rows,
}

-- The table has the rows it was given, and each row that is published was sent.
abbrev pub Holds : List (String × OutgoingMessage) → Session → InMemoryProducer → Type 0
Holds sk s p = (skeleton s.rows ≡ sk) × IsDelivered s.rows p.sent

abbrev pub Taken : OutgoingMessage → InMemoryProducer → Type 0
Taken m p = Member m p.sent

Taken-send :
    (m x : OutgoingMessage) (p : InMemoryProducer) → Taken x p → Taken x (in_memory.send m p).1
Taken-send m x p h = elim (send-cases m p) [
  | inl done ↦ rw done.1.0 (Member-append x p.sent (m ∷ []) h)
  | inr refused ↦ rw refused.1.0 h
]

IsDelivered-grows :
    (rows : List Row) (xs ys : List OutgoingMessage)
    → ((x : OutgoingMessage) → Member x xs → Member x ys)
    → IsDelivered rows xs
    → IsDelivered rows ys
IsDelivered-grows rows xs ys grows = All-imp _ _ rows (λ row h done. grows _ (h done))

WhenOk-err :
    {A : Type 0} (Q : A → InMemoryProducer → Type 0) (r : Result Error A × InMemoryProducer)
    {e : Error}
    → r.0 ≡ err e
    → WhenOk Q r
WhenOk-err Q (ok a, p) h = absurd (cc)
WhenOk-err Q (err x, p) h = tt

WhenOk-all :
    {A : Type 0} (Q : A → InMemoryProducer → Type 0) (r : Result Error A × InMemoryProducer)
    → ((a : A) → Q a r.1)
    → WhenOk Q r
WhenOk-all Q (ok a, p) h = h a
WhenOk-all Q (err x, p) h = tt

Taken-sends :
    (m : OutgoingMessage) (p : InMemoryProducer) → WhenOk (λ u q. Taken m q) (in_memory.send m p)
Taken-sends m p = elim (send-cases m p) [
  | inl done ↦
      WhenOk-all (λ u q. Taken m q) (in_memory.send m p) (λ u. rw done.1.0 (Member-last m p.sent))
  | inr refused ↦ WhenOk-err (λ u q. Taken m q) (in_memory.send m p) refused.0
]

module _ (sk : List (String × OutgoingMessage)) (p : InMemoryProducer) where
  abbrev Rows : List Row → Type 0
  Rows rows = (skeleton rows ≡ sk) × IsDelivered rows p.sent

  mark-Holds :
      (rs : List RelayRow) (s : Session)
      → All (Agrees sk) rs
      → All (λ r. Taken (to_message r) p) rs
      → Holds sk s p
      → Holds sk (mark_published (map (λ r. r.id) rs) s).1 p
  unfolding mark_published
  mark-Holds rs s known sent h =
      call-rows Rows _ s
        (λ t (e, delivered). (
          skeleton-publish_rows t.now (map (λ r. r.id) rs) t.rows ∙ e,
          IsDelivered-publish_rows t.now rs t.rows p.sent (rw e known) sent delivered,
        ))
        h

  int_of-Rows : (o : Option ℕ) (s : Session) → Rows s.rows → Rows (int_of o s).1.rows
  int_of-Rows none s h = h
  int_of-Rows (some n) s h = h

  failure-Holds :
      (id : String) (e : Error) (give_up : Bool) (s : Session)
      → Holds sk s p
      → Holds sk (record_failure id e give_up s).1 p
  unfolding record_failure
  failure-Holds id e give_up s h =
      continue-rows Rows (call _ s) _
        (call-rows Rows _ s
          (λ t (same, delivered). (
            skeleton-fail_rows id e give_up t.rows ∙ same,
            IsDelivered-fail_rows id e give_up t.rows p.sent delivered,
          ))
          h)
        int_of-Rows

  claim-Holds :
      (hash : String → ℤ) (limit count index : ℕ) (s : Session)
      → Holds sk s p
      → Holds sk (claim hash limit count index s).1 p
  unfolding claim
  claim-Holds hash limit count index s h = call-rows Rows _ s (λ t k. k) h

  claims-Known :
      (hash : String → ℤ) (limit count index : ℕ) (s : Session)
      → HasKey sk
      → Holds sk s p
      → WhenOk (λ rows t. All (Agrees sk) rows) (claim hash limit count index s)
  unfolding claim
  claims-Known hash limit count index s key h =
      call-reply Rows (All (Agrees sk)) _ s
        (λ t k. rw⁻¹ k.0 (Agrees-claimed hash limit count index t.rows (rw k.0 key))) h

pub table_contract :
    (hash : String → ℤ) (table : String) (sk : List (String × OutgoingMessage))
    → HasKey sk
    → Contract (relay_store hash table) in_memory (Holds sk) (Agrees sk) Taken
table_contract hash table sk key = record {
  send-Good = λ m s p h. (h.0, IsDelivered-grows s.rows _ _ (λ x. Taken-send m x p) h.1);
  send-Sent = Taken-send;
  sends = Taken-sends;
  acquire-Good = λ key shard s p. acquire-rows (Rows sk p) key shard s;
  claim-Good = λ limit count index s p. claim-Holds sk p hash limit count index s;
  claims = λ limit count index s p. claims-Known sk p hash limit count index s key;
  mark-Good = λ rs s p. mark-Holds sk p rs s;
  failure-Good = λ id e give_up s p. failure-Holds sk p id e give_up s;
  stats-Good = λ s p. stats-rows (Rows sk p) s;
  release-Good = λ s p. release-rows (Rows sk p) s;
}
