-- ===== src/Producers/Memory/Sends.antt =====
-- `InMemoryProducer.send` of producers/memory.py on each of its branches.
use kafka_reliability.Base.{◌≡◌, refl, Bool-cases, ◌⊎◌, inl, inr, [], ◌∷◌, ◌++◌, ltb}
use kafka_reliability.Base.Effect.{ok, err}
use kafka_reliability.Core.Error.{producer}
use kafka_reliability.Core.Message.{OutgoingMessage}
use kafka_reliability.Producers.Memory.{InMemoryProducer, send, fail, breaks_rule}

-- A send records the message as sent, behind the others, or raises and records it as failed.
pub send-cases :
    (m : OutgoingMessage) (p : InMemoryProducer)
    → (((send m p).0 ≡ ok tt)
        × (((send m p).1.sent ≡ p.sent ++ m ∷ []) × ((send m p).1.failed ≡ p.failed)))
      ⊎ (((send m p).0 ≡ err producer)
          × (((send m p).1.sent ≡ p.sent) × ((send m p).1.failed ≡ p.failed ++ m ∷ [])))
unfolding send fail
send-cases m p = elim (Bool-cases (ltb 0 p.to_fail)) [
  | inl hit ↦ rw hit (inr (refl, (refl, refl)))
  | inr past ↦ elim (Bool-cases (breaks_rule p.fail_rule m)) [
    | inl hit ↦ rw past (rw hit (inr (refl, (refl, refl))))
    | inr free ↦ rw past (rw free (inl (refl, (refl, refl))))
  ]
]
