-- ===== src/Producers/Confluent/Tests.antt =====
-- A client whose queue is full for a number of calls, which then takes every message.
use kafka_reliability.Base.{ℕ, zero, suc, ◌≡◌, refl, true, false, none, some, List, [], ◌∷◌}
use kafka_reliability.Base.Effect.{ok, err, ◌>>◌}
use kafka_reliability.Core.Error.{producer}
use kafka_reliability.Core.Message.{OutgoingMessage}
use kafka_reliability.Producers.Confluent.{
  Client, Adapter, Produced, Headers, enqueued, queue_full, send, close,
}

take_when_free : Headers → ℕ × List Headers → Produced × (ℕ × List Headers)
take_when_free headers (zero, taken) = (enqueued, (zero, headers ∷ taken))
take_when_free headers (suc n, taken) = (queue_full, (n, taken))

abbrev client : Client (ℕ × List Headers)
unfolding take_when_free
client = record {
  produce = λ message headers c. take_when_free headers c;
  wait = λ c. c;
  delivered = λ c. (true, c);
  flush = λ timeout c. (some 0, c);
}

abbrev hello : OutgoingMessage
hello = record { topic = "orders"; value = 1 ∷ []; key = none; headers = [] }

abbrev adapter : ℕ → Adapter (ℕ × List Headers)
adapter full = record { client = (full, []); polling = false; stop = true }

-- One attempt and two more.
sent :
    send client 2 hello (adapter 2)
    ≡ (ok tt, record { client = (0, none ∷ []); polling = true; stop = false })
unfolding send take_when_free
sent = refl

still_full :
    send client 2 hello (adapter 3)
    ≡ (err producer, record { client = (0, []); polling = true; stop = false })
unfolding send take_when_free
still_full = refl

closed :
    (do send client 2 hello; close client 2 none) (adapter 0)
    ≡ (ok tt, record { client = (0, none ∷ []); polling = false; stop = true })
unfolding send close kafka_reliability.Producers.Confluent.flush take_when_free
closed = refl
