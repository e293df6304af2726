-- ===== src/Producers/Memory/Tests.antt =====
-- A send that the in-memory producer of producers/memory.py refuses.
use kafka_reliability.Base.{◌≡◌, refl, none, [], ◌∷◌}
use kafka_reliability.Base.Effect.{err}
use kafka_reliability.Core.Error.{producer}
use kafka_reliability.Core.Message.{OutgoingMessage}
use kafka_reliability.Producers.Memory.{InMemoryProducer, fail_next, init, send}

abbrev hello : OutgoingMessage
hello = record { topic = "orders"; value = 1 ∷ []; key = none; headers = [] }

abbrev failing : InMemoryProducer
unfolding fail_next init
failing = fail_next 1 init

refused :
    ((send hello failing).0 ≡ err producer)
    × ((send hello failing).1.sent ≡ [])
    × ((send hello failing).1.failed ≡ hello ∷ [])
unfolding fail_next init send
refused = (refl, refl, refl)
