-- ===== src/Dedup/Deduplicator/Tests.antt =====
-- Runs of dedup/deduplicator.py over the in-memory store, and the theorems at concrete inputs.
use kafka_reliability.Base.{
  ℕ, ◌≡◌, refl, true, false, none, some, List, [], ◌∷◌, arith, if◌then◌else◌, ◌==◌, string_eq,
  pair_eq,
}
use kafka_reliability.Base.Dict.{lookup}
use kafka_reliability.Base.Effect.{ok, err, raise}
use kafka_reliability.Core.Error.{permanent, transient, store_unavailable}
use kafka_reliability.Core.Message.{Record}
use kafka_reliability.Dedup.Store.{DedupStore}
use kafka_reliability.Dedup.Memory.{Key, Memory, memory_store}
use kafka_reliability.Dedup.Memory.View.{view}
use kafka_reliability.Dedup.Deduplicator.{
  Deduplicator, World, claim_confirm, suppress, fail_closed, fail_open, init, consume, chosen_mode,
}
use kafka_reliability.Dedup.Deduplicator.Outcomes.{
  consume_outcome, reply, handled_after, state_after,
}
use kafka_reliability.Dedup.Deduplicator.Once.{
  Delivery, deliver, effectively_once, handled_for, retry_after_error,
}
use kafka_reliability.Core.Message.{get_header, replay_id}
use kafka_reliability.Dedup.Deduplicator.{bypass, check_mode, resolve_mode}
use kafka_reliability.Dedup.Deduplicator.Replay.{consume-bypass}
use kafka_reliability.Dedup.Deduplicator.Unavailable.{claim_unavailable, failure_events}

-- A deduplicator that takes a record's topic as its key.
abbrev by_topic : Deduplicator
by_topic = record {
  group = "billing";
  key = λ r. ok r.topic;
  ttl = 100;
  mode = some claim_confirm;
  lease = 10;
  replay_policy = suppress;
  on_unavailable = fail_closed;
}

abbrev order : ℕ → Record
order n = record {
  topic = "orders";
  partition = 0;
  offset = n;
  key = none;
  value = n ∷ [];
  headers = [];
  timestamp = 0;
}

abbrev fresh : World Memory
fresh = record { store = record { now = 5; rows = [] }; events = []; handled = [] }

-- The redeliveries of an order, of which one would fail.
abbrev again : List Delivery
again =
    record { delay = 20; message = order 1; outcome = some permanent }
    ∷ record { delay = 30; message = order 2; outcome = none }
    ∷ []

effectively_once_example :
    handled_for by_topic "orders"
      (deliver by_topic (record { delay = 1; message = order 0; outcome = none } ∷ again) fresh)
    ≡ order 0 ∷ []
unfolding init chosen_mode view lookup
effectively_once_example =
    effectively_once by_topic "orders" 1 (order 0) again fresh refl refl refl refl refl
      (ground arith)

consume_outcome_example :
    let (x, w') = consume memory_store by_topic (order 0) false (some transient) fresh in
    let v = view fresh.store ("billing", "orders") in
    (x ≡ reply v (some transient))
    × (w'.handled ≡ handled_after v (order 0) [])
    × ((j : Key)
        → view w'.store j ≡ (
            if ("billing", "orders") == j
            then state_after v (some transient)
            else view fresh.store j))
unfolding init chosen_mode
consume_outcome_example =
    consume_outcome by_topic (order 0) "orders" (some transient) fresh refl refl refl refl

retry_after_error_example :
    let (x, w') = consume memory_store by_topic (order 0) false (some transient) fresh in
    let (y, w'') = consume memory_store by_topic (order 0) false none w' in
    (x ≡ err transient) × (y ≡ ok true) × (w''.handled ≡ order 0 ∷ order 0 ∷ [])
unfolding init chosen_mode view lookup
retry_after_error_example =
    retry_after_error by_topic "orders" (order 0) transient fresh refl refl refl refl refl

-- A store whose database is gone.
abbrev gone : DedupStore ℕ
gone = record {
  supports_transactions = false;
  claim = λ group key state expires_in conn. raise store_unavailable;
  confirm = λ group key expires_in. raise store_unavailable;
  release = λ group key. raise store_unavailable;
  is_done = λ group key. raise store_unavailable;
  purge = λ group key. raise store_unavailable;
}

abbrev open_handed : Deduplicator
open_handed = record by_topic { on_unavailable = fail_open }

claim_unavailable_example :
    consume gone open_handed (order 0) false none (record { store = 0; events = []; handled = [] })
    ≡ (
      ok true,
      record {
        store = 0;
        events = failure_events gone open_handed "claim" [];
        handled = order 0 ∷ [];
      },
    )
unfolding chosen_mode
claim_unavailable_example =
    claim_unavailable gone open_handed (order 0) "orders"
      (record { store = 0; events = []; handled = [] }) 0 refl refl refl refl none

-- A replayed order.
abbrev replayed : Record
replayed = record (order 3) { headers = (replay_id, 0x72 ∷ []) ∷ [] }

abbrev by_policy : Deduplicator
by_policy = record by_topic { replay_policy = bypass }

consume-bypass_example :
    consume gone by_policy replayed false none (record { store = 0; events = []; handled = [] })
    ≡ (ok true, record { store = 0; events = []; handled = replayed ∷ [] })
unfolding resolve_mode chosen_mode check_mode get_header
consume-bypass_example =
    consume-bypass gone by_policy replayed "orders" (0x72 ∷ []) false claim_confirm
      (record { store = 0; events = []; handled = [] }) refl refl refl none refl
