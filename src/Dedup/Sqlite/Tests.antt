-- ===== src/Dedup/Sqlite/Tests.antt =====
-- The theorems on the SQLite store at concrete inputs.
use kafka_reliability.Base.{
  ℕ, String, ◌≡◌, refl, none, some, [], ◌∷◌, arith, string_eq, pair_eq, false,
}
use kafka_reliability.Base.Dict.{lookup}
use kafka_reliability.Base.Effect.{ok}
use kafka_reliability.Core.Error.{permanent}
use kafka_reliability.Core.Message.{Record}
use kafka_reliability.Dedup.Store.{ClaimState}
use kafka_reliability.Dedup.Memory.{Memory, Row, memory_store}
use kafka_reliability.Dedup.Deduplicator.{
  Deduplicator, World, claim_confirm, suppress, fail_closed, consume,
}
use kafka_reliability.Dedup.Sqlite.{sqlite_store, claim_between}
use kafka_reliability.Dedup.Sqlite.Consumer.{consume_as_memory}
use kafka_reliability.Dedup.Sqlite.Race.{alone, granted, both_claimed}

abbrev by_topic : Deduplicator
by_topic = record {
  group = "billing";
  key = λ r. ok r.topic;
  ttl = 100;
  mode = some claim_confirm;
  lease = 10;
  replay_policy = suppress;
  on_unavailable = fail_closed;
}

abbrev order : Record
order = record {
  topic = "orders";
  partition = 0;
  offset = 7;
  key = none;
  value = 1 ∷ [];
  headers = [];
  timestamp = 0;
}

abbrev fresh : World Memory
fresh = record { store = record { now = 5; rows = [] }; events = []; handled = [] }

consume_as_memory_example :
    consume sqlite_store by_topic order false (some permanent) fresh
    ≡ consume memory_store by_topic order false (some permanent) fresh
consume_as_memory_example = consume_as_memory by_topic order (some permanent) fresh

abbrev lapsed_row : Row
lapsed_row = record { state = ClaimState.in_progress; expires_at = 40 }

abbrev lease_until : ℕ → Row
lease_until n = record { state = ClaimState.in_progress; expires_at = n }

abbrev k : String × String
k = ("g", "a")

both_claimed_example :
    ((claim_between k
        (lease_until 60)
        50
        (λ t. t)
        (alone k (lease_until 70) 50)
        ((k, lapsed_row) ∷ [])).0
      ≡ ok (granted lapsed_row))
    × ((claim_between k (lease_until 70) 50 (λ t. t) (λ t. t) ((k, lapsed_row) ∷ [])).0
        ≡ ok (granted lapsed_row))
    × (lookup k
          (claim_between k
            (lease_until 60)
            50
            (λ t. t)
            (alone k (lease_until 70) 50)
            ((k, lapsed_row) ∷ [])).1
        ≡ some (lease_until 70))
unfolding lookup
both_claimed_example =
    both_claimed k lapsed_row (lease_until 60) (lease_until 70) 50 ((k, lapsed_row) ∷ []) refl
      (omega arith) (omega arith)
