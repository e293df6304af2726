-- ===== src/Outbox/Table/Tests.antt =====
-- A pass in which nothing fails over a table of three rows, two of one key.
use kafka_reliability.Base.{
  ℕ, String, ◌≡◌, refl, true, false, none, some, List, [], ◌∷◌, length, string_eq, map,
}
use kafka_reliability.Base.Effect.{ok}
use kafka_reliability.Producers.{in_memory}
use kafka_reliability.Producers.Memory.{InMemoryProducer}
use kafka_reliability.Base.Int.{pos, ℤ, negsuc}
use kafka_reliability.Outbox.Config.{strict, RelayConfig, lock_shard}
use kafka_reliability.Outbox.Row.{group_by_key}
use kafka_reliability.Outbox.Table.{Row, Status, pending, failed, relay_row, relay_store}
use kafka_reliability.Core.Metrics.{Event}
use kafka_reliability.Outbox.Config.{lock_key}
use kafka_reliability.Outbox.Row.{to_message}
use kafka_reliability.Outbox.Relay.{OutboxStats, run_once}
use kafka_reliability.Outbox.Relay.Healthy.{concat}
use kafka_reliability.Outbox.Table.{claimable, publish_rows}
use kafka_reliability.Outbox.Table.Healthy.{healthy_pass}

abbrev row : String → ℕ → String → Status → Row
row id seq key status = record {
  id = id;
  seq = seq;
  topic = "orders";
  aggregateid = key;
  payload = 1 ∷ [];
  headers = [];
  created_at = 0;
  status = status;
  published_at = none;
  attempts = 0;
  last_error = none;
}

abbrev table : List Row
table = row "x" 2 "a" pending ∷ row "y" 1 "b" failed ∷ row "z" 3 "a" pending ∷ []

abbrev hash : String → ℤ
hash key = negsuc 6

abbrev checksum : String → ℕ
checksum name = 7

abbrev config : RelayConfig
config = record {
  batch_size = 10;
  poll_interval = 500;
  ordering = strict;
  shard_count = 1;
  shard_index = 0;
  max_attempts = 3;
  advisory_lock_key = some (pos 42);
  retry_backoff = 1000;
  max_backoff = 60000;
  standby_interval = 5000;
}

abbrev client : InMemoryProducer
client = record { sent = []; failed = []; to_fail = 1; fail_rule = none; flush_count = 0 }

-- Another relay holds a lock of another name.
healthy_pass_example :
    let rs = map relay_row (claimable hash 10 1 0 table) in
    (x : OutboxStats) × ((events' : List Event) × (run_once
          (relay_store hash "outbox")
          in_memory
          config
          checksum
          (record {
            store = record {
              rows = table;
              now = 9;
              held = none;
              own = [];
              others = (pos 42, 3) ∷ [];
              closed = false;
              fates = [];
            };
            producer = record client { to_fail = 0 };
            events = [];
          })
        ≡ (
          ok (record {
            leader = true;
            claimed = length rs;
            published = length rs;
            retried = 0;
            failed = 0;
            stats = some x;
          }),
          record {
            store = record {
              rows = publish_rows 9 (map (λ r. r.id) rs) table;
              now = 9;
              held = some (lock_key checksum config "outbox", lock_shard config);
              own = (lock_key checksum config "outbox", lock_shard config) ∷ [];
              others = (pos 42, 3) ∷ [];
              closed = false;
              fates = [];
            };
            producer = record client {
              sent = map to_message (concat (group_by_key rs));
              to_fail = 0;
            };
            events = events';
          },
        )))
unfolding lock_key lock_shard
healthy_pass_example =
    healthy_pass config checksum hash "outbox" 9 [] ((pos 42, 3) ∷ []) [] 0 table [] [] refl
