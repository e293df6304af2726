-- ===== src/Outbox/Tests.antt =====
-- The outbox's theorems at concrete inputs: a table of three rows, two of one key.
use kafka_reliability.Base.{
  ℕ, String, ◌≡◌, refl, ◌↔◌, ◌⊎◌, inl, inr, ◌≤◌, ◌≢◌, true, false, none, some, List, [], ◌∷◌, arith,
  All, Member, length, ◌==◌, string_eq, map,
}
use kafka_reliability.Base.Effect.{ok, err}
use kafka_reliability.Producers.{in_memory}
use kafka_reliability.Producers.Memory.{InMemoryProducer}
use kafka_reliability.Base.Int.{pos, ℤ, negsuc}
use kafka_reliability.Outbox.Config.{strict, sharded, RelayConfig, post_init, lock_shard, backoff}
use kafka_reliability.Outbox.Config.Accepted.{
  IsAccepted, arguments_of, post_init-IsAccepted, lock_shard-apart, backoff-grows,
}
use kafka_reliability.Outbox.Row.{group_by_key}
use kafka_reliability.Base.Dict.{lookup}
use kafka_reliability.Core.Error.{configuration}
use kafka_reliability.Core.Utf8.{encode}
use kafka_reliability.Outbox.Row.{RelayRow, to_message}
use kafka_reliability.Outbox.Row.Headers.{lookup-to_message}
use kafka_reliability.Outbox.Row.Groups.{one_unless_empty, rows_of, units, units-group_by_key}
use kafka_reliability.Outbox.Relay.{World, run, publish_key}
use kafka_reliability.Outbox.Relay.Order.{InOrder, publish_key-InOrder}
use kafka_reliability.Outbox.Table.{
  Row, Session, Status, pending, failed, served, lost_after, relay_row, relay_store, in_shard,
  is_blocked, is_claimable,
}
use kafka_reliability.Outbox.Table.Claims.{HasKey}
use kafka_reliability.Outbox.Table.Delivered.{IsDelivered, skeleton}
use kafka_reliability.Outbox.Table.Selection.{IsSorted, claimed, claimable_sound, claimable-oldest}
use kafka_reliability.Outbox.Delivery.{at_least_once}

abbrev row : String → ℕ → String → Status → Row
row id seq key status = record {
  id = id;
  seq = seq;
  topic = "orders";
  aggregateid = key;
  payload = 1 ∷ [];
  headers = [];
  created_at = 0;
  status = status;
  published_at = none;
  attempts = 0;
  last_error = none;
}

abbrev table : List Row
table = row "x" 2 "a" pending ∷ row "y" 1 "b" failed ∷ row "z" 3 "a" pending ∷ []

abbrev hash : String → ℤ
hash key = negsuc 6

abbrev checksum : String → ℕ
checksum name = 7

-- One shard; the second query of the run is lost after the server ran it.
abbrev config : RelayConfig
config = record {
  batch_size = 10;
  poll_interval = 500;
  ordering = strict;
  shard_count = 1;
  shard_index = 0;
  max_attempts = 3;
  advisory_lock_key = some (pos 42);
  retry_backoff = 1000;
  max_backoff = 60000;
  standby_interval = 5000;
}

abbrev client : InMemoryProducer
client = record { sent = []; failed = []; to_fail = 1; fail_rule = none; flush_count = 0 }

abbrev world : World Session InMemoryProducer
world = record {
  store = record {
    rows = table;
    now = 9;
    held = none;
    own = [];
    others = [];
    closed = false;
    fates = served ∷ served ∷ lost_after ∷ [];
  };
  producer = client;
  events = [];
}

apart : (a b : String) → (a == b) ≡ false → a ≢ b
apart a b h e = absurd (cc ((string_eq.equals_iff a b).1 e))

table_HasKey : HasKey (skeleton table)
table_HasKey =
    ((apart "y" "x" refl, (apart "z" "x" refl, tt)), ((apart "z" "y" refl, tt), (tt, tt)))

at_least_once_example :
    let w' = (run (relay_store hash "outbox") in_memory config checksum 4 world).1 in
    (skeleton w'.store.rows ≡ skeleton table) × IsDelivered w'.store.rows w'.producer.sent
at_least_once_example =
    at_least_once hash checksum "outbox" config 4 world table_HasKey
      ((λ e. absurd (cc)), ((λ e. absurd (cc)), ((λ e. absurd (cc)), tt)))

publish_key-InOrder_example :
    InOrder
      (relay_store hash "outbox")
      config
      (map relay_row table)
      client
      (publish_key
        (relay_store hash "outbox")
        in_memory
        config
        (map relay_row table)
        world).1.producer
publish_key-InOrder_example =
    publish_key-InOrder (relay_store hash "outbox") config (map relay_row table) world

units-group_by_key_example :
    units "a" (group_by_key (map relay_row table))
    ≡ one_unless_empty (rows_of "a" (map relay_row table))
units-group_by_key_example = units-group_by_key "a" (map relay_row table)

claimable_sound_example :
    (length (claimed hash 1 1 0 table) ≤ 1)
    × (IsSorted (claimed hash 1 1 0 table)
        × All
            (λ r.
              (r.status ≡ pending)
              × ((in_shard hash 1 0 r.aggregateid ≡ true)
                  × (is_blocked table r.aggregateid ≡ false)))
            (claimed hash 1 1 0 table))
claimable_sound_example = claimable_sound hash 1 1 0 table

claimable-oldest_example :
    Member (row "z" 3 "a" pending) (claimed hash 1 1 0 table)
    ⊎ ((length (claimed hash 1 1 0 table) ≡ 1) × All (λ r. r.seq ≤ 3) (claimed hash 1 1 0 table))
unfolding is_claimable in_shard is_blocked
claimable-oldest_example =
    claimable-oldest hash 1 1 0 table (row "z" 3 "a" pending) (inr (inr (inl refl))) refl

post_init-IsAccepted_example :
    (post_init (arguments_of config) ≡ ok config) ↔ IsAccepted (arguments_of config) config
post_init-IsAccepted_example = post_init-IsAccepted (arguments_of config) config

negative_refused :
    (post_init (record (arguments_of config) { max_backoff = negsuc 0 }) ≡ err configuration)
    × (post_init (record (arguments_of config) { shard_index = negsuc 0 }) ≡ err configuration)
    × (post_init (record (arguments_of config) { ordering = "loose" }) ≡ err configuration)
unfolding post_init
negative_refused = (refl, refl, refl)

abbrev shard : ℕ → RelayConfig
shard n = record config { ordering = sharded; shard_count = 4; shard_index = n }

lock_shard-apart_example :
    let a = shard 2 in
    ((a.ordering ≡ strict) × (a.ordering ≡ strict))
    ⊎ ((a.ordering ≡ sharded) × ((a.ordering ≡ sharded) × (a.shard_index ≡ a.shard_index)))
unfolding lock_shard
lock_shard-apart_example = lock_shard-apart (shard 2) (record (shard 2) { batch_size = 5 }) refl

backoff-grows_example :
    (d : ℕ) × ((e : ℕ) × ((backoff config 2 ≡ ok d)
        × ((backoff config 9 ≡ ok e) × (d ≤ e × e ≤ 60000))))
backoff-grows_example = backoff-grows config 2 9 (ground arith) (ground arith) (ground arith)

-- A stored header of the event id's name.
abbrev forged : RelayRow
forged = record (relay_row (row "x" 2 "a" pending)) { headers = ("x-event-id", "y") ∷ [] }

lookup-to_message_example : lookup "x-event-id" (to_message forged).headers ≡ some (encode "x")
lookup-to_message_example = lookup-to_message forged "x-event-id"
