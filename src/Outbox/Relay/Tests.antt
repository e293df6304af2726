-- ===== src/Outbox/Relay/Tests.antt =====
-- A relay over a store that hands out one row for ever and a client that refuses it.
use kafka_reliability.Base.{
  leb, if◌then◌else◌, ℕ, zero, suc, ◌+◌, String, ◌≡◌, refl, true, none, some, List, [], ◌∷◌, arith,
}
use kafka_reliability.Base.Effect.{ok, err, pure}
use kafka_reliability.Core.Error.{overflow}
use kafka_reliability.Core.Message.{OutgoingMessage}
use kafka_reliability.Core.Metrics.{Event}
use kafka_reliability.Producers.{in_memory}
use kafka_reliability.Producers.Memory.{InMemoryProducer, send}
use kafka_reliability.Outbox.Config.{RelayConfig, sharded}
use kafka_reliability.Outbox.Row.{RelayRow, group_by_key, group_rows}
use kafka_reliability.Outbox.Relay.{
  RelayStore, RelayBatchResult, OutboxStats, World, run, run_once, closed_after, claim_batch,
  claim_if, publish_claimed, publish_rows, gather, publish_key, send_rows, produce_failed,
  finally_mark, check_outcomes, stats,
}
use kafka_reliability.Outbox.Relay.Failing.{Fails, delays_from, run-overflows}

abbrev one_row : RelayRow
one_row = record {
  id = "x";
  seq = 1;
  topic = "orders";
  aggregateid = "";
  payload = 1 ∷ [];
  headers = [];
  attempts = 0;
}

abbrev one_waits : OutboxStats
one_waits = record { pending = 1; oldest_pending_seconds = 2; failed = 0 }

abbrev stuck : RelayStore ℕ
stuck = record {
  table = "outbox";
  acquire_leadership = λ key shard. pure true;
  release_leadership = pure tt;
  claim = λ limit count index. pure (one_row ∷ []);
  mark_published = λ ids. pure tt;
  record_failure = λ id e give_up. pure 1;
  stats = pure one_waits;
}

abbrev patient : RelayConfig
patient = record {
  batch_size = 10;
  poll_interval = 500;
  ordering = sharded;
  shard_count = 2;
  shard_index = 0;
  max_attempts = 1000000;
  advisory_lock_key = none;
  retry_backoff = 1000;
  max_backoff = 60000;
  standby_interval = 5000;
}

abbrev refusing : List OutgoingMessage × List Event → World ℕ InMemoryProducer
refusing (failed, events) = record {
  store = 0;
  producer = record {
    sent = [];
    failed = failed;
    to_fail = 0;
    fail_rule = some (λ m. true);
    flush_count = 0;
  };
  events = events;
}

abbrev checksum : String → ℕ
checksum s = 1

-- What a pass adds to the refused messages and to the reports.
abbrev refused_again : List OutgoingMessage × List Event → List OutgoingMessage × List Event
refused_again seen =
    let w = (run_once stuck in_memory patient checksum (refusing seen)).1 in
    (w.producer.failed, w.events)

seen : ℕ → List OutgoingMessage × List Event
seen zero = ([], [])
seen (suc n) = refused_again (seen n)

abbrev worlds : ℕ → World ℕ InMemoryProducer
unfolding seen
worlds n = refusing (seen n)

abbrev retried_once : RelayBatchResult
retried_once = record {
  leader = true;
  claimed = 1;
  published = 0;
  retried = 1;
  failed = 0;
  stats = some one_waits;
}

one_pass :
    (seen_before : List OutgoingMessage × List Event)
    → run_once stuck in_memory patient checksum (refusing seen_before)
      ≡ (ok retried_once, refusing (refused_again seen_before))
unfolding run_once claim_batch claim_if publish_claimed publish_rows gather publish_key send_rows
    produce_failed finally_mark check_outcomes stats group_by_key group_rows send
one_pass seen_before = refl

pass-Fails : (n : ℕ) → Fails stuck in_memory patient checksum (worlds n) (worlds (n + 1))
unfolding seen
pass-Fails n =
    let next : n + 1 ≡ suc n = omega arith in
    rw next (retried_once, one_pass (seen n), refl, omega arith)

run-overflows_example :
    run stuck in_memory patient checksum 2000 (worlds 0)
    ≡ closed_after stuck in_memory patient checksum (
        if leb 2000 1024
        then (ok (delays_from patient 2000 0), worlds 2000)
        else (err overflow, worlds 1025))
run-overflows_example =
    run-overflows stuck in_memory patient checksum worlds (λ n few. pass-Fails n) 2000

first_delays :
    delays_from patient 8 0 ≡ 1000 ∷ 2000 ∷ 4000 ∷ 8000 ∷ 16000 ∷ 32000 ∷ 60000 ∷ 60000 ∷ []
unfolding delays_from
first_delays = refl
