-- ===== src/Core/Metrics.antt =====
-- metrics.py: what a component reports to its sink, and what it logs, as a list of events.
use kafka_reliability.Base.{ℕ, String, List}

pub data Event : Type 0 where
  counter : String → List (String × String) → Event
  gauge : String → ℕ → List (String × String) → Event
  log_warning log_error : Event

abbrev pub outbox_pending : String
outbox_pending = "outbox.pending"

abbrev pub outbox_oldest_pending_seconds : String
outbox_oldest_pending_seconds = "outbox.oldest_pending_seconds"

abbrev pub outbox_published : String
outbox_published = "outbox.published"

abbrev pub outbox_failed : String
outbox_failed = "outbox.failed"

abbrev pub outbox_relay_errors : String
outbox_relay_errors = "outbox.relay_errors"

abbrev pub dedup_claimed : String
dedup_claimed = "dedup.claimed"

abbrev pub dedup_duplicate : String
dedup_duplicate = "dedup.duplicate"

abbrev pub dedup_in_progress : String
dedup_in_progress = "dedup.in_progress"

abbrev pub dedup_lease_expired : String
dedup_lease_expired = "dedup.lease_expired"

abbrev pub dedup_store_errors : String
dedup_store_errors = "dedup.store_errors"

abbrev pub replay_produced : String
replay_produced = "replay.produced"

abbrev pub replay_skipped : String
replay_skipped = "replay.skipped"
