-- ===== src/Outbox/Retention/Tests.antt =====
-- A sweep in chunks of one row.
use kafka_reliability.Base.{keep, not, ℕ, String, ◌≡◌, none, some, List, [], ◌∷◌, length, string_eq}
use kafka_reliability.Base.Int.{pos}
use kafka_reliability.Base.Effect.{ok}
use kafka_reliability.Outbox.Table.{Row, Status, pending, failed}
use kafka_reliability.Outbox.Table.{published}
use kafka_reliability.Outbox.Retention.{is_old, sweep_published}
use kafka_reliability.Outbox.Retention.Sweep.{sweep-exact}

abbrev row : String → ℕ → String → Status → Row
row id seq key status = record {
  id = id;
  seq = seq;
  topic = "orders";
  aggregateid = key;
  payload = 1 ∷ [];
  headers = [];
  created_at = 0;
  status = status;
  published_at = none;
  attempts = 0;
  last_error = none;
}

abbrev table : List Row
table = row "x" 2 "a" pending ∷ row "y" 1 "b" failed ∷ row "z" 3 "a" pending ∷ []

-- A row that was published long ago, and one that was not.
abbrev aged : List Row
aged =
    record (row "o" 1 "a" published) { published_at = some 5 }
    ∷ record (row "n" 2 "a" published) { published_at = some 90 }
    ∷ table

sweep-exact_example :
    sweep_published (pos 50) (pos 1) 100 aged
    ≡ some (ok (length (keep (is_old 50 100) aged), keep (λ r. not (is_old 50 100 r)) aged))
sweep-exact_example = sweep-exact (pos 50) (pos 1) 100 aged
