-- ===== src/Outbox/Relay/Healthy.antt =====
-- A pass of outbox/relay.py while the store answers and the in-memory producer refuses nothing.
use mathlib.Core.List.{append-nil, append_assoc}
use kafka_reliability.Base.{
  ℕ, String, ◌≡◌, refl, ap, ◌∙◌, true, none, some, List, [], ◌∷◌, ◌++◌, map, arith, length,
}
use kafka_reliability.Base.Effect.{ok}
use kafka_reliability.Core.Message.{OutgoingMessage}
use kafka_reliability.Core.Metrics.{
  Event, counter, gauge, outbox_oldest_pending_seconds, outbox_pending, outbox_published,
}
use kafka_reliability.Producers.{in_memory}
use kafka_reliability.Producers.Memory.{InMemoryProducer, send}
use kafka_reliability.Outbox.Config.{RelayConfig, lock_key, lock_shard}
use kafka_reliability.Outbox.Row.{RelayRow, to_message, group_by_key}
use kafka_reliability.Outbox.Row.Totals.{total, total_all, total-group_by_key}
use kafka_reliability.Outbox.Relay.{
  OutboxStats, RelayStore, RelayBatchResult, GroupOutcome, World, Pass, send_rows, finally_mark,
  report_published, publish_key, gather, check_outcomes, stats, publish_rows, claim_if, claim_batch,
  publish_claimed, run_once, sum_of, produce_failed,
}

abbrev pub concat : List (List RelayRow) → List RelayRow
concat [] = []
concat (g ∷ gs) = g ++ concat gs

-- The store's states are named by `R`, and `mark` is what a statement that marks rows does.
module _ {D R : Type 0} (st : RelayStore D) (self : RelayConfig) (db : R → D)
    (mark : List String → R → R)
    (marks : (ids : List String) (r : R) → st.mark_published ids (db r) ≡ (ok tt, db (mark ids r)))
    (failed : List OutgoingMessage) (flush_count : ℕ) where
  abbrev pub client : List OutgoingMessage → InMemoryProducer
  client sent = record {
    sent = sent;
    failed = failed;
    to_fail = 0;
    fail_rule = none;
    flush_count = flush_count;
  }

  abbrev at : R → List OutgoingMessage → List Event → World D InMemoryProducer
  at r sent events = record { store = db r; producer = client sent; events = events }

  abbrev sent_pass : List RelayRow → Pass
  sent_pass rows = record { sent = rows; retried = 0; failed = 0; raised = none }

  send_rows-healthy :
      (rows : List RelayRow) (r : R) (sent : List OutgoingMessage) (events : List Event)
      → send_rows st in_memory self rows (at r sent events)
        ≡ (sent_pass rows, at r (sent ++ map to_message rows) events)
  unfolding send_rows send produce_failed
  send_rows-healthy [] r sent events = rw (append-nil sent) refl
  send_rows-healthy (row ∷ rows) r sent events =
      ap (λ (q : Pass × World D InMemoryProducer). (record q.0 { sent = row ∷ q.0.sent }, q.1))
        (send_rows-healthy rows r (sent ++ to_message row ∷ []) events)
      ∙ ap (λ s. (sent_pass (row ∷ rows), at r s events))
          (append_assoc sent (to_message row ∷ []) (map to_message rows))

  abbrev reports : List RelayRow → List Event → List Event
  reports [] events = events
  reports (row ∷ rows) events =
      reports rows
        (events ++ counter outbox_published (("table", st.table) ∷ ("topic", row.topic) ∷ []) ∷ [])

  report_published-reports :
      (rows : List RelayRow) (r : R) (sent : List OutgoingMessage) (events : List Event)
      → report_published st in_memory self rows (at r sent events) ≡ at r sent (reports rows events)
  unfolding report_published
  report_published-reports [] r sent events = refl
  report_published-reports (row ∷ rows) r sent events = report_published-reports rows r sent _

  abbrev pub mark_group : List RelayRow → R → R
  mark_group [] r = r
  mark_group (row ∷ rows) r = mark (map (λ x. x.id) (row ∷ rows)) r

  abbrev all_published : List RelayRow → GroupOutcome
  all_published rows = record {
    published = length rows;
    retried = 0;
    failed = 0;
    store_error = none;
  }

  finally_mark-healthy :
      (rows : List RelayRow) (r : R) (sent : List OutgoingMessage) (events : List Event)
      → finally_mark st in_memory self (sent_pass rows) rows (at r sent events)
        ≡ (ok (all_published rows), at (mark_group rows r) sent (reports rows events))
  unfolding finally_mark report_published
  finally_mark-healthy [] r sent events = refl
  finally_mark-healthy (row ∷ rows) r sent events = rw (marks (map (λ x. x.id) (row ∷ rows)) r) (
      ap (λ w. (ok (all_published (row ∷ rows)), w))
        (report_published-reports (row ∷ rows) (mark_group (row ∷ rows) r) sent events))

  publish_key-healthy :
      (rows : List RelayRow) (r : R) (sent : List OutgoingMessage) (events : List Event)
      → publish_key st in_memory self rows (at r sent events) ≡ (
        ok (all_published rows),
        at (mark_group rows r) (sent ++ map to_message rows) (reports rows events),
      )
  unfolding publish_key
  publish_key-healthy rows r sent events =
      rw (send_rows-healthy rows r sent events)
        (finally_mark-healthy rows r (sent ++ map to_message rows) events)

  abbrev pub mark_groups : List (List RelayRow) → R → R
  mark_groups [] r = r
  mark_groups (g ∷ gs) r = mark_groups gs (mark_group g r)

  abbrev all_reports : List (List RelayRow) → List Event → List Event
  all_reports [] events = events
  all_reports (g ∷ gs) events = all_reports gs (reports g events)

  map-append :
      (xs ys : List RelayRow) → map to_message (xs ++ ys) ≡ map to_message xs ++ map to_message ys
  map-append [] ys = refl
  map-append (x ∷ xs) ys = ap (λ zs. to_message x ∷ zs) (map-append xs ys)

  gather-healthy :
      (groups : List (List RelayRow)) (r : R) (sent : List OutgoingMessage) (events : List Event)
      → gather st in_memory self groups (at r sent events) ≡ (
        ok (map all_published groups),
        at
            (mark_groups groups r)
            (sent ++ map to_message (concat groups))
            (all_reports groups events),
      )
  unfolding gather
  gather-healthy [] r sent events = rw (append-nil sent) refl
  gather-healthy (g ∷ gs) r sent events = rw (publish_key-healthy g r sent events) (
      rw (gather-healthy gs (mark_group g r) (sent ++ map to_message g) (reports g events)) (
        rw (map-append g (concat gs))
          (rw (append_assoc sent (map to_message g) (map to_message (concat gs))) refl)))

  check_outcomes-healthy :
      (groups : List (List RelayRow)) (w : World D InMemoryProducer)
      → check_outcomes st in_memory self (map all_published groups) w ≡ (ok tt, w)
  unfolding check_outcomes
  check_outcomes-healthy [] w = refl
  check_outcomes-healthy (g ∷ gs) w = check_outcomes-healthy gs w

  abbrev one : RelayRow → ℕ
  one row = 1

  total-one : (rows : List RelayRow) → total one rows ≡ length rows
  total-one [] = refl
  total-one (row ∷ rows) = omega (arith, total-one rows)

  sum-published :
      (groups : List (List RelayRow))
      → sum_of st in_memory self (λ o. o.published) (map all_published groups)
        ≡ total_all one groups
  sum-published [] = refl
  sum-published (g ∷ gs) = omega (arith, sum-published gs, total-one g)

  sum-none :
      (f : GroupOutcome → ℕ) (groups : List (List RelayRow))
      → ((rows : List RelayRow) → f (all_published rows) ≡ 0)
      → sum_of st in_memory self f (map all_published groups) ≡ 0
  sum-none f [] h = refl
  sum-none f (g ∷ gs) h = omega (arith, sum-none f gs h, h g)

  -- The result of a pass in which every claimed row was published.
  abbrev pub full_result : List RelayRow → OutboxStats → RelayBatchResult
  full_result rows x = record {
    leader = true;
    claimed = length rows;
    published = length rows;
    retried = 0;
    failed = 0;
    stats = some x;
  }

  published_all :
      (rows : List RelayRow)
      → sum_of st in_memory self (λ o. o.published) (map all_published (group_by_key rows))
        ≡ length rows
  published_all rows =
      sum-published (group_by_key rows) ∙ (total-group_by_key one rows ∙ total-one rows)

  module _ (crc32 : String → ℕ) (d : D) (r : R) (rows : List RelayRow) (x : OutboxStats)
      (leads : st.acquire_leadership (lock_key crc32 self st.table) (lock_shard self) d
        ≡ (ok true, db r))
      (claims : st.claim self.batch_size self.shard_count self.shard_index (db r) ≡ (ok rows, db r))
      (measured : st.stats (db (mark_groups (group_by_key rows) r))
        ≡ (ok x, db (mark_groups (group_by_key rows) r))) where
    abbrev gauges : List Event → List Event
    gauges events =
        (events ++ gauge outbox_pending x.pending (("table", st.table) ∷ []) ∷ [])
        ++ gauge outbox_oldest_pending_seconds x.oldest_pending_seconds (("table", st.table) ∷ [])
          ∷ []

    publish_rows-healthy :
        (sent : List OutgoingMessage) (events : List Event)
        → publish_rows st in_memory self rows (at r sent events) ≡ (
          ok (full_result rows x),
          at
              (mark_groups (group_by_key rows) r)
              (sent ++ map to_message (concat (group_by_key rows)))
              (gauges (all_reports (group_by_key rows) events)),
        )
    unfolding publish_rows stats
    publish_rows-healthy sent events = rw (gather-healthy (group_by_key rows) r sent events) (
        rw
          (check_outcomes-healthy (group_by_key rows) (
            at (mark_groups (group_by_key rows) r)
              (sent ++ map to_message (concat (group_by_key rows)))
              (all_reports (group_by_key rows) events)))
          (rw measured (
            rw (published_all rows) (
              rw (sum-none (λ o. o.retried) (group_by_key rows) (λ g. refl))
                (rw (sum-none (λ o. o.failed) (group_by_key rows) (λ g. refl)) refl)))))

    claim_batch-healthy :
        (sent : List OutgoingMessage) (events : List Event)
        → claim_batch st in_memory self crc32
            (record { store = d; producer = client sent; events = events })
          ≡ (ok (some rows), at r sent events)
    unfolding claim_batch claim_if
    claim_batch-healthy sent events = rw leads (rw claims refl)

    -- A pass whose store answers and whose client refuses nothing publishes all that it claimed: the
    -- messages of the claimed rows are sent in the order of the groups, each group is marked, and
    -- the result counts every claimed row as published.
    pub run_once-healthy :
        (sent : List OutgoingMessage) (events : List Event)
        → (events' : List Event) × (run_once st in_memory self crc32
              (record { store = d; producer = client sent; events = events })
            ≡ (
              ok (full_result rows x),
              at
                  (mark_groups (group_by_key rows) r)
                  (sent ++ map to_message (concat (group_by_key rows)))
                  events',
            ))
    unfolding run_once publish_claimed
    run_once-healthy sent events = (
      gauges (all_reports (group_by_key rows) events),
      rw (claim_batch-healthy sent events) (publish_rows-healthy sent events),
    )
