-- ===== src/Outbox/Relay.antt =====
-- `OutboxRelay` of outbox/relay.py, over any store and any producer.
pub mod Passes
pub mod Runs
pub mod Order
pub mod Failing
pub mod Healthy
mod Tests
use kafka_reliability.Base.{
  ℕ, zero, suc, not, ◌+◌, ◌-◌, String, ◌≡◌, refl, Bool, true, false, ◌||◌, Option, none, some, List,
  [], ◌∷◌, ◌++◌, map, arith, leb, ltb, length, if◌then◌else◌,
}
use kafka_reliability.Base.Effect.{
  Exec, Result, ok, err, pure, raise, lift, modify, catch, ◌>>=◌, ◌>>◌,
}
use kafka_reliability.Core.Error.{Error, store_unavailable}
use kafka_reliability.Core.Message.{OutgoingMessage}
use kafka_reliability.Core.Metrics.{
  Event, counter, gauge, outbox_failed, outbox_oldest_pending_seconds, outbox_pending,
  outbox_published, outbox_relay_errors,
}
use kafka_reliability.Producers.{Producer}
use kafka_reliability.Base.Int.{ℤ}
use kafka_reliability.Outbox.Config.{RelayConfig, lock_shard, lock_key, backoff}
use kafka_reliability.Outbox.Row.{RelayRow, to_message, group_by_key}

pub record OutboxStats : Type 0 where
  pub pending : ℕ
  pub oldest_pending_seconds : ℕ
  pub failed : ℕ

-- The protocol: what the relay asks of the database.
pub record RelayStore (D : Type 0) : Type 0 where
  pub table : String
  pub acquire_leadership : ℤ → ℕ → Exec Error D Bool
  pub release_leadership : Exec Error D (Unit {0})
  pub claim : ℕ → ℕ → ℕ → Exec Error D (List RelayRow)
  pub mark_published : List String → Exec Error D (Unit {0})
  pub record_failure : String → Error → Bool → Exec Error D ℕ
  pub stats : Exec Error D OutboxStats

pub record RelayBatchResult : Type 0 where
  pub leader : Bool
  pub claimed : ℕ
  pub published : ℕ
  pub retried : ℕ
  pub failed : ℕ
  pub stats : Option OutboxStats

pub record GroupOutcome : Type 0 where
  pub published : ℕ
  pub retried : ℕ
  pub failed : ℕ
  pub store_error : Option Error

-- The database, the broker's client, and what was reported so far.
pub record World (D P : Type 0) : Type 0 where
  pub store : D
  pub producer : P
  pub events : List Event

-- What the loop of `_publish_key` has done when it ends: the rows that were sent, the counts, and
-- the exception that ended it.
pub record Pass : Type 0 where
  pub sent : List RelayRow
  pub retried : ℕ
  pub failed : ℕ
  pub raised : Option Error

abbrev nothing_sent : Pass
nothing_sent = record { sent = []; retried = 0; failed = 0; raised = none }

abbrev with_count : ℕ → Result Error ℕ → Result Error (ℕ × ℕ)
with_count n (ok delay) = ok (n, delay)
with_count n (err e) = err e

module _ {D P : Type 0} where
  abbrev emit : Event → Exec Error (World D P) (Unit {0})
  emit e = modify λ w. record w { events = w.events ++ e ∷ [] }

  abbrev with_store : {A : Type 0} → World D P → Result Error A × D → Result Error A × World D P
  with_store w (r, d) = (r, record w { store = d })

  abbrev on_store : {A : Type 0} → Exec Error D A → Exec Error (World D P) A
  on_store op w = with_store w (op w.store)

  abbrev with_producer : {A : Type 0} → World D P → Result Error A × P → Result Error A × World D P
  with_producer w (r, p) = (r, record w { producer = p })

  abbrev on_producer : {A : Type 0} → Exec Error P A → Exec Error (World D P) A
  on_producer op w = with_producer w (op w.producer)

module _ {D P : Type 0} (st : RelayStore D) (producer : Producer P) (self : RelayConfig) where
  abbrev relay_error : String → Exec Error (World D P) (Unit {0})
  relay_error kind = emit (counter outbox_relay_errors (("table", st.table) ∷ ("kind", kind) ∷ []))

  abbrev give_up : RelayRow → Bool
  give_up row = leb self.max_attempts (row.attempts + 1)

  abbrev failure_noted : RelayRow → Result Error ℕ × World D P → Pass × World D P
  failure_noted row (err e, w) = (record nothing_sent { raised = some e }, w)
  failure_noted row (ok n, w) =
      if give_up row
      then (
        record nothing_sent { failed = 1 },
        (emit (counter outbox_failed (("table", st.table) ∷ ("topic", row.topic) ∷ [])) w).1,
      )
      else (record nothing_sent { retried = 1 }, w)

  -- except Exception: the row failed, and the loop ends
  produce_failed : RelayRow → Error → World D P → Pass × World D P
  produce_failed row e w =
      failure_noted row
        (on_store (st.record_failure row.id e (give_up row)) (relay_error "produce" w).1)

  abbrev after_send :
      RelayRow
      → Result Error (Unit {0}) × World D P
      → (World D P → Pass × World D P)
      → Pass × World D P
  unfolding produce_failed
  after_send row (err e, w) rest = produce_failed row e w
  after_send row (ok u, w) rest =
      let (pass, w') = rest w in (record pass { sent = row ∷ pass.sent }, w')

  -- The loop of `_publish_key`.
  send_rows : List RelayRow → World D P → Pass × World D P
  unfolding produce_failed
  send_rows [] w = (nothing_sent, w)
  send_rows (row ∷ rows) w =
      after_send row (on_producer (producer.send (to_message row)) w) (send_rows rows)

  abbrev row_published : RelayRow → Exec Error (World D P) (Unit {0})
  row_published row =
      emit (counter outbox_published (("table", st.table) ∷ ("topic", row.topic) ∷ []))

  report_published : List RelayRow → World D P → World D P
  report_published [] w = w
  report_published (row ∷ rows) w = report_published rows (row_published row w).1

  abbrev first_of_two : Option Error → Error → Option Error
  first_of_two none e = some e
  first_of_two (some x) e = some x

  -- The loop's exception after `finally`: a lost store is part of the outcome.
  abbrev outcome_of : Pass → ℕ → Option Error → Result Error GroupOutcome
  outcome_of pass n none =
      ok
        (record { published = n; retried = pass.retried; failed = pass.failed; store_error = none })
  outcome_of pass n (some store_unavailable) = ok (record {
    published = n;
    retried = pass.retried;
    failed = pass.failed;
    store_error = some store_unavailable;
  })
  outcome_of pass n (some e) = err e

  abbrev marked : Pass → Result Error (Unit {0}) × World D P → Result Error GroupOutcome × World D P
  unfolding report_published
  marked pass (ok u, w) =
      (outcome_of pass (length pass.sent) pass.raised, report_published pass.sent w)
  marked pass (err store_unavailable, w) =
      (outcome_of pass 0 (first_of_two pass.raised store_unavailable), w)
  marked pass (err e, w) = (err e, w)

  -- The `finally` of `_publish_key`.
  finally_mark : Pass → List RelayRow → World D P → Result Error GroupOutcome × World D P
  unfolding report_published
  finally_mark pass [] w = (outcome_of pass 0 pass.raised, w)
  finally_mark pass (row ∷ rows) w =
      marked pass (on_store (st.mark_published (map (λ r. r.id) (row ∷ rows))) w)

  pub publish_key : List RelayRow → Exec Error (World D P) GroupOutcome
  unfolding send_rows finally_mark
  publish_key rows w = let (pass, w') = send_rows rows w in finally_mark pass pass.sent w'

  abbrev also :
      Result Error GroupOutcome
      → Result Error (List GroupOutcome)
      → Result Error (List GroupOutcome)
  also (err e) rest = err e
  also (ok o) (err e) = err e
  also (ok o) (ok os) = ok (o ∷ os)

  -- asyncio.gather, with the groups one after another; the first exception is raised at the end.
  pub gather : List (List RelayRow) → Exec Error (World D P) (List GroupOutcome)
  unfolding publish_key
  gather [] w = (ok [], w)
  gather (g ∷ gs) w =
      let (o, w') = publish_key g w in let (os, w'') = gather gs w' in (also o os, w'')

  abbrev sum_of : (GroupOutcome → ℕ) → List GroupOutcome → ℕ
  sum_of f [] = 0
  sum_of f (o ∷ os) = f o + sum_of f os

  -- except StoreUnavailableError: count it, and raise
  abbrev counted : {A : Type 0} → Error → Exec Error (World D P) A
  counted store_unavailable = do relay_error "store"; raise store_unavailable
  counted e = raise e

  -- The first outcome with a store error stops the pass.
  check_outcomes : List GroupOutcome → Exec Error (World D P) (Unit {0})
  check_outcomes [] = pure tt
  check_outcomes (o ∷ os) =
      let rest = check_outcomes os in
      elim o.store_error [ none ↦ rest | some e ↦ (do relay_error "store"; raise e) ]

  pub stats : Exec Error (World D P) OutboxStats
  stats = do
    s ← on_store st.stats
    emit (gauge outbox_pending s.pending (("table", st.table) ∷ []))
    emit (gauge outbox_oldest_pending_seconds s.oldest_pending_seconds (("table", st.table) ∷ []))
    pure s

  not_leader : RelayBatchResult
  not_leader = record {
    leader = false;
    claimed = 0;
    published = 0;
    retried = 0;
    failed = 0;
    stats = none;
  }

  publish_rows : List RelayRow → Exec Error (World D P) RelayBatchResult
  unfolding gather check_outcomes stats
  publish_rows rows = do
    outcomes ← gather (group_by_key rows)
    check_outcomes outcomes
    s ← catch stats counted
    pure (record {
      leader = true;
      claimed = length rows;
      published = sum_of (λ o. o.published) outcomes;
      retried = sum_of (λ o. o.retried) outcomes;
      failed = sum_of (λ o. o.failed) outcomes;
      stats = some s;
    })

  module _ (crc32 : String → ℕ) where
    claim_if : Bool → Exec Error (World D P) (Option (List RelayRow))
    claim_if false = pure none
    claim_if true = do
      rows ← on_store (st.claim self.batch_size self.shard_count self.shard_index)
      pure (some rows)

    claim_batch : Exec Error (World D P) (Option (List RelayRow))
    unfolding claim_if
    claim_batch = do
      leader ← on_store (st.acquire_leadership (lock_key crc32 self st.table) (lock_shard self))
      claim_if leader

    publish_claimed : Option (List RelayRow) → Exec Error (World D P) RelayBatchResult
    unfolding not_leader publish_rows
    publish_claimed none = pure not_leader
    publish_claimed (some rows) = publish_rows rows

    pub run_once : Exec Error (World D P) RelayBatchResult
    unfolding claim_batch publish_claimed
    run_once = do claimed ← catch claim_batch counted; publish_claimed claimed

    -- The next count of failing passes, and the delay.
    pub next_delay : RelayBatchResult → ℕ → Result Error (ℕ × ℕ)
    next_delay result failing_passes =
        if not result.leader
        then ok (failing_passes, self.standby_interval)
        else if ltb 0 result.retried || ltb 0 result.failed
        then with_count (failing_passes + 1) (backoff self (failing_passes + 1))
        else ok (0, if leb self.batch_size result.claimed then 0 else self.poll_interval)

    -- The loop of `run`, when `stop` is set after `passes` passes; the result is the delays that it
    -- slept.
    pub run_loop : ℕ → ℕ → Exec Error (World D P) (List ℕ)
    unfolding run_once next_delay
    run_loop zero failing_passes = pure []
    run_loop (suc passes) failing_passes = do
      result ← run_once
      next ← lift (next_delay result failing_passes)
      delays ← run_loop passes next.0
      pure (next.1 ∷ delays)

    -- try: the loop; finally: close()
    abbrev pub closed_after : Result Error (List ℕ) × World D P → Result Error (List ℕ) × World D P
    closed_after (r, w) = (do on_store st.release_leadership; lift r) w

    pub run : ℕ → Exec Error (World D P) (List ℕ)
    unfolding run_loop
    run passes w = closed_after (run_loop passes 0 w)
