-- ===== src/Dedup/Deduplicator/Unavailable.antt =====
-- A store that cannot be reached: what `process` does over any store.
use kafka_reliability.Base.{
  String, ◌≡◌, refl, ap, ◌∙◌, Bool, true, false, Option, none, some, List, [], ◌∷◌, ◌++◌,
}
use kafka_reliability.Base.Effect.{Result, ok, err, continue, ◌>>=◌}
use kafka_reliability.Core.Error.{Error, store_unavailable}
use kafka_reliability.Core.Message.{Record}
use kafka_reliability.Core.Metrics.{Event, counter, log_error, dedup_store_errors}
use kafka_reliability.Dedup.Store.{ClaimState, DedupStore}
use kafka_reliability.Dedup.Deduplicator.{
  Deduplicator, World, claim_confirm, suppress, OnStoreUnavailable, fail_closed, fail_open, consume,
  carries_on, chosen_mode, block, claim_frame, ask, give_up_or_pass,
}
use kafka_reliability.Dedup.Deduplicator.Enter.{enter-claim_frame}

abbrev failed_reply : OnStoreUnavailable → Option Error → Result Error Bool
failed_reply fail_closed outcome = err store_unavailable
failed_reply fail_open none = ok true
failed_reply fail_open (some e) = err e

abbrev failed_handled : OnStoreUnavailable → Record → List Record → List Record
failed_handled fail_closed r rs = rs
failed_handled fail_open r rs = rs ++ r ∷ []

module _ {S : Type 0} (st : DedupStore S) (self : Deduplicator) where
  -- The counter and the log line of a failure.
  abbrev pub failure_events : String → List Event → List Event
  failure_events kind events =
      (events ++ counter dedup_store_errors (("group", self.group) ∷ ("kind", kind) ∷ []) ∷ [])
      ++ log_error ∷ []

  module _ (r : Record) (k : String) (w : World S) (s : S)
      (confirms : chosen_mode false self.mode ≡ claim_confirm) (keyed : self.key r ≡ ok k)
      (suppresses : self.replay_policy ≡ suppress)
      (fails : st.claim self.group k ClaimState.in_progress self.lease false w.store
        ≡ (err store_unavailable, s)) where
    failed_world : World S
    failed_world = record w { store = s; events = failure_events "claim" w.events }

    ask_failed :
        ask st self claim_confirm self.group k false w
        ≡ (err store_unavailable, record w { store = s })
    unfolding ask
    ask_failed = rw (fails, ask)

    frame_failed :
        claim_frame st self claim_confirm self.group k false w
        ≡ give_up_or_pass st self store_unavailable (carries_on self.on_unavailable) failed_world
    unfolding claim_frame failed_world
    frame_failed = rw (ask_failed, claim_frame)

    block_failed :
        (policy : OnStoreUnavailable) (outcome : Option Error)
        → (give_up_or_pass st self store_unavailable (carries_on policy)
              >>= block st self r outcome)
            failed_world
          ≡ (
            failed_reply policy outcome,
            record w {
              store = s;
              events = failure_events "claim" w.events;
              handled = failed_handled policy r w.handled;
            },
          )
    unfolding give_up_or_pass block failed_world
    block_failed fail_closed outcome = refl
    block_failed fail_open none = refl
    block_failed fail_open (some e) = refl

    -- In claim-then-confirm mode, with replays suppressed and a key that can be computed, a store
    -- that cannot be reached stops the consumer under `fail_closed`, before the handler; under
    -- `fail_open` the handler runs, and its end decides the reply. Either way the failure is counted
    -- and logged once, and nothing else is reported.
    pub claim_unavailable :
        (outcome : Option Error)
        → consume st self r false outcome w ≡ (
          failed_reply self.on_unavailable outcome,
          record w {
            store = s;
            events = failure_events "claim" w.events;
            handled = failed_handled self.on_unavailable r w.handled;
          },
        )
    unfolding consume
    claim_unavailable outcome =
        ap (λ p. continue p (block st self r outcome))
          (enter-claim_frame st self r k w confirms keyed suppresses ∙ frame_failed)
        ∙ block_failed self.on_unavailable outcome
