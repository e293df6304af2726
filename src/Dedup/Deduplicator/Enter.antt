-- ===== src/Dedup/Deduplicator/Enter.antt =====
-- What `enter` does in claim-then-confirm mode, over any store.
use kafka_reliability.Base.{
  String, ◌≡◌, refl, ap, ◌∙◌, Bool, false, Option, none, some, List, [], ◌∷◌, ◌++◌, arith,
  if◌then◌else◌,
}
use kafka_reliability.Base.Effect.{ok, bind-ok}
use kafka_reliability.Core.Error.{Error}
use kafka_reliability.Core.Message.{Record, get_header, replay_id}
use kafka_reliability.Core.Metrics.{Event, counter, log_warning, dedup_lease_expired}
use kafka_reliability.Core.Utf8.{Bytes}
use kafka_reliability.Dedup.Store.{ClaimState, Claim, DedupStore}
use kafka_reliability.Dedup.Deduplicator.{
  Deduplicator, World, Mode, claim_confirm, ReplayPolicy, suppress, consume, block, enter,
  chosen_mode, check_mode, resolve_mode, replay_frame, claim_frame, frame_of, claimed_as, ask,
  result_counter,
}

module _ {S : Type 0} (st : DedupStore S) (self : Deduplicator) where
  pub resolve_confirm :
      chosen_mode false self.mode ≡ claim_confirm → resolve_mode st self false ≡ ok claim_confirm
  unfolding resolve_mode
  resolve_confirm h = ap (check_mode st self false) h

  replay_suppressed :
      (policy : ReplayPolicy) (mode : Mode) (key : String) (id : Option Bytes) (conn : Bool)
      (w : World S)
      → policy ≡ suppress
      → replay_frame st self policy mode key id conn w
        ≡ claim_frame st self mode self.group key conn w
  unfolding replay_frame
  replay_suppressed suppress mode key none conn w h = refl
  replay_suppressed suppress mode key (some id) conn w h = refl
  replay_suppressed ReplayPolicy.bypass mode key id conn w h = absurd (cc)
  replay_suppressed ReplayPolicy.namespace mode key id conn w h = absurd (cc)

  pub enter-claim_frame :
      (r : Record) (k : String) (w : World S)
      → chosen_mode false self.mode ≡ claim_confirm
      → self.key r ≡ ok k
      → self.replay_policy ≡ suppress
      → enter st self r false w ≡ claim_frame st self claim_confirm self.group k false w
  unfolding enter
  enter-claim_frame r k w confirms keyed suppresses =
      rw (resolve_confirm confirms, keyed)
        (replay_suppressed self.replay_policy claim_confirm k (get_header r.headers replay_id) false
          w suppresses)

  -- The reports that follow a claim.
  pub reported : Claim → List Event → List Event
  unfolding result_counter
  reported claim events =
      (if claim.lease_expired
        then (events ++ counter dedup_lease_expired (("group", self.group) ∷ []) ∷ [])
          ++ log_warning ∷ []
        else events)
      ++ counter (result_counter st self claim.result) (("group", self.group) ∷ []) ∷ []

  pub claimed_as-reported :
      (claim : Claim) (w : World S)
      → claimed_as st self claim w ≡ (
        ok (record { result = some claim.result; reason = "" }),
        record w { events = reported claim w.events },
      )
  unfolding claimed_as reported
  claimed_as-reported claim w = ground arith

  module _ (group key : String) (w : World S) (c : Claim) (s : S)
      (claims : st.claim group key ClaimState.in_progress self.lease false w.store
        ≡ (ok c, s)) where
    ask-eq : ask st self claim_confirm group key false w ≡ (
      ok (record { result = some c.result; reason = "" }),
      record w { store = s; events = reported c w.events },
    )
    unfolding ask
    ask-eq = rw (claims, ask) (claimed_as-reported c (record w { store = s }))

    pub claim_frame-eq : claim_frame st self claim_confirm group key false w ≡ (
      ok (
          frame_of st self claim_confirm group key
            (some c.result)
            (record { result = some c.result; reason = "" })),
      record w { store = s; events = reported c w.events },
    )
    unfolding claim_frame
    claim_frame-eq = rw (ask-eq, claim_frame) refl

module _ {S : Type 0} (st : DedupStore S) (self : Deduplicator) (r : Record) (k : String)
    (w : World S) (confirms : chosen_mode false self.mode ≡ claim_confirm)
    (keyed : self.key r ≡ ok k) (suppresses : self.replay_policy ≡ suppress) {c : Claim} {s : S}
    (claims : st.claim self.group k ClaimState.in_progress self.lease false w.store
      ≡ (ok c, s)) where
  pub consume-block :
      (outcome : Option Error)
      → consume st self r false outcome w
        ≡ block st self r outcome
            (frame_of st self claim_confirm self.group k
              (some c.result)
              (record { result = some c.result; reason = "" }))
            (record w { store = s; events = reported st self c w.events })
  unfolding consume
  consume-block outcome = bind-ok (enter st self r false) (block st self r outcome) w (
      enter-claim_frame st self r k w confirms keyed suppresses
      ∙ claim_frame-eq st self self.group k w c s claims)
