-- ===== src/Dedup/Deduplicator/Outcomes.antt =====
-- One record through `consume`, over the in-memory store.
use kafka_reliability.Base.{
  ◌<◌, leb, ◌||◌, Bool-cases, inl, inr, String, ◌≡◌, refl, ◌∙◌, Bool, true, false, Option, none,
  some, List, [], ◌∷◌, ◌++◌, arith, if◌then◌else◌, ◌==◌, string_eq, pair_eq, equals_refl,
  pair_equals_iff,
}
use kafka_reliability.Base.Dict.{lookup}
use kafka_reliability.Base.Effect.{Result, ok, err}
use kafka_reliability.Core.Error.{Error, configuration}
use kafka_reliability.Core.Message.{Record}
use kafka_reliability.Core.Metrics.{Event}
use kafka_reliability.Dedup.Store.{ClaimState, Claim}
use kafka_reliability.Dedup.Memory.{Key, Memory, memory_store, claim, confirm, release}
use kafka_reliability.Dedup.Memory.View.{
  view, answer, lapsed, claim-eq, view-claim, view-release, view-confirm,
}
use kafka_reliability.Dedup.Deduplicator.{
  Deduplicator, World, claim_confirm, suppress, consume, chosen_mode, block, frame_of, init, finish,
  safely,
}
use kafka_reliability.Dedup.Deduplicator.Enter.{consume-block, reported}

-- What `consume` returns or raises, by the live state of the key and the handler's exception.
abbrev pub reply : Option ClaimState → Option Error → Result Error Bool
reply none none = ok true
reply none (some e) = err e
reply (some ClaimState.done) outcome = ok true
reply (some ClaimState.in_progress) outcome = ok false

-- The handler runs for a key that is free, and for no other.
abbrev pub handled_after : Option ClaimState → Record → List Record → List Record
handled_after none r rs = rs ++ r ∷ []
handled_after (some held) r rs = rs

-- A key stays done or becomes done, and one whose handler raised is free again.
abbrev pub state_after : Option ClaimState → Option Error → Option ClaimState
state_after none none = some ClaimState.done
state_after none (some e) = none
state_after (some held) outcome = some held

module _ (self : Deduplicator) (k : String) (s : Memory) where
  unfoldable pub claimed_store : Memory
  claimed_store = (claim self.group k ClaimState.in_progress self.lease false s).1

  unfoldable pub store_after : Option ClaimState → Option Error → Memory
  unfolding claimed_store
  store_after none none = (confirm self.group k self.ttl claimed_store).1
  store_after none (some e) = (release self.group k claimed_store).1
  store_after (some held) outcome = claimed_store

module _ (self : Deduplicator) (r : Record) (k : String) (w : World Memory)
    (confirms : chosen_mode false self.mode ≡ claim_confirm) (keyed : self.key r ≡ ok k)
    (suppresses : self.replay_policy ≡ suppress) where
  pub claimed_as_view : Option ClaimState → Claim
  claimed_as_view v = record {
    result = answer v;
    lease_expired = lapsed w.store.now (lookup (self.group, k) w.store.rows);
  }

  claim_by_view :
      (v : Option ClaimState)
      → view w.store (self.group, k) ≡ v
      → claim self.group k ClaimState.in_progress self.lease false w.store
        ≡ (ok (claimed_as_view v), claimed_store self k w.store)
  unfolding claimed_store claimed_as_view
  claim_by_view v e =
      rw (← e) (claim-eq self.group k w.store ClaimState.in_progress self.lease false)

  pub events_after : Option ClaimState → List Event
  events_after v = reported memory_store self (claimed_as_view v) w.events

  -- The world that `consume` leaves.
  unfoldable pub world_after : Option ClaimState → Option Error → World Memory
  world_after v outcome = record {
    store = store_after self k w.store v outcome;
    events = events_after v;
    handled = handled_after v r w.handled;
  }

  block_by_view :
      (v : Option ClaimState) (outcome : Option Error)
      → block memory_store self r outcome
          (frame_of memory_store self claim_confirm self.group k
            (some (claimed_as_view v).result)
            (record { result = some (claimed_as_view v).result; reason = "" }))
          (record w { store = claimed_store self k w.store; events = events_after v })
        ≡ (reply v outcome, world_after v outcome)
  unfolding world_after store_after block frame_of claimed_as_view finish safely confirm release
  block_by_view none none = refl
  block_by_view none (some x) = refl
  block_by_view (some ClaimState.done) outcome = refl
  block_by_view (some ClaimState.in_progress) outcome = refl

  pub consume_by_view :
      (v : Option ClaimState) (outcome : Option Error)
      → view w.store (self.group, k) ≡ v
      → consume memory_store self r false outcome w ≡ (reply v outcome, world_after v outcome)
  unfolding events_after
  consume_by_view v outcome e =
      consume-block memory_store self r k w confirms keyed suppresses (claim_by_view v e) outcome
      ∙ block_by_view v outcome

  pub view-store_after :
      (v : Option ClaimState) (outcome : Option Error) (j : Key)
      → 0 < self.lease
      → 0 < self.ttl
      → view w.store (self.group, k) ≡ v
      → view (store_after self k w.store v outcome) j
        ≡ (if (self.group, k) == j then state_after v outcome else view w.store j)
  unfolding store_after claimed_store
  view-store_after none none j h l e = ground (
    arith,
    view-claim self.group k w.store ClaimState.in_progress self.lease false j h,
    view-confirm self.group k (unfold claimed_store in claimed_store self k w.store) self.ttl j l,
  )
  view-store_after none (some x) j h l e = ground (
    arith,
    view-claim self.group k w.store ClaimState.in_progress self.lease false j h,
    view-claim self.group k w.store ClaimState.in_progress self.lease false (self.group, k) h,
    view-release self.group k (claimed_store self k w.store) j,
    equals_refl k,
    equals_refl self.group,
  )
  view-store_after (some held) outcome j h l e = ground (
    arith,
    view-claim self.group k w.store ClaimState.in_progress self.lease false j h,
    pair_equals_iff (self.group, k) j,
  )

-- The constructor accepts positive durations only.
init_bad :
    (self : Deduplicator)
    → (leb self.ttl 0 || leb self.lease 0) ≡ true
    → init memory_store self ≡ err configuration
unfolding init
init_bad self h = elim (Bool-cases (self.group == "")) [
  | inl empty ↦ rw empty
  | inr named ↦ rw (named, h)
]

pub init_positive :
    (self : Deduplicator) → init memory_store self ≡ ok self → (0 < self.lease) × (0 < self.ttl)
init_positive self made = elim (Bool-cases (leb self.ttl 0 || leb self.lease 0)) [
  | inl bad ↦ absurd (cc (init_bad self bad))
  | inr good ↦ (ground arith, ground arith)
]

-- Claim-then-confirm over the in-memory store, with replays suppressed, a constructor that accepted
-- its arguments and a record whose key can be computed. The handler runs exactly if the key has no live state; a duplicate of a done record is passed over
-- and its offset may be committed, that of one in progress may not; an exception of the handler
-- comes out unchanged and frees the key; a normal end marks it done; no other key is touched.
pub consume_outcome :
    (self : Deduplicator) (r : Record) (k : String) (outcome : Option Error) (w : World Memory)
    → init memory_store self ≡ ok self
    → chosen_mode false self.mode ≡ claim_confirm
    → self.replay_policy ≡ suppress
    → self.key r ≡ ok k
    → let (x, w') = consume memory_store self r false outcome w in
      let v = view w.store (self.group, k) in
      (x ≡ reply v outcome)
      × (w'.handled ≡ handled_after v r w.handled)
      × ((j : Key)
          → view w'.store j
            ≡ (if (self.group, k) == j then state_after v outcome else view w.store j))
unfolding world_after
consume_outcome self r k outcome w made confirms suppresses keyed =
    let (lease, ttl) = init_positive self made in
    rw (consume_by_view self r k w confirms keyed suppresses _ outcome refl) (
      refl,
      refl,
      λ j. view-store_after self r k w confirms keyed suppresses _ outcome j lease ttl refl,
    )
