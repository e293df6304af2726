-- ===== src/Dedup/Deduplicator/Once.antt =====
-- Redelivery: a sequence of records through one deduplicator, while the clock moves on.
use kafka_reliability.Base.{
  ℕ, ◌+◌, ◌<◌, ◌&&◌, lt→ltb, String, ◌≡◌, refl, ap, ◌∙◌, Bool, true, false, Option, none, some,
  List, [], ◌∷◌, ◌++◌, keep, keep-concat_false, keep-concat_true, arith, ◌==◌, string_eq, pair_eq,
  equals_refl,
}
use kafka_reliability.Base.Dict.{lookup}
use kafka_reliability.Base.Effect.{Result, ok, err}
use kafka_reliability.Core.Error.{Error}
use kafka_reliability.Core.Message.{Record}
use kafka_reliability.Dedup.Store.{ClaimState}
use kafka_reliability.Dedup.Memory.{Memory, memory_store}
use kafka_reliability.Dedup.Memory.View.{
  view, claim-held, lookup-claim_ne, lookup-confirm_ne, lookup-confirm_self, lookup-release_ne,
  now-claim, now-confirm, now-release,
}
use kafka_reliability.Dedup.Deduplicator.{
  Deduplicator, World, claim_confirm, suppress, consume, chosen_mode, init, enter,
}
use kafka_reliability.Dedup.Deduplicator.Enter.{resolve_confirm}
use kafka_reliability.Dedup.Deduplicator.Outcomes.{
  handled_after, claimed_store, store_after, world_after, consume_by_view, init_positive,
  view-store_after,
}

-- One delivery: the time since the one before, the record, and how its handler would end.
pub record Delivery : Type 0 where
  pub delay : ℕ
  pub message : Record
  pub outcome : Option Error

abbrev pub wait : ℕ → World Memory → World Memory
wait delay w = record w { store = record w.store { now = w.store.now + delay } }

-- The consumer's loop, which goes on after an exception.
unfoldable pub deliver : Deduplicator → List Delivery → World Memory → World Memory
deliver self [] w = w
deliver self (d ∷ ds) w =
    deliver self ds (consume memory_store self d.message false d.outcome (wait d.delay w)).1

abbrev pub total_delay : List Delivery → ℕ
total_delay [] = 0
total_delay (d ∷ ds) = d.delay + total_delay ds

abbrev pub has_key : String → Result Error String → Bool
has_key k (ok j) = k == j
has_key k (err e) = false

-- The records of a key whose handler has run.
abbrev pub handled_for : Deduplicator → String → World Memory → List Record
handled_for self k w = keep (λ r. has_key k (self.key r)) w.handled

module _ (self : Deduplicator) (confirms : chosen_mode false self.mode ≡ claim_confirm) where
  key_error :
      (r : Record) (e : Error) (outcome : Option Error) (w : World Memory)
      → self.key r ≡ err e
      → consume memory_store self r false outcome w ≡ (err e, w)
  unfolding consume enter
  key_error r e outcome w h = rw (resolve_confirm memory_store self confirms, h)

module _ (self : Deduplicator) (k : String) (until : ℕ) (s : Memory)
    (row : lookup (self.group, k) s.rows
      ≡ some (record { state = ClaimState.done; expires_at = until }))
    (live : s.now < until) where
  view_done : view s (self.group, k) ≡ some ClaimState.done
  unfolding view
  view_done = rw row (ground (arith, lt→ltb s.now until live))

  other_key :
      (j : String) → view s (self.group, j) ≡ none → (self.group == self.group && j == k) ≡ false
  other_key j e = ground (arith, view_done, equals_refl self.group, string_eq.equals_iff j k)

  -- Whatever comes, the row stays.
  lookup-store_after :
      (j : String) (v : Option ClaimState) (outcome : Option Error)
      → view s (self.group, j) ≡ v
      → lookup (self.group, k) (store_after self j s v outcome).rows ≡ lookup (self.group, k) s.rows
  unfolding store_after claimed_store
  lookup-store_after j none none e =
      let apart = other_key j e in
      lookup-confirm_ne self.group j _ (self.group, k) self.ttl apart
      ∙ lookup-claim_ne self.group j s (self.group, k) ClaimState.in_progress self.lease false apart
  lookup-store_after j none (some x) e =
      let apart = other_key j e in
      lookup-release_ne self.group j _ (self.group, k) apart
      ∙ lookup-claim_ne self.group j s (self.group, k) ClaimState.in_progress self.lease false apart
  lookup-store_after j (some held) outcome e =
      ap (λ (m : Memory). lookup (self.group, k) m.rows)
        (claim-held self.group j s ClaimState.in_progress self.lease false held e)

  -- A handler that runs is another key's.
  handled_for-after :
      (j : String) (v : Option ClaimState) (r : Record) (rs : List Record)
      → self.key r ≡ ok j
      → view s (self.group, j) ≡ v
      → keep (λ x. has_key k (self.key x)) (handled_after v r rs)
        ≡ keep (λ x. has_key k (self.key x)) rs
  handled_for-after j none r rs keyed e =
      keep-concat_false (λ x. has_key k (self.key x)) rs r
        (ap (has_key k) keyed
          ∙ ground (
            arith,
            other_key j e,
            equals_refl self.group,
            string_eq.equals_iff j k,
            string_eq.equals_iff k j,
          ))
  handled_for-after j (some held) r rs keyed e = refl

now-store_after :
    (self : Deduplicator) (k : String) (s : Memory) (v : Option ClaimState) (outcome : Option Error)
    → (store_after self k s v outcome).now ≡ s.now
unfolding store_after claimed_store
now-store_after self k s none none =
    now-confirm self.group k _ self.ttl
    ∙ now-claim self.group k s ClaimState.in_progress self.lease false
now-store_after self k s none (some x) =
    now-release self.group k _ ∙ now-claim self.group k s ClaimState.in_progress self.lease false
now-store_after self k s (some held) outcome =
    now-claim self.group k s ClaimState.in_progress self.lease false

-- What one more delivery leaves.
record Passes (self : Deduplicator) (k : String) (w w' : World Memory) : Type 0 where
  row : lookup (self.group, k) w'.store.rows ≡ lookup (self.group, k) w.store.rows
  now : w'.store.now ≡ w.store.now
  same : handled_for self k w' ≡ handled_for self k w

module _ (self : Deduplicator) (k : String) (until : ℕ)
    (confirms : chosen_mode false self.mode ≡ claim_confirm)
    (suppresses : self.replay_policy ≡ suppress) where
  consume-Passes :
      (r : Record) (outcome : Option Error) (w : World Memory) (q : Result Error String)
      → self.key r ≡ q
      → lookup (self.group, k) w.store.rows
        ≡ some (record { state = ClaimState.done; expires_at = until })
      → w.store.now < until
      → Passes self k w (consume memory_store self r false outcome w).1
  unfolding world_after
  consume-Passes r outcome w (err x) keyed row live =
      rw (key_error self confirms r x outcome w keyed)
        (record { row = refl; now = refl; same = refl })
  consume-Passes r outcome w (ok j) keyed row live =
      let v : Option ClaimState = view w.store (self.group, j) in
      rw (consume_by_view self r j w confirms keyed suppresses v outcome refl) (record {
        row = lookup-store_after self k until w.store row live j v outcome refl;
        now = now-store_after self j w.store v outcome;
        same = handled_for-after self k until w.store row live j v r w.handled keyed refl;
      })

  deliver_done :
      (ds : List Delivery) (w : World Memory)
      → lookup (self.group, k) w.store.rows
        ≡ some (record { state = ClaimState.done; expires_at = until })
      → w.store.now + total_delay ds < until
      → handled_for self k (deliver self ds w) ≡ handled_for self k w
  unfolding deliver
  deliver_done [] w row live = refl
  deliver_done (d ∷ ds) w row live =
      let p =
        consume-Passes d.message d.outcome (wait d.delay w) (self.key d.message) refl row
          (omega arith) in
      deliver_done ds (consume memory_store self d.message false d.outcome (wait d.delay w)).1
        (p.row ∙ row) (omega (arith, p.now))
      ∙ p.same

-- Effectively once, with a deduplicator whose constructor accepted its arguments, in
-- claim-then-confirm mode with replays suppressed, over the in-memory store: after a delivery whose
-- key had no live state and whose handler ended normally, the handler has run once for that key,
-- however many more records of any keys come within the ttl and however their handlers end.
pub effectively_once :
    (self : Deduplicator) (k : String) (delay : ℕ) (r : Record) (ds : List Delivery)
    (w : World Memory)
    → init memory_store self ≡ ok self
    → chosen_mode false self.mode ≡ claim_confirm
    → self.replay_policy ≡ suppress
    → self.key r ≡ ok k
    → view (wait delay w).store (self.group, k) ≡ none
    → total_delay ds < self.ttl
    → handled_for self k
        (deliver self (record { delay = delay; message = r; outcome = none } ∷ ds) w)
      ≡ handled_for self k w ++ r ∷ []
unfolding deliver world_after store_after
effectively_once self k delay r ds w made confirms suppresses keyed free short =
    let w' = wait delay w in
    let s = claimed_store self k w'.store in
    ap (λ (p : Result Error Bool × World Memory). handled_for self k (deliver self ds p.1))
      (consume_by_view self r k w' confirms keyed suppresses none none free)
    ∙ deliver_done self k (s.now + self.ttl) confirms suppresses ds
        (world_after self r k w' confirms keyed suppresses none none)
        (lookup-confirm_self self.group k s self.ttl)
        (omega (arith, now-confirm self.group k s self.ttl))
    ∙ keep-concat_true (λ x. has_key k (self.key x)) w.handled r
        (ap (has_key k) keyed ∙ equals_refl k)

-- With an accepted deduplicator in claim-then-confirm mode, replays suppressed, over the in-memory
-- store: when the handler of a record whose key has no live state raises, the exception comes out,
-- and the next delivery of the record runs the handler again and may be committed.
pub retry_after_error :
    (self : Deduplicator) (k : String) (r : Record) (e : Error) (w : World Memory)
    → init memory_store self ≡ ok self
    → chosen_mode false self.mode ≡ claim_confirm
    → self.replay_policy ≡ suppress
    → self.key r ≡ ok k
    → view w.store (self.group, k) ≡ none
    → let (x, w') = consume memory_store self r false (some e) w in
      let (y, w'') = consume memory_store self r false none w' in
      (x ≡ err e) × (y ≡ ok true) × (w''.handled ≡ (w.handled ++ r ∷ []) ++ r ∷ [])
unfolding world_after
retry_after_error self k r e w made confirms suppresses keyed free =
    let first = consume_by_view self r k w confirms keyed suppresses none (some e) free in
    let w' = world_after self r k w confirms keyed suppresses none (some e) in
    let (lease, ttl) = init_positive self made in
    let seen =
      view-store_after self r k w confirms keyed suppresses none (some e) (self.group, k) lease ttl
        free in
    let freed : view w'.store (self.group, k) ≡ none =
      ground (arith, seen, equals_refl self.group, equals_refl k) in
    let again = consume_by_view self r k w' confirms keyed suppresses none none freed in
    rw (first, again) (refl, refl, refl)
