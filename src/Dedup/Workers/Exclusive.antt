-- ===== src/Dedup/Workers/Exclusive.antt =====
-- At most one worker has a live lease on a key, as long as no worker outstays its own.
use kafka_reliability.Base.{
  ℕ, ◌+◌, ◌<◌, lt→ltb, ◌≡◌, ◌∙◌, false, Bool-cases, Option-cases, inl, inr, none, some, arith, ◌==◌,
  nat_eq, string_eq, pair_eq, pair_equals_iff,
}
use kafka_reliability.Base.Dict.{lookup}
use kafka_reliability.Base.Effect.{ok}
use kafka_reliability.Dedup.Store.{ClaimState}
use kafka_reliability.Dedup.Memory.{Key, Memory, claim, confirm, release}
use kafka_reliability.Dedup.Memory.View.{
  view, answer, lapsed, claim-answer, claim-held, lookup-claim_self, lookup-claim_ne,
  lookup-confirm_ne, lookup-release_ne, now-claim, now-confirm, now-release,
}
use kafka_reliability.Dedup.Workers.{
  Lease, Fleet, update, Step, granted, claims, confirms, releases, dies, passes, Reach, start,
  after,
}

pub record IsExclusive (f : Fleet) : Type 0 where
  pub recorded :
      (i : ℕ) (l : Lease)
      → f.leases i ≡ some l
      → f.store.now < l.until
      → lookup l.key f.store.rows
        ≡ some (record { state = ClaimState.in_progress; expires_at = l.until })
  pub only :
      (i j : ℕ) (l m : Lease)
      → f.leases i ≡ some l
      → f.leases j ≡ some m
      → f.store.now < l.until
      → f.store.now < m.until
      → l.key ≡ m.key
      → i ≡ j

-- A live lease shows in the view.
live_lease :
    (s : Memory) (k : Key) (until : ℕ)
    → lookup k s.rows ≡ some (record { state = ClaimState.in_progress; expires_at = until })
    → s.now < until
    → view s k ≡ some ClaimState.in_progress
unfolding view
live_lease s k until row live = rw row (ground (arith, lt→ltb s.now until live))

module _ (f : Fleet) (i : ℕ) (k : Key) (lease : ℕ) (positive : 0 < lease) (idle : f.leases i ≡ none)
    (free : view f.store k ≡ none) (v : IsExclusive f) where
  new_lease : Lease
  new_lease = record { key = k; until = f.store.now + lease }

  claimed : Fleet
  unfolding new_lease
  claimed = record {
    store = (claim k.0 k.1 ClaimState.in_progress lease false f.store).1;
    leases = update f.leases i (some new_lease);
  }

  other_lease :
      (j : ℕ) (l : Lease) → f.leases j ≡ some l → f.store.now < l.until → (k == l.key) ≡ false
  other_lease j l e live = ground (
    arith,
    v.recorded j l e live,
    live_lease f.store l.key l.until (v.recorded j l e live) live,
    pair_equals_iff k l.key,
  )

  claims-recorded :
      (j : ℕ) (l : Lease)
      → claimed.leases j ≡ some l
      → f.store.now < l.until
      → lookup l.key claimed.store.rows
        ≡ some (record { state = ClaimState.in_progress; expires_at = l.until })
  unfolding claimed
  claims-recorded j l e live = elim (Bool-cases (i == j)) [
    | inl mine ↦
        ground (arith, lookup-claim_self k.0 k.1 f.store ClaimState.in_progress lease false free)
    | inr theirs ↦
        let old : f.leases j ≡ some l = ground arith in
        lookup-claim_ne k.0 k.1 f.store l.key ClaimState.in_progress lease false
          (other_lease j l old live)
        ∙ v.recorded j l old live
  ]

  claims-only :
      (j m : ℕ) (l n : Lease)
      → claimed.leases j ≡ some l
      → claimed.leases m ≡ some n
      → f.store.now < l.until
      → f.store.now < n.until
      → l.key ≡ n.key
      → j ≡ m
  unfolding claimed
  claims-only j m l n e d x y z = ground (
    arith,
    v.only j m l n,
    other_lease j l,
    other_lease m n,
    pair_equals_iff k l.key,
    pair_equals_iff k n.key,
  )

  claims-IsExclusive : IsExclusive claimed
  claims-IsExclusive = record {
    recorded = λ j l e live. claims-recorded j l e (rw (← same) live);
    only = λ j m l n e d x y z. claims-only j m l n e d (rw (← same) x) (rw (← same) y) z;
  }
    where
      same : claimed.store.now ≡ f.store.now
      same = unfold claimed in now-claim k.0 k.1 f.store ClaimState.in_progress lease false

-- A worker that ends within its lease. What it does to the store it does to its own key.
module _ (f : Fleet) (i : ℕ) (l : Lease) (s : Memory) (mine : f.leases i ≡ some l)
    (live : f.store.now < l.until) (now : s.now ≡ f.store.now)
    (kept : (k : Key) → (l.key == k) ≡ false → lookup k s.rows ≡ lookup k f.store.rows)
    (v : IsExclusive f) where
  ended : Fleet
  ended = record { store = s; leases = update f.leases i none }

  ended-recorded :
      (j : ℕ) (m : Lease)
      → update f.leases i none j ≡ some m
      → f.store.now < m.until
      → lookup m.key s.rows ≡ some (record { state = ClaimState.in_progress; expires_at = m.until })
  ended-recorded j m e later =
      ground (arith, kept m.key, v.recorded j m, v.only i j l m mine, pair_equals_iff l.key m.key)

  ended-IsExclusive : IsExclusive ended
  unfolding ended
  ended-IsExclusive = record {
    recorded = λ j m e later. ended-recorded j m e (rw (← now) later);
    only = λ j k m n e d x y z. ground (arith, v.only j k m n);
  }

-- A worker that drops its lease, or that goes on without one.
without-IsExclusive :
    (f : Fleet) (i : ℕ) → IsExclusive f → IsExclusive (record f { leases = update f.leases i none })
without-IsExclusive f i v = record {
  recorded = λ j l e live. ground (arith, v.recorded j l);
  only = λ j k l m e d x y z. ground (arith, v.only j k l m);
}

-- What follows a claim, by the state of its key: the worker has the lease that the answer grants.
asked-IsExclusive :
    (f : Fleet) (i : ℕ) (k : Key) (lease : ℕ)
    → 0 < lease
    → f.leases i ≡ none
    → IsExclusive f
    → IsExclusive (record {
      store = (claim k.0 k.1 ClaimState.in_progress lease false f.store).1;
      leases = update f.leases i (
          granted
            (record { key = k; until = f.store.now + lease })
            (claim k.0 k.1 ClaimState.in_progress lease false f.store).0);
    })
asked-IsExclusive f i k lease positive idle v = elim (Option-cases (view f.store k)) [
  | inl free ↦
      rw (claim-answer k.0 k.1 f.store ClaimState.in_progress lease false, free)
        (unfold claimed new_lease in claims-IsExclusive f i k lease positive idle free v)
  | inr (held, e) ↦
      rw
        (
          claim-answer k.0 k.1 f.store ClaimState.in_progress lease false,
          claim-held k.0 k.1 f.store ClaimState.in_progress lease false held e,
          e,
        )
        (ungranted held)
]
  where
    ungranted :
        (held : ClaimState)
        → IsExclusive (record f {
          leases = update f.leases i (
              granted
                (record { key = k; until = f.store.now + lease })
                (ok (record {
                  result = answer (some held);
                  lease_expired = lapsed f.store.now (lookup k f.store.rows);
                })));
        })
    ungranted ClaimState.in_progress = without-IsExclusive f i v
    ungranted ClaimState.done = without-IsExclusive f i v

-- Every step, a refused claim, a crash or a pause too, keeps the leases exclusive.
Step-IsExclusive : {f g : Fleet} → Step f g → IsExclusive f → IsExclusive g
Step-IsExclusive (claims f i k lease positive idle) v =
    asked-IsExclusive f i k lease positive idle v
Step-IsExclusive (confirms f i l ttl mine live) v =
    unfold ended in
    ended-IsExclusive f i l (confirm l.key.0 l.key.1 ttl f.store).1 mine live
      (now-confirm l.key.0 l.key.1 f.store ttl)
      (λ k apart. lookup-confirm_ne l.key.0 l.key.1 f.store k ttl apart) v
Step-IsExclusive (releases f i l mine live) v =
    unfold ended in
    ended-IsExclusive f i l (release l.key.0 l.key.1 f.store).1 mine live
      (now-release l.key.0 l.key.1 f.store)
      (λ k apart. lookup-release_ne l.key.0 l.key.1 f.store k apart) v
Step-IsExclusive (dies f i) v = without-IsExclusive f i v
Step-IsExclusive (passes f delay) v = record {
  recorded = λ j l e live. v.recorded j l e (omega arith);
  only = λ j k l m e d x y z. v.only j k l m e d (omega arith) (omega arith) z;
}

Reach-IsExclusive : {f g : Fleet} → IsExclusive f → Reach f g → IsExclusive g
Reach-IsExclusive held start = held
Reach-IsExclusive held (after steps last) = Step-IsExclusive last (Reach-IsExclusive held steps)

abbrev pub idle_fleet : Memory → Fleet
idle_fleet s = record { store = s; leases = λ i. none }

-- From any store and no worker in a block, however claims by idle workers, granted or not by the store's answer, ends within the lease, crashes and pauses
-- interleave: a live lease is in the store as it was taken, and no two workers hold live leases on
-- one key.
pub idle_fleet-IsExclusive : (s : Memory) (f : Fleet) → Reach (idle_fleet s) f → IsExclusive f
idle_fleet-IsExclusive s f r =
    Reach-IsExclusive
      (record { recorded = λ i l e live. absurd (cc); only = λ i j l m e d x y z. absurd (cc) }) r
