-- ===== src/Dedup/Workers.antt =====
-- Workers that share one in-memory store in claim-then-confirm mode, as interleaved steps. A worker
-- is in the block of a record between its claim and its `confirm` or `release`
-- (dedup/deduplicator.py), and may die in it. Time passes between steps.
pub mod Exclusive
pub mod Late
mod Tests
use kafka_reliability.Base.{
  ℕ, ◌+◌, ◌≤◌, ◌<◌, ltb, lt→ltb, String, ◌≡◌, refl, ap, sym, ◌∙◌, Bool, true, false, Bool-cases,
  inl, inr, Option, none, some, List, [], ◌∷◌, arith, if◌then◌else◌, ◌==◌, nat_eq, string_eq,
  pair_eq, pair_equals_iff, nat_beq_iff,
}
use kafka_reliability.Base.Dict.{lookup}
use kafka_reliability.Base.Effect.{Result, ok, err}
use kafka_reliability.Core.Error.{Error}
use kafka_reliability.Dedup.Store.{ClaimState, ClaimResult, Claim}
use kafka_reliability.Dedup.Memory.{Key, Row, Memory, claim, confirm, release}
use kafka_reliability.Dedup.Memory.View.{
  view, claim-answer, claim-held, lookup-claim_self, lookup-claim_ne, lookup-confirm_ne,
  lookup-release_ne, now-claim, now-confirm, now-release,
}

-- What a worker is working on, and when its lease ends.
pub record Lease : Type 0 where
  pub key : Key
  pub until : ℕ

pub record Fleet : Type 0 where
  pub store : Memory
  pub leases : ℕ → Option Lease

abbrev pub update : (ℕ → Option Lease) → ℕ → Option Lease → ℕ → Option Lease
update leases i l j = if i == j then l else leases j

-- A worker whose claim was answered CLAIMED works under a lease, and any other goes on without one.
abbrev pub lease_if : Lease → ClaimResult → Option Lease
lease_if l ClaimResult.claimed = some l
lease_if l ClaimResult.already_done = none
lease_if l ClaimResult.in_progress = none

abbrev pub granted : Lease → Result Error Claim → Option Lease
granted l (ok c) = lease_if l c.result
granted l (err e) = none

-- Each step of worker `i`. Any idle worker claims any key at any time, and what it does next is read
-- off the store's answer. `confirms` and `releases` are taken before the lease of `i` ends.
pub data Step : Fleet → Fleet → Type 0 where
  claims :
      (f : Fleet) (i : ℕ) (k : Key) (lease : ℕ)
      → 0 < lease
      → f.leases i ≡ none
      → Step f (record {
        store = (claim k.0 k.1 ClaimState.in_progress lease false f.store).1;
        leases = update f.leases i (
            granted
              (record { key = k; until = f.store.now + lease })
              (claim k.0 k.1 ClaimState.in_progress lease false f.store).0);
      })
  confirms :
      (f : Fleet) (i : ℕ) (l : Lease) (ttl : ℕ)
      → f.leases i ≡ some l
      → f.store.now < l.until
      → Step f (record {
        store = (confirm l.key.0 l.key.1 ttl f.store).1;
        leases = update f.leases i none;
      })
  releases :
      (f : Fleet) (i : ℕ) (l : Lease)
      → f.leases i ≡ some l
      → f.store.now < l.until
      → Step f
          (record { store = (release l.key.0 l.key.1 f.store).1; leases = update f.leases i none })
  dies : (f : Fleet) (i : ℕ) → Step f (record f { leases = update f.leases i none })
  passes :
      (f : Fleet) (delay : ℕ)
      → Step f (record f { store = record f.store { now = f.store.now + delay } })

pub data Reach (f : Fleet) : Fleet → Type 0 where
  start : Reach f f
  after : {g h : Fleet} → Reach f g → Step g h → Reach f h
