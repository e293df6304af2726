-- ===== src/Dedup/Workers/Late.antt =====
-- A worker that ends after its lease: `release` and `confirm` name a key and no claim.
use kafka_reliability.Base.{
  ℕ, ◌+◌, ◌≤◌, ◌<◌, String, ◌≡◌, ap, true, false, none, some, arith, string_eq, pair_eq,
}
use kafka_reliability.Base.Dict.{lookup}
use kafka_reliability.Base.Effect.{ok}
use kafka_reliability.Dedup.Store.{ClaimState, ClaimResult}
use kafka_reliability.Dedup.Memory.{Memory, claim, release}
use kafka_reliability.Dedup.Memory.View.{
  view, lapsed, claim-answer, lookup-claim_self, lookup-release_self, now-claim,
}

module _ (group key : String) (lease delay : ℕ) (s : Memory) where
  abbrev pub take_over : Memory → Memory
  take_over m = (claim group key ClaimState.in_progress lease false m).1

  abbrev pub paused : Memory
  paused = let m = take_over s in record m { now = m.now + delay }

  abbrev pub released : Memory
  released = (release group key (take_over paused)).1

  module _ (positive : 0 < lease) (free : view s (group, key) ≡ none) (late : lease ≤ delay) where
    paused_row :
        lookup (group, key) paused.rows
        ≡ some (record { state = ClaimState.in_progress; expires_at = s.now + lease })
    paused_row = lookup-claim_self group key s ClaimState.in_progress lease false free

    paused_now : paused.now ≡ s.now + delay
    paused_now = ap (λ n. n + delay) (now-claim group key s ClaimState.in_progress lease false)

    paused_free : view paused (group, key) ≡ none
    unfolding view
    paused_free = ground (arith, paused_row, paused_now)

    paused_lapsed : lapsed paused.now (lookup (group, key) paused.rows) ≡ true
    paused_lapsed = ground (arith, paused_row, paused_now)

    taken_row :
        lookup (group, key) (take_over paused).rows
        ≡ some (record { state = ClaimState.in_progress; expires_at = paused.now + lease })
    taken_row = lookup-claim_self group key paused ClaimState.in_progress lease false paused_free

    taken_held : view (take_over paused) (group, key) ≡ some ClaimState.in_progress
    unfolding view
    taken_held =
        ground (arith, taken_row, now-claim group key paused ClaimState.in_progress lease false)

    -- A first worker claims a free key and outstays its lease; a second takes the key over, which is
    -- reported, and holds a live lease. Then the first one's handler raises, and the release of its
    -- claim drops the second one's: a third claim is granted while the second worker still works,
    -- and it is not reported as the takeover of a lease.
    pub late_release :
        ((claim group key ClaimState.in_progress lease false paused).0
          ≡ ok (record { result = ClaimResult.claimed; lease_expired = true }))
        × (view (take_over paused) (group, key) ≡ some ClaimState.in_progress)
        × ((claim group key ClaimState.in_progress lease false released).0
            ≡ ok (record { result = ClaimResult.claimed; lease_expired = false }))
    unfolding view
    late_release =
        let gone = lookup-release_self group key (take_over paused) taken_held in
        (
          ground (
            arith,
            claim-answer group key paused ClaimState.in_progress lease false,
            paused_free,
            paused_lapsed,
          ),
          taken_held,
          rw (claim-answer group key released ClaimState.in_progress lease false, gone),
        )
