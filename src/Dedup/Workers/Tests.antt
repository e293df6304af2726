-- ===== src/Dedup/Workers/Tests.antt =====
-- Workers that share a store: the theorems at concrete inputs.
use kafka_reliability.Base.{◌+◌, ◌≡◌, refl, true, false, none, some, [], arith}
use kafka_reliability.Base.Dict.{lookup}
use kafka_reliability.Base.Effect.{ok}
use kafka_reliability.Dedup.Store.{ClaimState, ClaimResult}
use kafka_reliability.Dedup.Memory.{Memory, claim}
use kafka_reliability.Dedup.Memory.View.{view}
use kafka_reliability.Dedup.Workers.{Fleet, Reach, start, after, claims, update}
use kafka_reliability.Dedup.Workers.Exclusive.{IsExclusive, idle_fleet-IsExclusive, idle_fleet}
use kafka_reliability.Dedup.Workers.Late.{late_release, paused, released, take_over}

abbrev empty : Memory
empty = record { now = 3; rows = [] }

-- Worker 7 claims a key.
abbrev one_claim : Fleet
one_claim = record {
  store = (claim "g" "k" ClaimState.in_progress 10 false empty).1;
  leases = update (λ i. none) 7 (some (record { key = ("g", "k"); until = 3 + 10 }));
}

claim_reached : Reach (idle_fleet empty) one_claim
unfolding claim lookup
claim_reached = after start (claims (idle_fleet empty) 7 ("g", "k") 10 (ground arith) refl)

idle_fleet-IsExclusive_example : IsExclusive one_claim
idle_fleet-IsExclusive_example = idle_fleet-IsExclusive empty one_claim claim_reached

late_release_example :
    ((claim "g" "k" ClaimState.in_progress 10 false (paused "g" "k" 10 15 empty)).0
      ≡ ok (record { result = ClaimResult.claimed; lease_expired = true }))
    × (view (take_over "g" "k" 10 15 empty (paused "g" "k" 10 15 empty)) ("g", "k")
        ≡ some ClaimState.in_progress)
    × ((claim "g" "k" ClaimState.in_progress 10 false (released "g" "k" 10 15 empty)).0
        ≡ ok (record { result = ClaimResult.claimed; lease_expired = false }))
unfolding view lookup
late_release_example = late_release "g" "k" 10 15 empty (ground arith) refl (ground arith)
