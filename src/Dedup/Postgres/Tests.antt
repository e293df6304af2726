-- ===== src/Dedup/Postgres/Tests.antt =====
-- The theorems on the Postgres store at concrete inputs.
use kafka_reliability.Base.{String, ◌≡◌, false, [], ◌∷◌, string_eq, pair_eq}
use kafka_reliability.Base.Dict.{erase}
use kafka_reliability.Dedup.Store.{ClaimState}
use kafka_reliability.Dedup.Memory as Memory
use kafka_reliability.Dedup.Memory.{Memory}
use kafka_reliability.Dedup.Connection.{Remote, served, lost_after}
use kafka_reliability.Dedup.Postgres.{claim}
use kafka_reliability.Dedup.Postgres.Contention.{Settles, claim-Settles}
use kafka_reliability.Dedup.Postgres.Quiet.{quiet, quietly, claim-quiet}

abbrev k : String × String
k = ("g", "a")

-- A row of another worker, whose lease runs out while a claim of its key goes on.
abbrev held : Memory
held = record {
  now = 5;
  rows = (k, record { state = ClaimState.in_progress; expires_at = 7 }) ∷ [];
}

-- The row is gone by the second statement and back by the third.
abbrev busy : Remote Memory
busy = record {
  state = held;
  turns =
      record { others = λ s. s; fate = served }
      ∷ record { others = λ s. record s { rows = erase k s.rows }; fate = served }
      ∷ record { others = λ s. record s { now = 20 }; fate = served }
      ∷ record { others = λ s. s; fate = lost_after }
      ∷ [];
}

claim-Settles_example :
    Settles k ClaimState.in_progress 10 (claim "g" "a" ClaimState.in_progress 10 busy)
claim-Settles_example = claim-Settles "g" "a" ClaimState.in_progress 10 busy

claim-quiet_example :
    claim "g" "a" ClaimState.done 10 (quiet (record held { now = 9 }))
    ≡ quietly (Memory.claim "g" "a" ClaimState.done 10 false (record held { now = 9 }))
claim-quiet_example = claim-quiet "g" "a" (record held { now = 9 }) ClaimState.done 10 false
