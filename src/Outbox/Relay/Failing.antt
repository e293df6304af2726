-- ===== src/Outbox/Relay/Failing.antt =====
-- `run` of outbox/relay.py while pass after pass fails.
use kafka_reliability.Base.{
  ℕ, zero, suc, ◌+◌, String, ◌≤◌, ◌<◌, ◌≡◌, refl, ◌∙◌, ap, true, arith, ltb, Bool-cases, inl, inr,
  leb, List, [], ◌∷◌, if◌then◌else◌,
}
use kafka_reliability.Base.Effect.{ok, err}
use kafka_reliability.Core.Error.{overflow}
use kafka_reliability.Producers.{Producer}
use kafka_reliability.Outbox.Config.{RelayConfig, backoff}
use kafka_reliability.Outbox.Config.Accepted.{delay, backoff-delay, backoff-overflows}
use kafka_reliability.Outbox.Relay.{
  RelayBatchResult, RelayStore, World, next_delay, run, run_loop, run_once, with_count,
  closed_after,
}

-- The delays of so many passes after `failing` failing ones: doubled each time, up to the bound.
unfoldable pub delays_from : RelayConfig → ℕ → ℕ → List ℕ
delays_from self zero failing = []
delays_from self (suc passes) failing =
    delay self (failing + 1) ∷ delays_from self passes (failing + 1)

module _ {D P : Type 0} (st : RelayStore D) (producer : Producer P) (self : RelayConfig)
    (crc32 : String → ℕ) where
  -- A pass of a leader with a row to retry, or given up, that ends in `w'`.
  abbrev pub Fails : World D P → World D P → Type 0
  Fails w w' =
      (result : RelayBatchResult) × (run_once st producer self crc32 w ≡ (ok result, w'))
      × (result.leader ≡ true)
      × (0 < result.retried + result.failed)

  next_delay-failing :
      (result : RelayBatchResult) (failing : ℕ)
      → result.leader ≡ true
      → 0 < result.retried + result.failed
      → next_delay st producer self crc32 result failing
        ≡ with_count (failing + 1) (backoff self (failing + 1))
  unfolding next_delay
  next_delay-failing result failing leads some_rows = ground (arith, leads)

  module _ (worlds : ℕ → World D P)
      (fails : (n : ℕ) → n ≤ 1024 → Fails (worlds n) (worlds (n + 1))) where
    -- The counter goes up with each of the passes, and none but the last of them overflows.
    run_loop-overflows :
        (passes failing : ℕ)
        → failing ≤ 1024
        → 1025 ≤ passes + failing
        → run_loop st producer self crc32 passes failing (worlds failing)
          ≡ (err overflow, worlds 1025)
    unfolding run_loop
    run_loop-overflows zero failing few enough = absurd (omega (arith, few, enough))
    run_loop-overflows (suc passes) failing few enough =
        let (result, pass, leads, some_rows) = fails failing few in
        rw (pass, next_delay-failing result failing leads some_rows)
          (elim (Bool-cases (ltb failing 1024)) [
            | inl earlier ↦
                rw
                  (
                    backoff-delay self (failing + 1) (ground arith) (omega arith),
                    run_loop-overflows passes (failing + 1) (ground arith) (omega (arith, enough)),
                  )
                  refl
            | inr last ↦
                let count : failing + 1 ≡ 1025 = ground arith in
                rw (backoff-overflows self (failing + 1) (omega (arith, count)))
                  (ap (λ n. (err overflow, worlds n)) count)
          ])

    -- Up to there the passes sleep the delays of the backoff.
    run_loop-delays :
        (passes failing : ℕ)
        → passes + failing ≤ 1024
        → run_loop st producer self crc32 passes failing (worlds failing)
          ≡ (ok (delays_from self passes failing), worlds (passes + failing))
    unfolding run_loop delays_from
    run_loop-delays zero failing few = ap (λ n. (ok [], worlds n)) (omega arith)
    run_loop-delays (suc passes) failing few =
        let (result, pass, leads, some_rows) = fails failing (omega (arith, few)) in
        rw
          (
            pass,
            next_delay-failing result failing leads some_rows,
            backoff-delay self (failing + 1) (omega (arith, few)) (omega arith),
            run_loop-delays passes (failing + 1) (omega (arith, few)),
          )
          (ap
            (λ n. (ok (delay self (failing + 1) ∷ delays_from self passes (failing + 1)), worlds n))
            (omega arith))

    -- When each of the first 1025 passes of a leader fails with a row to retry or given up: a run that is
    -- stopped after up to 1024 passes has slept the growing delays of the backoff, one after each pass,
    -- and a run that is not ends with OverflowError in the 1025th, whatever bound the delays were given.
    -- Both release the leadership on their way out.
    pub run-overflows :
        (passes : ℕ)
        → run st producer self crc32 passes (worlds 0)
          ≡ closed_after st producer self crc32 (
              if leb passes 1024
              then (ok (delays_from self passes 0), worlds passes)
              else (err overflow, worlds 1025))
    unfolding run
    run-overflows passes = elim (Bool-cases (leb passes 1024)) [
      | inl few ↦ rw few (
          ap (closed_after st producer self crc32) (
            run_loop-delays passes 0 (ground (arith, few))
            ∙ ap (λ n. (ok (delays_from self passes 0), worlds n)) (omega arith)))
      | inr many ↦ rw many (
          ap (closed_after st producer self crc32)
            (run_loop-overflows passes 0 (omega arith) (ground (arith, many))))
    ]
