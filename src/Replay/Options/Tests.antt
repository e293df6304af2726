-- ===== src/Replay/Options/Tests.antt =====
-- A limiter of ten microseconds between two calls, over three of them.
use kafka_reliability.Base.{ℕ, ◌+◌, ◌*◌, ◌≤◌, ◌≡◌, refl, List, [], ◌∷◌, arith}
use kafka_reliability.Replay.Options.{RateLimiter, wait}
use kafka_reliability.Replay.Options.Spacing.{waits, wait_spacing}

abbrev limiter : RateLimiter
limiter = record { interval = 10; next = 100; now = 100 }

abbrev calls : List (ℕ × ℕ)
calls = (3, 1) ∷ (25, 0) ∷ []

waits_test : (waits ((0, 0) ∷ calls) limiter).now ≡ 136
unfolding waits wait
waits_test = refl

-- An idle time in front of the first call does not make up for the calls that follow.
wait_spacing_example :
    (wait 0 (record limiter { now = 100 + 500 })).now + 2 * 10
    ≤ (waits calls (wait 0 (record limiter { now = 100 + 500 }))).now + 0
wait_spacing_example = wait_spacing 500 0 calls limiter (omega arith)
