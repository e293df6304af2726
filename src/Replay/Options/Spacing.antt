-- ===== src/Replay/Options/Spacing.antt =====
-- What the rate limiter promises of the times at which its callers go on.
use kafka_reliability.Base.{ℕ, ◌+◌, ◌*◌, ◌≤◌, ◌<◌, ◌≡◌, List, [], ◌∷◌, length, arith}
use kafka_reliability.Replay.Options.{RateLimiter, wait}

-- Calls one after another: the time that the caller spends before each, and how late its sleep ends.
unfoldable pub waits : List (ℕ × ℕ) → RateLimiter → RateLimiter
waits [] self = self
waits ((busy, late) ∷ calls) self = waits calls (wait late (record self { now = self.now + busy }))

wait-spaces :
    (late busy : ℕ) (self : RateLimiter)
    → 0 < self.interval
    → let after = wait late (record self { now = self.now + busy }) in
      (self.next + self.interval ≤ after.next)
      × (after.next ≤ after.now + self.interval)
      × (after.interval ≡ self.interval)
unfolding wait
wait-spaces late busy self positive = ground arith

-- The next call waits an interval from when this one was due, and from now if it was late to come.
wait-ahead :
    (late busy : ℕ) (self : RateLimiter)
    → 0 < self.interval
    → let after = wait late (record self { now = self.now + busy }) in
      (after.now + self.interval ≤ after.next + late)
      × (after.next ≤ after.now + self.interval)
      × (after.interval ≡ self.interval)
unfolding wait
wait-ahead late busy self positive = ground arith

waits-spaces :
    (calls : List (ℕ × ℕ)) (self : RateLimiter)
    → 0 < self.interval
    → self.next ≤ self.now + self.interval
    → (self.next + length calls * self.interval ≤ (waits calls self).next)
      × ((waits calls self).next ≤ (waits calls self).now + self.interval)
unfolding waits wait
waits-spaces [] self positive near = (omega arith, near)
waits-spaces ((busy, late) ∷ calls) self positive near =
    let after = wait late (record self { now = self.now + busy }) in
    let (grown, close, same) = wait-spaces late busy self positive in
    let (more, last) = waits-spaces calls after (rw same positive) (rw same close) in
    let more' = rw same at more in
    let last' = rw same at last in (grind (arith, grown, more'), last')

-- From the end of any call, `n` further calls take at least `n` intervals, less what that call's own sleep was
-- late, whatever the callers do between them, however late other sleeps end and whatever went before.
pub wait_spacing :
    (busy late : ℕ) (calls : List (ℕ × ℕ)) (self : RateLimiter)
    → 0 < self.interval
    → let first = wait late (record self { now = self.now + busy }) in
      first.now + length calls * self.interval ≤ (waits calls first).now + late
wait_spacing busy late calls self positive =
    let first = wait late (record self { now = self.now + busy }) in
    let (ahead, near, same) = wait-ahead late busy self positive in
    let (grown, close) = waits-spaces calls first (rw same positive) (rw same near) in
    let grown' = rw same at grown in
    let close' = rw same at close in grind (arith, ahead, grown', close')
