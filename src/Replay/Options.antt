-- ===== src/Replay/Options.antt =====
-- ReplayOptions and RateLimiter of replay/runner.py. A rate is a number of records per 1000 seconds,
-- and the limiter's interval, a float division in the source, a number of microseconds given to it.
pub mod Spacing
pub mod Limits
mod Tests
use kafka_reliability.Base.{
  ℕ, ◌+◌, max, String, Bool, true, false, Option, none, some, ltb, nat_beq, not, if◌then◌else◌,
  ◌==◌, string_eq,
}
use kafka_reliability.Base.Int.{ℤ, pos, negsuc, int_leb}
use kafka_reliability.Base.Effect.{Result, ok, err}
use kafka_reliability.Core.Error.{Error, configuration}

pub record ReplayOptions : Type 0 where
  pub target_topic : String
  pub rate_per_second : Option ℤ
  pub max_replay_count : ℤ
  pub allow_same_topic : Bool
  pub preserve_key : Bool
  pub commit_source_offsets : Bool
  pub confirm_above : ℤ
  pub assume_yes : Bool

abbrev not_positive : Option ℤ → Bool
not_positive none = false
not_positive (some rate) = int_leb rate (pos 0)

-- __post_init__
unfoldable pub options_init : ReplayOptions → Result Error ReplayOptions
options_init self =
    if self.target_topic == ""
    then err configuration
    else if not_positive self.rate_per_second
    then err configuration
    else if int_leb self.max_replay_count (pos 0)
    then err configuration
    else ok self

-- `next` is the earliest time of the next call, `now` the monotonic clock.
pub record RateLimiter : Type 0 where
  pub interval : ℕ
  pub next : ℕ
  pub now : ℕ

-- A sleep ends at its time or `late` after it.
unfoldable pub wait : ℕ → RateLimiter → RateLimiter
wait late self =
    if nat_beq self.interval 0
    then self
    else if ltb self.now self.next
    then record self { now = self.next + late; next = self.next + self.interval }
    else record self { next = max self.now self.next + self.interval }
