-- ===== src/Outbox/Config.antt =====
-- `RelayConfig` of outbox/relay.py. Intervals are numbers of microseconds. The constructor takes
-- integers, and a configuration that it accepted has natural numbers.
pub mod Accepted
use kafka_reliability.Base.{
  ℕ, ◌+◌, ◌-◌, ◌*◌, ◌^◌, ◌%◌, String, ◌≤◌, ◌<◌, min, ◌≡◌, ◌↔◌, Comparable, refl, Bool, true, false,
  ◌&&◌, ◌||◌, not, Option, none, some, ltb, leb, arith, ◌==◌, string_eq, nat_beq, if◌then◌else◌,
  Bool-cases, inl, inr,
}
use kafka_reliability.Base.Int.{ℤ, pos, negsuc, int_eq, int_leb, int_ltb, int_min, magnitude}
use kafka_reliability.Base.Effect.{Result, ok, err}
use kafka_reliability.Core.Error.{Error, configuration, overflow}

pub data Ordering : Type 0 where
  strict sharded : Ordering

pub record RelayConfig : Type 0 where
  pub batch_size : ℕ
  pub poll_interval : ℕ
  pub ordering : Ordering
  pub shard_count : ℕ
  pub shard_index : ℕ
  pub max_attempts : ℕ
  pub advisory_lock_key : Option ℤ
  pub retry_backoff : ℕ
  pub max_backoff : ℕ
  pub standby_interval : ℕ

abbrev is_strict : Ordering → Bool
is_strict strict = true
is_strict sharded = false

-- What the constructor is called with: any text and any integers.
pub record Arguments : Type 0 where
  pub batch_size : ℤ
  pub poll_interval : ℤ
  pub ordering : String
  pub shard_count : ℤ
  pub shard_index : ℤ
  pub max_attempts : ℤ
  pub advisory_lock_key : Option ℤ
  pub retry_backoff : ℤ
  pub max_backoff : ℤ
  pub standby_interval : ℤ

-- not _INT32_MIN <= key <= _INT32_MAX
abbrev pub too_large : Option ℤ → Bool
too_large none = false
too_large (some (pos n)) = ltb (2 ^ 31 - 1) n
too_large (some (negsuc n)) = ltb (2 ^ 31 - 1) n

-- Of the two texts that are accepted.
abbrev pub ordering_of : String → Ordering
ordering_of o = if o == "strict" then strict else sharded

abbrev pub least_interval : Arguments → ℤ
least_interval self =
    int_min self.poll_interval
      (int_min self.retry_backoff (int_min self.max_backoff self.standby_interval))

-- The fields, of which none is negative once the tests have passed.
abbrev pub config_of : Arguments → RelayConfig
config_of self = record {
  batch_size = magnitude self.batch_size;
  poll_interval = magnitude self.poll_interval;
  ordering = ordering_of self.ordering;
  shard_count = magnitude self.shard_count;
  shard_index = magnitude self.shard_index;
  max_attempts = magnitude self.max_attempts;
  advisory_lock_key = self.advisory_lock_key;
  retry_backoff = magnitude self.retry_backoff;
  max_backoff = magnitude self.max_backoff;
  standby_interval = magnitude self.standby_interval;
}

-- __post_init__: the first test that fails raises.
unfoldable pub post_init : Arguments → Result Error RelayConfig
post_init self =
    if not (self.ordering == "strict" || self.ordering == "sharded")
    then err configuration
    else if int_ltb self.batch_size (pos 1)
    then err configuration
    else if int_ltb self.max_attempts (pos 1)
    then err configuration
    else if int_ltb (least_interval self) (pos 0)
    then err configuration
    else if int_ltb self.shard_count (pos 1)
    then err configuration
    else if not (int_leb (pos 0) self.shard_index && int_ltb self.shard_index self.shard_count)
    then err configuration
    else if self.ordering == "strict" && not (self.shard_count == pos 1)
    then err configuration
    else if self.ordering == "sharded" && int_ltb self.shard_count (pos 2)
    then err configuration
    else if too_large self.advisory_lock_key
    then err configuration
    else ok (config_of self)

unfoldable pub lock_shard : RelayConfig → ℕ
lock_shard self = if is_strict self.ordering then 0 else self.shard_index + 1

-- zlib.crc32(table) & _INT32_MAX, with the checksum as a parameter
pub default_advisory_lock_key : (String → ℕ) → String → ℤ
default_advisory_lock_key crc32 table = pos (crc32 table % 2 ^ 31)

abbrev or_default : Option ℤ → ℤ → ℤ
or_default none d = d
or_default (some key) d = key

unfoldable pub lock_key : (String → ℕ) → RelayConfig → String → ℤ
unfolding default_advisory_lock_key
lock_key crc32 self table =
    or_default self.advisory_lock_key (default_advisory_lock_key crc32 table)

-- 2 ** e as a float, to which it is converted when a float is multiplied by it
float_power : ℕ → Result Error ℕ
float_power e = if leb 1024 e then err overflow else ok (2 ^ e)

abbrev capped : RelayConfig → Result Error ℕ → Result Error ℕ
capped self (ok n) = ok (min self.max_backoff (self.retry_backoff * n))
capped self (err e) = err e

-- The delay of `run` after the `failing_passes`th failing pass in a row.
unfoldable pub backoff : RelayConfig → ℕ → Result Error ℕ
unfolding float_power
backoff self failing_passes = capped self (float_power (failing_passes - 1))
