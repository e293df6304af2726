-- ===== src/Core/Clock.antt =====
-- core/clock.py: ManualClock, and the texts that the program makes of times (`_iso` of replay/), with
-- Python's `strftime` for a moment in UTC, a number of microseconds since 1970.
mod Tests
use kafka_reliability.Base.{
  Option, none, some, ℕ, ◌+◌, ◌-◌, ◌*◌, ◌/◌, ◌%◌, List, [], ◌∷◌, ◌++◌, leb, ltb, if◌then◌else◌,
}
use kafka_reliability.Base.Decimal.{decimal_bytes}
use kafka_reliability.Base.Int.{ℤ, pos, negsuc}
use kafka_reliability.Base.Effect.{Exec, Result, ok, err}
use kafka_reliability.Core.Error.{Error, value_error}
use kafka_reliability.Core.Utf8.{Bytes}

-- An aware datetime, or one without a time zone.
pub data Moment : Type 0 where
  aware naive : ℕ → Moment

pub record ManualClock : Type 0 where
  pub now : ℕ

-- _require_aware
pub require_aware : Moment → Result Error ℕ
require_aware (aware n) = ok n
require_aware (naive n) = err value_error

-- __init__, from 2026-01-01 if no start is given
pub init : Option Moment → Result Error ℕ
init none = ok 1767225600000000
init (some start) = require_aware start

pub advance : ℤ → Exec Error ManualClock (Unit {0})
advance (pos delta) self = (ok tt, record { now = self.now + delta })
advance (negsuc delta) self = (err value_error, self)

set_to : Result Error ℕ → Exec Error ManualClock (Unit {0})
set_to (ok when) self = (ok tt, record { now = when })
set_to (err e) self = (err e, self)

pub set : Moment → Exec Error ManualClock (Unit {0})
unfolding require_aware set_to
set when = set_to (require_aware when)

pub record Date : Type 0 where
  pub year : ℕ
  pub month : ℕ
  pub day : ℕ

-- The date of a number of days since 1970, in the Gregorian calendar. The years begin in March, so
-- that a leap day ends one, and are counted in spans of 400, which have 146097 days.
date_of : ℕ → Date
date_of days =
    let z = days + 719468 in
    let span = z / 146097 in
    let of_span = z % 146097 in
    let year_of_span = (of_span - of_span / 1460 + of_span / 36524 - of_span / 146096) / 365 in
    let of_year = of_span - (365 * year_of_span + year_of_span / 4 - year_of_span / 100) in
    let march_month = (5 * of_year + 2) / 153 in
    let day = of_year - (153 * march_month + 2) / 5 + 1 in
    let month = if ltb march_month 10 then march_month + 3 else march_month - 9 in
    record {
      year = year_of_span + span * 400 + (if leb month 2 then 1 else 0);
      month = month;
      day = day;
    }

two_digits : ℕ → Bytes
two_digits n = (48 + n / 10) ∷ (48 + n % 10) ∷ []

-- when.strftime("%Y-%m-%dT%H:%M:%SZ").encode()
unfoldable pub iso : ℕ → Bytes
unfolding date_of two_digits
iso when =
    let seconds = when / 1000000 in
    let date = date_of (seconds / 86400) in
    decimal_bytes date.year
    ++ 45 ∷ two_digits date.month
    ++ 45 ∷ two_digits date.day
    ++ 84 ∷ two_digits (seconds % 86400 / 3600)
    ++ 58 ∷ two_digits (seconds % 3600 / 60)
    ++ 58 ∷ two_digits (seconds % 60)
    ++ 90 ∷ []
