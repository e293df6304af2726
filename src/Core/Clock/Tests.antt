-- ===== src/Core/Clock/Tests.antt =====
-- Times as `strftime` writes them.
use kafka_reliability.Base.{◌≡◌, refl}
use kafka_reliability.Base.Decimal.{decimal_bytes, digits, digits_from}
use kafka_reliability.Core.Utf8.{encode}
use kafka_reliability.Core.Clock.{iso, date_of, two_digits}

leap_day : iso 1709251199000000 ≡ encode "2024-02-29T23:59:59Z"
unfolding iso date_of two_digits decimal_bytes digits digits_from encode
leap_day = refl

epoch : iso 0 ≡ encode "1970-01-01T00:00:00Z"
unfolding iso date_of two_digits decimal_bytes digits digits_from encode
epoch = refl
