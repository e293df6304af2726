-- ===== src/Core/Error.antt =====
-- core/errors.py: the exceptions, without their texts. `value_error`, `key_error`, `type_error` and `overflow` are
-- Python's, and `foreign` an exception of a caller's handler or of a client library, told apart by a
-- number.
use kafka_reliability.Base.{ℕ}

pub data Error : Type 0 where
  configuration store_unavailable producer header_validation relay dedup_key : Error
  permanent transient unclassified missing_extra confirmation_required value_error key_error
        type_error overflow :
      Error
  foreign : ℕ → Error
