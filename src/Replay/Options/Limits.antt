-- ===== src/Replay/Options/Limits.antt =====
-- What the constructor of ReplayOptions has checked.
use kafka_reliability.Base.{◌≡◌, false, arith, string_eq}
use kafka_reliability.Base.Effect.{ok}
use kafka_reliability.Base.Int.{pos, int_leb}
use kafka_reliability.Replay.Options.{ReplayOptions, options_init}

pub options_init-positive :
    (options : ReplayOptions)
    → options_init options ≡ ok options
    → int_leb options.max_replay_count (pos 0) ≡ false
unfolding options_init
options_init-positive options h = ground arith
