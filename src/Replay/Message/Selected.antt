-- ===== src/Replay/Message/Selected.antt =====
-- A record that is not skipped can be built.
use kafka_reliability.Base.{ℕ, String, ◌≡◌, refl, Bool, true, false, Option, none, some, arith}
use kafka_reliability.Base.Int.{ℤ, pos, int_leb}
use kafka_reliability.Base.Effect.{Result, ok, err}
use kafka_reliability.Core.Error.{Error}
use kafka_reliability.Core.Message.{Record, get_header, dlq_replay_count}
use kafka_reliability.Core.Utf8.{Bytes}
use kafka_reliability.Replay.Options.{ReplayOptions}
use kafka_reliability.Replay.Selector.{Selection}
use kafka_reliability.Replay.Message.{
  count_in, skip_reason, after_predicate, applied, unless_matched, by_count, build, or_value_error,
  replayed,
}

abbrev or_zero : Option ℤ → ℤ
or_zero none = pos 0
or_zero (some z) = z

-- How often a record has been replayed, by its header.
abbrev pub replays : Record → ℤ
replays r = or_zero (count_in (get_header r.headers dlq_replay_count))

module _ (options : ReplayOptions) (id : String) (started : ℕ) where
  by_count-readable :
      (r : Record) (raw : Option Bytes)
      → by_count options id started raw (count_in raw) ≡ none
      → or_value_error options id started r (count_in raw)
        ≡ ok (replayed options id started r (or_zero (count_in raw)))
  unfolding by_count count_in or_value_error
  by_count-readable r none h = refl
  by_count-readable r (some raw) h = ground arith

  after_predicate-readable :
      (r : Record) (p : Result Error Bool)
      → after_predicate options id started r p ≡ ok none
      → build options id started r ≡ ok (replayed options id started r (replays r))
  unfolding after_predicate unless_matched build
  after_predicate-readable r (ok true) h =
      by_count-readable r (get_header r.headers dlq_replay_count) (cc)
  after_predicate-readable r (ok false) h = absurd (cc)
  after_predicate-readable r (err e) h = absurd (cc)

  pub build-selected :
      (r : Record) (selection : Selection)
      → skip_reason options id started r selection ≡ ok none
      → build options id started r ≡ ok (replayed options id started r (replays r))
  unfolding skip_reason
  build-selected r selection h =
      after_predicate-readable r (applied options id started selection.predicate r) h

  below_limit :
      (raw : Option Bytes) (c : ℤ)
      → int_leb options.max_replay_count (pos 0) ≡ false
      → count_in raw ≡ some c
      → by_count options id started raw (count_in raw) ≡ none
      → int_leb options.max_replay_count c ≡ false
  unfolding by_count count_in
  below_limit none c positive counted h = ground arith
  below_limit (some raw) c positive counted h = ground arith

  after_predicate-below :
      (r : Record) (c : ℤ) (p : Result Error Bool)
      → int_leb options.max_replay_count (pos 0) ≡ false
      → count_in (get_header r.headers dlq_replay_count) ≡ some c
      → after_predicate options id started r p ≡ ok none
      → int_leb options.max_replay_count c ≡ false
  unfolding after_predicate unless_matched
  after_predicate-below r c (ok true) positive counted h =
      below_limit (get_header r.headers dlq_replay_count) c positive counted (cc)
  after_predicate-below r c (ok false) positive counted h = absurd (cc)
  after_predicate-below r c (err e) positive counted h = absurd (cc)

  -- A record that is not skipped has been replayed less often than the limit.
  pub selected-below :
      (r : Record) (selection : Selection) (c : ℤ)
      → int_leb options.max_replay_count (pos 0) ≡ false
      → count_in (get_header r.headers dlq_replay_count) ≡ some c
      → skip_reason options id started r selection ≡ ok none
      → int_leb options.max_replay_count c ≡ false
  unfolding skip_reason
  selected-below r selection c positive counted h =
      after_predicate-below r c (applied options id started selection.predicate r) positive counted
        h

  -- Without a predicate the header alone decides.
  unfoldable pub skips_by_header : Record → Option String
  unfolding unless_matched
  skips_by_header r = unless_matched options id started r true

  pub decides_by_header :
      (selection : Selection) (r : Record)
      → selection.predicate ≡ none
      → skip_reason options id started r selection ≡ ok (skips_by_header r)
  unfolding skip_reason after_predicate applied skips_by_header
  decides_by_header selection r h = rw h refl
