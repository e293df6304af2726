-- ===== src/Replay/Rounds/Bounded.antt =====
-- The count of replays goes round with a poison message, and the runner's limit ends its rounds.
use kafka_reliability.Base.{
  ℕ, zero, suc, ◌≤◌, ◌<◌, String, ◌≡◌, refl, ap, sym, ◌∙◌, Bool-cases, inl, inr, false, Option,
  none, some, List, [], ◌∷◌, arith, ◌==◌, string_eq,
}
use kafka_reliability.Base.Decimal.{length-digits}
use kafka_reliability.Base.Dict.{Dict, Distinct, lookup, insert, lookup-insert, insert-Distinct}
use kafka_reliability.Base.Effect.{ok}
use kafka_reliability.Base.Int.{ℤ, pos, int_leb, next}
use kafka_reliability.Core.Message.{
  Record, OutgoingMessage, get_header, dlq_replay_count, replay_id, replay_at,
}
use kafka_reliability.Core.Utf8.{Bytes}
use kafka_reliability.Replay.Count.{str_of}
use kafka_reliability.Replay.Count.RoundTrip.{int_of-str_of}
use kafka_reliability.Replay.Message.{
  count_in, other_headers, is_replay_header, replayed, build, skip_reason,
}
use kafka_reliability.Replay.Message.Selected.{replays, build-selected, selected-below}
use kafka_reliability.Replay.Options.{ReplayOptions, options_init}
use kafka_reliability.Replay.Options.Limits.{options_init-positive}
use kafka_reliability.Replay.Selector.{Selection}
use kafka_reliability.Replay.Dlq.{DlqRouter, Failure, dlq_build}
use kafka_reliability.Replay.Dlq.Headers.{last_header, lookup-dlq_headers}
use kafka_reliability.Replay.Dlq.Routing.{dlq_build-headers}
use kafka_reliability.Replay.Rounds.{Place, stored_at, Rounds, first, again}

get_header-lookup :
    (headers : Dict String Bytes) (name : String) → get_header headers name ≡ lookup name headers
unfolding get_header lookup
get_header-lookup [] name = refl
get_header-lookup ((n, v) ∷ headers) name = ground (arith, get_header-lookup headers name)

last_header-absent :
    (name : String) (d : Dict String Bytes) (before : Option Bytes)
    → lookup name d ≡ none
    → last_header name d before ≡ before
unfolding last_header lookup
last_header-absent name [] before h = refl
last_header-absent name ((n, v) ∷ d) before h = ground (arith, last_header-absent name d before)

-- In a dict the last header of a name is the only one.
last_header-lookup :
    (name : String) (d : Dict String Bytes) → Distinct d → last_header name d none ≡ lookup name d
unfolding last_header lookup
last_header-lookup name [] h = refl
last_header-lookup name ((n, v) ∷ d) h = elim (Bool-cases (n == name)) [
  | inl same ↦ rw same (
      last_header-absent name d (some v)
        (ap (λ k. lookup k d) (sym ((string_eq.equals_iff n name).0 same)) ∙ h.0))
  | inr differ ↦ rw differ (last_header-lookup name d h.1)
]

other_headers-Distinct :
    (headers : List (String × Bytes)) (out : Dict String Bytes)
    → Distinct out
    → Distinct (other_headers headers out)
unfolding other_headers
other_headers-Distinct [] out h = h
other_headers-Distinct ((n, v) ∷ headers) out h = elim (Bool-cases (is_replay_header n)) [
  | inl old ↦ rw old (other_headers-Distinct headers out h)
  | inr other ↦
      rw other (other_headers-Distinct headers (insert n v out) (insert-Distinct n v out h))
]

replayed-Distinct :
    (options : ReplayOptions) (id : String) (started : ℕ) (r : Record) (c : ℤ)
    → Distinct (replayed options id started r c).headers
unfolding replayed
replayed-Distinct options id started r c = insert-Distinct replay_at _ _ (
    insert-Distinct replay_id _ _
      (insert-Distinct dlq_replay_count _ _ (other_headers-Distinct r.headers [] tt)))

replayed_count :
    (options : ReplayOptions) (id : String) (started : ℕ) (r : Record) (c : ℤ)
    → lookup dlq_replay_count (replayed options id started r c).headers ≡ some (str_of (next c))
unfolding replayed
replayed_count options id started r c =
    lookup-insert replay_at dlq_replay_count _ _
    ∙ lookup-insert replay_id dlq_replay_count _ _
    ∙ lookup-insert dlq_replay_count dlq_replay_count _ _

count_back : (n : ℕ) → n < 4300 → count_in (some (str_of (pos n))) ≡ some (pos n)
unfolding count_in
count_back n h = int_of-str_of (pos n) (omega (arith, length-digits n))

module _ (options : ReplayOptions) (selection : Selection) (router : DlqRouter) where
  -- One round: the count in the dead letter is the next one.
  round_count :
      (n : ℕ) (r : Record) (id : String) (started : ℕ) (place : Place) (now : ℕ) (failure : Failure)
      (attempts : ℕ) (message dead : OutgoingMessage)
      → suc n < 4300
      → count_in (get_header r.headers dlq_replay_count) ≡ some (pos n)
      → skip_reason options id started r selection ≡ ok none
      → build options id started r ≡ ok message
      → dlq_build router now (stored_at place message) failure attempts ≡ ok dead
      → count_in (get_header dead.headers dlq_replay_count) ≡ some (pos (suc n))
  unfolding stored_at
  round_count n r id started place now failure attempts message dead short counted selected built
        routed =
      let c : replays r ≡ pos n = rw counted refl in
      let made = build-selected options id started r selection selected in
      let same : message ≡ replayed options id started r (replays r) = cc in
      let distinct : Distinct message.headers =
        rw same (replayed-Distinct options id started r (replays r)) in
      ap count_in (
        get_header-lookup dead.headers dlq_replay_count
        ∙ ap (lookup dlq_replay_count)
            (dlq_build-headers router now (stored_at place message) failure attempts dead routed)
        ∙ lookup-dlq_headers router now (stored_at place message) failure attempts dlq_replay_count
            refl
        ∙ last_header-lookup dlq_replay_count message.headers distinct
        ∙ ap (λ (m : OutgoingMessage). lookup dlq_replay_count m.headers) same
        ∙ replayed_count options id started r (replays r)
        ∙ ap (λ z. some (str_of (next z))) c)
      ∙ count_back (suc n) short

  limit_above :
      (n limit : ℕ)
      → options.max_replay_count ≡ pos limit
      → int_leb options.max_replay_count (pos n) ≡ false
      → n < limit
  limit_above n limit limited below = ground arith

  -- A message that is replayed, fails and is dead-lettered again and again, from a record without the
  -- count's header, with options that their constructor accepts and a limit below 4300: it is replayed at
  -- most `max_replay_count` times, and the count in its header is the number of its rounds.
  pub poison_bounded :
      (n : ℕ) (r0 r : Record) (limit : ℕ)
      → options_init options ≡ ok options
      → options.max_replay_count ≡ pos limit
      → limit < 4300
      → get_header r0.headers dlq_replay_count ≡ none
      → Rounds options selection router n r0 r
      → (n ≤ limit) × (count_in (get_header r.headers dlq_replay_count) ≡ some (pos n))
  unfolding count_in stored_at
  poison_bounded zero r0 r limit made limited short clean (first _) = (omega arith, rw clean refl)
  poison_bounded (suc n) r0 r limit made limited short clean
        (again {r = r1} id started place now failure attempts place' message dead before selected
          built routed) =
      let (few, counted) = poison_bounded n r0 r1 limit made limited short clean before in
      let below =
        selected-below options id started r1 selection (pos n) (options_init-positive options made)
          counted selected in
      let fewer : n < limit = limit_above n limit limited below in
      (
        omega (arith, fewer),
        round_count n r1 id started place now failure attempts message dead
            (omega (arith, fewer, short)) counted selected built routed,
      )
