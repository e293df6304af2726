-- ===== src/Replay/Runner/Sends.antt =====
-- What an execution of `_traverse` sends, with a client that refuses nothing.
use kafka_reliability.Base.{
  ℕ, zero, suc, ◌+◌, ◌-◌, String, ◌≡◌, refl, ap, sym, Bool, Bool-cases, Option-cases, inl, inr,
  true, false, Option, none, some, List, [], ◌∷◌, ◌++◌, keep, keep-append, take, length, arith,
  nat_beq, if◌then◌else◌,
}
use mathlib.Core.List.{append-nil}
use kafka_reliability.Base.Effect.{ok}
use kafka_reliability.Core.Message.{Record}
use kafka_reliability.Producers.{in_memory}
use kafka_reliability.Producers.Memory.{InMemoryProducer}
use kafka_reliability.Replay.Message.{skip_reason}
use kafka_reliability.Replay.Options.{ReplayOptions}
use kafka_reliability.Replay.Reader.{Reader}
use kafka_reliability.Replay.Selector.{
  Selection, PartitionRange, ResolvedSelection, range_count, resolve,
}
use kafka_reliability.Replay.Runner.{
  World, ReplayResult, traverse, visit, visit_all, visit_range, visit_ranges, is_full, scan_ranges,
  finally_close, check_target, check_size, commit_if, begin, finished, plan_of, nothing_yet, closed,
}
use kafka_reliability.Replay.Runner.Treats.{
  Ran, Ran-continue, Healthy, up_to, up_to-append, is_selected, messages, visit_selected,
  visit_skipped,
}

take-nil : {A : Type 0} (n : ℕ) → take {A = A} n [] ≡ []
take-nil zero = refl
take-nil (suc n) = refl

up_to_full :
    {A : Type 0} (limit : Option ℕ) (total : ℕ) (xs : List A)
    → is_full limit total ≡ true
    → up_to limit total xs ≡ []
up_to_full none total xs h = absurd (cc)
up_to_full (some limit) total xs h = ap (λ m. take m xs) {x = limit - total} {y = 0} (ground arith)

up_to-nil : {A : Type 0} (limit : Option ℕ) (total : ℕ) → up_to {A = A} limit total [] ≡ []
up_to-nil none total = refl
up_to-nil (some limit) total = take-nil (limit - total)

up_to_more :
    {A : Type 0} (limit : Option ℕ) (total : ℕ) (x : A) (xs : List A)
    → is_full limit total ≡ false
    → up_to limit total (x ∷ xs) ≡ x ∷ up_to limit (total + 1) xs
up_to_more none total x xs h = refl
up_to_more (some limit) total x xs h =
    ap (λ m. take m (x ∷ xs)) {x = limit - total} {y = suc (limit - (total + 1))} (ground arith)

-- The records that a reader yields for the ranges that are not empty, and its state after them.
module _ {S : Type 0} (reader : Reader S) (topic : String) where
  unfoldable pub records_of : List PartitionRange → S → List Record
  records_of [] s = []
  records_of (range ∷ ranges) s =
      let (stream, s') = reader.read topic range.partition range.start range.end_ s in
      let rest = records_of ranges s in
      let more = records_of ranges s' in
      if nat_beq (range_count range) 0 then rest else stream.records ++ more

  -- No stream that is read ends in an exception.
  unfoldable pub Calm : List PartitionRange → S → Type 0
  Calm [] s = Unit
  Calm (range ∷ ranges) s =
      let (stream, s') = reader.read topic range.partition range.start range.end_ s in
      let rest = Calm ranges s in
      let more = Calm ranges s' in
      if nat_beq (range_count range) 0 then rest else (stream.raised ≡ none) × more

  unfoldable pub state_after : List PartitionRange → S → S
  state_after [] s = s
  state_after (range ∷ ranges) s =
      let (stream, s') = reader.read topic range.partition range.start range.end_ s in
      let rest = state_after ranges s in
      let more = state_after ranges s' in if nat_beq (range_count range) 0 then rest else more

module _ {S : Type 0} (reader : Reader S) (options : ReplayOptions)
    (confirm : Option (ResolvedSelection → Bool)) (id : String) (started : ℕ)
    (selection : Selection) (skips : Record → Option String)
    (decides : (r : Record) → skip_reason options id started r selection ≡ ok (skips r)) where
  abbrev selected : ℕ → List Record → List Record
  selected total rs = up_to selection.max_messages total (keep (is_selected skips) rs)

  Ran-nothing :
      (w : World S InMemoryProducer) (xs : List Record)
      → Healthy w.producer
      → xs ≡ []
      → Ran reader options confirm id started selection skips decides w.progress.total
          w.producer.sent xs w.reader
          (ok tt, w)
  Ran-nothing w xs healthy empty = rw empty (record {
    last = w;
    ends = refl;
    healthy = healthy;
    reads = refl;
    totals = omega arith;
    sends = sym (append-nil w.producer.sent);
  })

  visit_all-Ran :
      (p : ℕ) (rs : List Record) (w : World S InMemoryProducer)
      → Healthy w.producer
      → Ran reader options confirm id started selection skips decides w.progress.total
          w.producer.sent
          (selected w.progress.total rs)
          w.reader
          (visit_all reader in_memory options confirm id started selection true p rs none w)
  unfolding visit_all
  visit_all-Ran p [] w healthy =
      Ran-nothing w (selected w.progress.total []) healthy
        (up_to-nil selection.max_messages w.progress.total)
  visit_all-Ran p (r ∷ rs) w healthy =
      elim (Bool-cases (is_full selection.max_messages w.progress.total)) [
        | inl full ↦ rw full (
            Ran-nothing w (selected w.progress.total (r ∷ rs)) healthy
              (up_to_full selection.max_messages w.progress.total _ full))
        | inr more ↦ elim (Option-cases (skips r)) [
          | inl chosen ↦
              rw
                (
                  more,
                  chosen,
                  up_to_more selection.max_messages w.progress.total r (keep (is_selected skips) rs)
                      more,
                )
                (Ran-continue reader options confirm id started selection skips decides
                  w.progress.total w.producer.sent (r ∷ []) (λ n. selected n rs) w.reader w.reader
                  (visit reader in_memory options confirm id started selection true p r w) _
                  (visit_selected reader options confirm id started selection skips decides p r w
                    chosen healthy)
                  (λ w' healthy' reads. rw (sym reads) (visit_all-Ran p rs w' healthy')))
          | inr (reason, skipped) ↦
              rw (more, skipped)
                (let run =
                    Ran-continue reader options confirm id started selection skips decides
                      w.progress.total w.producer.sent [] (λ n. selected n rs) w.reader w.reader
                      (visit reader in_memory options confirm id started selection true p r w)
                      (λ x.
                        visit_all reader in_memory options confirm id started selection true p rs
                          none)
                      (visit_skipped reader options confirm id started selection skips decides p r
                        reason w skipped healthy)
                      (λ w' healthy' reads. rw (sym reads) (visit_all-Ran p rs w' healthy')) in
                  let same : w.progress.total + 0 ≡ w.progress.total = omega arith in
                  rw same at run)
        ]
      ]

  pub visit_ranges-Ran :
      (ranges : List PartitionRange) (w : World S InMemoryProducer)
      → Healthy w.producer
      → Calm reader selection.topic ranges w.reader
      → Ran reader options confirm id started selection skips decides w.progress.total
          w.producer.sent
          (selected w.progress.total (records_of reader selection.topic ranges w.reader))
          (state_after reader selection.topic ranges w.reader)
          (visit_ranges reader in_memory options confirm id started selection true ranges w)
  unfolding visit_ranges visit_range records_of state_after Calm
  visit_ranges-Ran [] w healthy calm =
      Ran-nothing w (selected w.progress.total []) healthy
        (up_to-nil selection.max_messages w.progress.total)
  visit_ranges-Ran (range ∷ ranges) w healthy calm =
      elim (Bool-cases (nat_beq (range_count range) 0)) [
        | inl empty ↦ rw empty (visit_ranges-Ran ranges w healthy (rw empty at calm))
        | inr some_records ↦
            let q = reader.read selection.topic range.partition range.start range.end_ w.reader in
            let calm_here : (q.0.raised ≡ none) × Calm reader selection.topic ranges q.1 =
              rw some_records at calm in
            let w1 : World S InMemoryProducer = record w { reader = q.1 } in
            let more = records_of reader selection.topic ranges q.1 in
            let p =
              visit_all reader in_memory options confirm id started selection true range.partition
                q.0.records q.0.raised w1 in
            let first : List Record = selected w.progress.total q.0.records in
            rw
              (
                some_records,
                keep-append (is_selected skips) q.0.records more,
                up_to-append selection.max_messages w.progress.total
                    (keep (is_selected skips) q.0.records) (keep (is_selected skips) more),
              )
              (Ran-continue reader options confirm id started selection skips decides
                w.progress.total w.producer.sent first (λ n. selected n more) q.1
                (state_after reader selection.topic ranges q.1) p
                (λ x.
                  visit_ranges reader in_memory options confirm id started selection true ranges)
                (rw (calm_here.0) (visit_all-Ran range.partition q.0.records w1 healthy))
                (λ w' healthy' reads.
                  rw (sym reads)
                    (visit_ranges-Ran ranges w' healthy' (rw (sym reads) at calm_here.1))))
      ]

  -- With an in-memory producer that refuses nothing, a reader whose streams end without an exception, a
  -- predicate that raises nothing, a permitted target, a resolved selection, a size that needs no
  -- confirmation or has it, and no commits asked for: an execution ends, and it has sent, in the order
  -- in which they are read, exactly the messages of the records that are not to be skipped, up to
  -- `max_messages` of them, and reports their number.
  pub execute_sends :
      (resolved : ResolvedSelection) (s : S) (w : World S InMemoryProducer)
      → Healthy w.producer
      → check_target reader in_memory options confirm id started selection true ≡ ok tt
      → resolve reader selection w.reader ≡ (ok resolved, s)
      → Calm reader selection.topic resolved.ranges s
      → check_size reader in_memory options confirm id started selection true resolved ≡ ok tt
      → options.commit_source_offsets ≡ false
      → let chosen =
          up_to selection.max_messages 0
            (keep (is_selected skips) (records_of reader selection.topic resolved.ranges s)) in
        (result : ReplayResult) × (last : World S InMemoryProducer) × (traverse reader in_memory
            options confirm id started selection true w
          ≡ (ok result, last))
        × (last.producer.sent ≡ w.producer.sent ++ messages options id started chosen)
        × (result.plan.matched ≡ length chosen)
  unfolding traverse begin scan_ranges finally_close commit_if finished plan_of
  execute_sends resolved s w healthy target resolves calm size keeps =
      let b : World S InMemoryProducer = record w {
        reader = s;
        progress = nothing_yet;
        produced = 0;
      } in
      let run = visit_ranges-Ran resolved.ranges b healthy calm in
      let result : ReplayResult = record {
        plan =
            plan_of reader in_memory options confirm id started selection true resolved
              run.last.progress;
        produced = run.last.produced;
        committed_offsets = [];
      } in
      let last : World S InMemoryProducer = record run.last { audit = closed run.last.audit } in
      (
        result,
        last,
        rw (target, resolves, size, run.ends, keeps) refl,
        run.sends,
        omega (arith, run.totals),
      )
