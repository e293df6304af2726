-- ===== src/Replay/Runner/Commitless.antt =====
-- A dry run of `_traverse` makes no use of the reader's `commit`: another one in its place changes nothing.
use kafka_reliability.Base.{
  ℕ, String, ◌≡◌, refl, Bool-cases, inl, inr, Bool, false, nat_beq, Option, none, some, List, [],
  ◌∷◌,
}
use kafka_reliability.Base.Effect.{Exec, Result, ok, err, continue, ◌>>=◌, ◌>>◌, lift}
use kafka_reliability.Core.Error.{Error}
use kafka_reliability.Core.Message.{Record}
use kafka_reliability.Producers.{Producer}
use kafka_reliability.Replay.Options.{ReplayOptions}
use kafka_reliability.Replay.Reader.{Reader}
use kafka_reliability.Replay.Selector.{
  Selection, PartitionRange, ResolvedSelection, range_count, resolve,
}
use kafka_reliability.Replay.Runner.{
  World, ReplayResult, traverse, check_target, check_size, scan_ranges, commit_if, finished, begin,
  with_reader, on_reader, plan_of, report_of, treat, visit, visit_all, visit_range, visit_ranges,
  is_full,
}

continue-same :
    {E S A B : Type 0} (p q : Result E A × S) (k l : A → Exec E S B)
    → p ≡ q
    → ((a : A) (s : S) → k a s ≡ l a s)
    → continue p k ≡ continue q l
continue-same (ok a, s) q k l same each = rw (← same) (each a s)
continue-same (err e, s) q k l same each = rw (← same) refl

module _ {S P : Type 0} (reader : Reader S) (commit : String → ℕ → ℕ → Exec Error S (Unit {0}))
    (producer : Producer P) (options : ReplayOptions) (confirm : Option (ResolvedSelection → Bool))
    (id : String) (started : ℕ) (selection : Selection) where
  abbrev pub other : Reader S
  other = record reader { commit = commit }

  treat-same :
      (p : ℕ) (r : Record) (reason : Option String) (w : World S P)
      → treat other producer options confirm id started selection false p r reason w
        ≡ treat reader producer options confirm id started selection false p r reason w
  unfolding treat
  treat-same p r (some reason) w = refl
  treat-same p r none w = refl

  visit-same :
      (p : ℕ) (r : Record) (w : World S P)
      → visit other producer options confirm id started selection false p r w
        ≡ visit reader producer options confirm id started selection false p r w
  unfolding visit
  visit-same p r w = continue-same _ _ _ _ refl (λ reason. treat-same p r reason)

  visit_all-same :
      (p : ℕ) (rs : List Record) (raised : Option Error) (w : World S P)
      → visit_all other producer options confirm id started selection false p rs raised w
        ≡ visit_all reader producer options confirm id started selection false p rs raised w
  unfolding visit_all
  visit_all-same p [] none w = refl
  visit_all-same p [] (some e) w = refl
  visit_all-same p (r ∷ rs) raised w =
      elim (Bool-cases (is_full selection.max_messages w.progress.total)) [
        | inl full ↦ rw full refl
        | inr more ↦
            rw more (continue-same _ _ _ _ (visit-same p r w) (λ x. visit_all-same p rs raised))
      ]

  visit_range-same :
      (range : PartitionRange) (w : World S P)
      → visit_range other producer options confirm id started selection false range w
        ≡ visit_range reader producer options confirm id started selection false range w
  unfolding visit_range
  visit_range-same range w = visit_all-same range.partition _ _ _

  visit_ranges-same :
      (ranges : List PartitionRange) (w : World S P)
      → visit_ranges other producer options confirm id started selection false ranges w
        ≡ visit_ranges reader producer options confirm id started selection false ranges w
  unfolding visit_ranges
  visit_ranges-same [] w = refl
  visit_ranges-same (range ∷ ranges) w = elim (Bool-cases (nat_beq (range_count range) 0)) [
    | inl empty ↦ rw empty (visit_ranges-same ranges w)
    | inr some_records ↦
        rw some_records
          (continue-same _ _ _ _ (visit_range-same range w) (λ x. visit_ranges-same ranges))
  ]

  scan_ranges-same :
      (resolved : ResolvedSelection) (w : World S P)
      → scan_ranges other producer options confirm id started selection false resolved w
        ≡ scan_ranges reader producer options confirm id started selection false resolved w
  unfolding scan_ranges
  scan_ranges-same resolved w = rw (visit_ranges-same resolved.ranges w) refl

  -- What follows the lookup of the ranges.
  abbrev after : Reader S → ResolvedSelection → Exec Error (World S P) ReplayResult
  after using resolved = do
    lift (check_size using producer options confirm id started selection false resolved)
    begin using producer options confirm id started selection false
    scan_ranges using producer options confirm id started selection false resolved
    committed ← commit_if using producer options confirm id started selection false
    finished using producer options confirm id started selection false resolved committed

  after-same :
      (resolved : ResolvedSelection) (w : World S P)
      → after other resolved w ≡ after reader resolved w
  unfolding check_size begin commit_if finished plan_of report_of
  after-same resolved w = continue-same _ _ _ _ (scan_ranges-same resolved _) (λ u w'. refl)

  resolved-same :
      (r : Result Error ResolvedSelection × S) (w : World S P)
      → continue (with_reader w r) (after other) ≡ continue (with_reader w r) (after reader)
  resolved-same (err e, s) w = refl
  resolved-same (ok resolved, s) w = after-same resolved (record w { reader = s })

  targeted-same :
      (target : Result Error (Unit {0})) (w : World S P)
      → continue
          (target, w)
          (λ x. do resolved ← on_reader (resolve other selection); after other resolved)
        ≡ continue
            (target, w)
            (λ x. do resolved ← on_reader (resolve reader selection); after reader resolved)
  unfolding resolve
  targeted-same (err e) w = refl
  targeted-same (ok x) w = resolved-same (resolve reader selection w.reader) w

  pub traverse-same :
      (w : World S P)
      → traverse other producer options confirm id started selection false w
        ≡ traverse reader producer options confirm id started selection false w
  unfolding traverse check_target
  traverse-same w =
      targeted-same (check_target reader producer options confirm id started selection false) w
