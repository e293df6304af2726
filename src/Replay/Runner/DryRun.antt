-- ===== src/Replay/Runner/DryRun.antt =====
-- A dry run of `_traverse` against an execution.
use kafka_reliability.Base.{ℕ, String, ◌≡◌, refl, Bool, true, false, Option, []}
use kafka_reliability.Base.Dict.{Dict}
use kafka_reliability.Base.Effect.{Exec, Result, ok, err, continue, ◌>>=◌, ◌>>◌, lift, Holds}
use kafka_reliability.Core.Error.{Error}
use kafka_reliability.Producers.{Producer}
use kafka_reliability.Replay.Options.{ReplayOptions}
use kafka_reliability.Replay.Reader.{Reader}
use kafka_reliability.Replay.Selector.{Selection, ResolvedSelection, resolve}
use kafka_reliability.Replay.Runner.{
  World, ReplayResult, traverse, check_target, check_size, scan_ranges, commit_if, finished, begin,
  with_reader, on_reader, nothing_yet, plan_of, report_of,
}
use kafka_reliability.Replay.Runner.Commitless.{traverse-same}
use kafka_reliability.Replay.Runner.Follows.{
  erase, Follows, Follows-finally, visit_ranges-Follows, commit_if-progress,
}

-- An execution that ended, and the dry run of the same selection from the same state: it plans the
-- same, and leaves the producer, the reports, the audit trail and the limiter alone.
abbrev pub Matches :
    {S P : Type 0}
    → World S P
    → Result Error ReplayResult × World S P
    → Result Error ReplayResult × World S P
    → Type 0
Matches w (err e, w1) q = Unit
Matches w (ok result, w1) (r, w2) =
    (r
      ≡ ok (record {
        plan = record result.plan { dry_run = true };
        produced = 0;
        committed_offsets = [];
      }))
    × (w2.producer ≡ w.producer)
    × (w2.events ≡ w.events)
    × (w2.audit ≡ w.audit)
    × (w2.limiter ≡ w.limiter)

module _ {S P : Type 0} (reader : Reader S) (producer : Producer P) (options : ReplayOptions)
    (confirm : Option (ResolvedSelection → Bool)) (id : String) (started : ℕ)
    (selection : Selection) where
  -- From the committed offsets to the result.
  ended-Matches :
      (resolved : ResolvedSelection) (b w' : World S P) (c : Result Error (Dict ℕ ℕ) × World S P)
      → Holds (λ d (w'' : World S P). w''.progress ≡ w'.progress) c
      → Matches b
          (continue c (finished reader producer options confirm id started selection true resolved))
          (finished reader producer options confirm id started selection false resolved []
            (erase b w'))
  unfolding finished plan_of report_of
  ended-Matches resolved b w' (err e, w'') h = tt
  ended-Matches resolved b w' (ok d, w'') h = rw h (refl, refl, refl, refl, refl)

  committed-Matches :
      (resolved : ResolvedSelection) (b : World S P) (p q : Result Error (Unit {0}) × World S P)
      → Follows b p q
      → Matches b
          (continue p λ x.
            commit_if reader producer options confirm id started selection true
            >>= finished reader producer options confirm id started selection true resolved)
          (continue q λ x.
            commit_if reader producer options confirm id started selection false
            >>= finished reader producer options confirm id started selection false resolved)
  unfolding Follows commit_if
  committed-Matches resolved b (err e, w') q h = tt
  committed-Matches resolved b (ok x, w') q h = rw h (
      ended-Matches resolved b w'
        (commit_if reader producer options confirm id started selection true w')
        (commit_if-progress reader producer options confirm id started selection b w'))

  abbrev begun : S → World S P → World S P
  begun s w = record w { reader = s; progress = nothing_yet; produced = 0 }

  scanned-Matches :
      (resolved : ResolvedSelection) (s : S) (w : World S P)
      → Matches w
          (continue
            (scan_ranges reader producer options confirm id started selection true resolved
              (begun s w))
            λ x.
              commit_if reader producer options confirm id started selection true
              >>= finished reader producer options confirm id started selection true resolved)
          (continue
            (scan_ranges reader producer options confirm id started selection false resolved
              (begun s w))
            λ x.
              commit_if reader producer options confirm id started selection false
              >>= finished reader producer options confirm id started selection false resolved)
  unfolding scan_ranges
  scanned-Matches resolved s w = committed-Matches resolved (begun s w) _ _ (
      Follows-finally (begun s w) _ _ (
        visit_ranges-Follows reader producer options confirm id started selection (begun s w)
          resolved.ranges (begun s w)))

  -- What follows the lookup of the ranges.
  abbrev after : Bool → ResolvedSelection → Exec Error (World S P) ReplayResult
  after execute resolved = do
    lift (check_size reader producer options confirm id started selection execute resolved)
    begin reader producer options confirm id started selection execute
    scan_ranges reader producer options confirm id started selection execute resolved
    committed ← commit_if reader producer options confirm id started selection execute
    finished reader producer options confirm id started selection execute resolved committed

  checked-Matches :
      (resolved : ResolvedSelection) (s : S) (w : World S P) (size : Result Error (Unit {0}))
      → Matches w
          (continue
            (size, record w { reader = s })
            λ x. do
              begin reader producer options confirm id started selection true
              scan_ranges reader producer options confirm id started selection true resolved
              committed ← commit_if reader producer options confirm id started selection true
              finished reader producer options confirm id started selection true resolved committed)
          (after false resolved (record w { reader = s }))
  unfolding check_size begin
  checked-Matches resolved s w (err e) = tt
  checked-Matches resolved s w (ok x) = scanned-Matches resolved s w

  resolved-Matches :
      (w : World S P) (r : Result Error ResolvedSelection × S)
      → Matches w
          (continue (with_reader w r) (after true))
          (continue (with_reader w r) (after false))
  resolved-Matches w (err e, s) = tt
  resolved-Matches w (ok resolved, s) =
      checked-Matches resolved s w
        (check_size reader producer options confirm id started selection true resolved)

  targeted-Matches :
      (w : World S P) (target : Result Error (Unit {0}))
      → Matches w
          (continue
            (target, w)
            λ x. do resolved ← on_reader (resolve reader selection); after true resolved)
          (continue
            (target, w)
            λ x. do resolved ← on_reader (resolve reader selection); after false resolved)
  targeted-Matches w (err e) = tt
  targeted-Matches w (ok x) = resolved-Matches w (resolve reader selection w.reader)

  traverse-Matches :
      (w : World S P)
      → Matches w
          (traverse reader producer options confirm id started selection true w)
          (traverse reader producer options confirm id started selection false w)
  unfolding traverse check_target
  traverse-Matches w =
      targeted-Matches w (check_target reader producer options confirm id started selection true)

  -- Over any reader and any producer, from one state: if an execution ends, the dry run ends too, with
  -- the same plan but for its `dry_run`, and leaves the producer, the reports, the audit trail and the
  -- limiter as they were. It commits nothing: with any other `commit` in the reader, from the same
  -- state, the dry run ends in the same way and leaves the reader in the same state.
  pub dry_run-Matches :
      (other_commit : String → ℕ → ℕ → Exec Error S (Unit {0})) (w : World S P)
      → Matches w
          (traverse reader producer options confirm id started selection true w)
          (traverse reader producer options confirm id started selection false w)
        × (traverse
              (record reader { commit = other_commit })
              producer
              options
              confirm
              id
              started
              selection
              false
              w
            ≡ traverse reader producer options confirm id started selection false w)
  dry_run-Matches other_commit w = (
    traverse-Matches w,
    traverse-same reader other_commit producer options confirm id started selection w,
  )
