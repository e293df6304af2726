-- ===== src/Dedup/Memory/Tests.antt =====
-- Runs of dedup/backends/memory.py, and the theorems at concrete inputs.
use kafka_reliability.Base.{
  ℕ, ◌≡◌, refl, false, none, some, [], ◌∷◌, ◌+◌, arith, keep, length, string_eq, pair_eq,
}
use kafka_reliability.Base.Dict.{lookup}
use kafka_reliability.Base.Effect.{ok}
use kafka_reliability.Dedup.Store.{ClaimState}
use kafka_reliability.Dedup.Memory.{Memory, claim, confirm, release, purge}
use kafka_reliability.Dedup.Memory.View.{
  view, answer, lapsed, after_claim, after_release, claim-answer, view-claim, view-confirm,
  view-release,
}
use kafka_reliability.Dedup.Memory.Sweep.{view-purge, purge_exact, survives}

-- A row that is done, one whose lease has run out, and one in progress.
abbrev three_rows : Memory
three_rows = record {
  now = 50;
  rows =
      (("g", "a"), record { state = ClaimState.done; expires_at = 90 })
      ∷ (("g", "b"), record { state = ClaimState.in_progress; expires_at = 40 })
      ∷ (("h", "c"), record { state = ClaimState.in_progress; expires_at = 60 })
      ∷ [];
}

claim-answer_example :
    (claim "g" "b" ClaimState.in_progress 10 false three_rows).0
    ≡ ok (record {
      result = answer (view three_rows ("g", "b"));
      lease_expired = lapsed 50 (lookup ("g", "b") three_rows.rows);
    })
claim-answer_example = claim-answer "g" "b" three_rows ClaimState.in_progress 10 false

view-claim_example :
    view (claim "g" "b" ClaimState.in_progress 10 false three_rows).1 ("g", "b")
    ≡ after_claim ClaimState.in_progress (view three_rows ("g", "b"))
view-claim_example =
    view-claim "g" "b" three_rows ClaimState.in_progress 10 false ("g", "b") (ground arith)

view-release_example :
    view (release "g" "a" three_rows).1 ("g", "a") ≡ after_release (view three_rows ("g", "a"))
view-release_example = view-release "g" "a" three_rows ("g", "a")

view-confirm_example : view (confirm "h" "c" 100 three_rows).1 ("h", "c") ≡ some ClaimState.done
view-confirm_example = view-confirm "h" "c" three_rows 100 ("h", "c") (ground arith)

view-purge_example :
    view (purge (some "g") none three_rows).1 ("g", "b") ≡ view three_rows ("g", "b")
unfolding lookup
view-purge_example = view-purge (some "g") three_rows ("g", "b") (refl, (refl, (refl, tt)))

purge_exact_example :
    let s' = (purge (some "g") none three_rows).1 in
    (s'.rows ≡ keep (survives (some "g") 50) three_rows.rows)
    × (n : ℕ) × ((purge (some "g") none three_rows).0 ≡ ok n)
    × (length s'.rows + n ≡ 3)
unfolding lookup
purge_exact_example = purge_exact (some "g") three_rows (refl, (refl, (refl, tt)))
