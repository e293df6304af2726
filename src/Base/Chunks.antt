-- ===== src/Base/Chunks.antt =====
-- A statement that deletes the rows that pass a test, a limited number of them, and the loop that
-- runs it until a run deletes fewer than its limit.
use Prim.Native.Nat.{ℕ, zero, suc, ◌+◌, ◌≤◌, ◌<◌}
use mathlib.Core.Path.{◌≡◌, refl, ap, ap₂, ◌∙◌}
use mathlib.Core.Logic.{inl, inr}
use mathlib.Core.Bool.{Bool, false, not}
use mathlib.Core.Option.{Option, none, some}
use mathlib.Core.List.{List, [], ◌∷◌}
use native.Mathlib.Omega.{arith}
use kafka_reliability.Base.Tests.{ltb, ltb→lt, Bool-cases, if◌then◌else◌}
use kafka_reliability.Base.Lists.{length, keep}

module _ {A : Type 0} (old : A → Bool) where
  -- The statement: the rows that are left, and how many were deleted.
  unfoldable pub delete_chunk : ℕ → List A → List A × ℕ
  delete_chunk zero rows = (rows, 0)
  delete_chunk (suc n) [] = ([], 0)
  delete_chunk (suc n) (row ∷ rows) =
      let (left, deleted) = delete_chunk n rows in
      let (others, more) = delete_chunk (suc n) rows in
      if old row then (left, suc deleted) else (row ∷ others, more)

  -- The loop; `none` if the fuel does not do.
  unfoldable pub sweep_loop : ℕ → ℕ → ℕ → List A → Option (ℕ × List A)
  unfolding delete_chunk
  sweep_loop chunk zero total rows = none
  sweep_loop chunk (suc fuel) total rows =
      let (left, deleted) = delete_chunk chunk rows in
      let rest = sweep_loop chunk fuel (total + deleted) left in
      if ltb deleted chunk then some (total + deleted, left) else rest

  abbrev pub fresh : A → Bool
  fresh row = not (old row)

  abbrev olds : List A → ℕ
  olds rows = length (keep old rows)

  -- A chunk deletes old rows only, as many as there are up to its size.
  record Chunk (n : ℕ) (rows : List A) : Type 0 where
    kept : keep fresh (delete_chunk n rows).0 ≡ keep fresh rows
    total : olds (delete_chunk n rows).0 + (delete_chunk n rows).1 ≡ olds rows
    bound : (delete_chunk n rows).1 ≤ n
    all : (delete_chunk n rows).1 < n → (delete_chunk n rows).0 ≡ keep fresh rows

  chunk_lem : (n : ℕ) (rows : List A) → Chunk n rows
  unfolding delete_chunk
  chunk_lem zero rows = record {
    kept = refl;
    total = omega arith;
    bound = omega arith;
    all = λ h. absurd (omega (arith, h));
  }
  chunk_lem (suc n) [] = record {
    kept = refl;
    total = omega arith;
    bound = omega arith;
    all = λ h. refl;
  }
  chunk_lem (suc n) (row ∷ rows) = elim (Bool-cases (old row)) [
    | inl hit ↦
        let c = chunk_lem n rows in
        record {
          kept = rw hit c.kept;
          total = rw hit (omega (arith, c.total));
          bound = rw hit (omega (arith, c.bound));
          all = rw hit (λ h. c.all (omega (arith, h)));
        }
    | inr miss ↦
        let c = chunk_lem (suc n) rows in
        record {
          kept = rw miss (rw miss (ap (λ xs. row ∷ xs) c.kept));
          total = rw miss (rw miss c.total);
          bound = rw miss c.bound;
          all = rw miss (λ h. ap (λ xs. row ∷ xs) (c.all h));
        }
  ]

  length-keep : (rows : List A) → olds rows ≤ length rows
  length-keep [] = omega arith
  length-keep (row ∷ rows) = elim (Bool-cases (old row)) [
    | inl hit ↦ rw hit (omega (arith, length-keep rows))
    | inr miss ↦ rw miss (omega (arith, length-keep rows))
  ]

  olds-fresh : (rows : List A) → olds (keep fresh rows) ≡ 0
  olds-fresh [] = refl
  olds-fresh (row ∷ rows) = elim (Bool-cases (old row)) [
    | inl hit ↦ rw hit (olds-fresh rows)
    | inr miss ↦ rw miss (rw miss (olds-fresh rows))
  ]

  not_short : (a b : ℕ) → ltb a b ≡ false → b ≤ a
  not_short a b h = ground arith

  -- The chunk is the last, as it is not full, or the loop goes on with what is left.
  loop_lem :
      (chunk fuel total : ℕ) (rows : List A)
      → 1 ≤ chunk
      → olds rows < fuel
      → sweep_loop chunk fuel total rows ≡ some (total + olds rows, keep fresh rows)
  unfolding sweep_loop
  loop_lem chunk zero total rows one enough = absurd (omega (arith, enough))
  loop_lem chunk (suc fuel) total rows one enough =
      let c = chunk_lem chunk rows in
      let left = (delete_chunk chunk rows).0 in
      let deleted = (delete_chunk chunk rows).1 in
      elim (Bool-cases (ltb deleted chunk)) [
        | inl short ↦
            let ends = c.all (ltb→lt deleted chunk short) in
            rw short (
              ap₂ (λ n xs. some (n, xs)) (omega (arith, c.total, ap olds ends, olds-fresh rows))
                ends)
        | inr full ↦
            let rest =
              loop_lem chunk fuel (total + deleted) left one
                (omega (arith, c.total, c.bound, enough, not_short deleted chunk full, one)) in
            rw full (rest ∙ ap₂ (λ n xs. some (n, xs)) (omega (arith, c.total)) c.kept)
      ]

  -- As many runs as there are rows, and one more, are enough.
  pub sweep_loop_lem :
      (chunk : ℕ) (rows : List A)
      → ltb chunk 1 ≡ false
      → sweep_loop chunk (suc (length rows)) 0 rows ≡ some (length (keep old rows), keep fresh rows)
  sweep_loop_lem chunk rows one =
      loop_lem chunk (suc (length rows)) 0 rows (not_short chunk 1 one)
        (omega (arith, length-keep rows))
      ∙ ap (λ n. some (n, keep fresh rows)) (omega arith)
