-- ===== src/Base/Dict.antt =====
-- Python's `dict` over keys with an equality, in insertion order.
use mathlib.Core.Path.{◌≡◌, refl}
use mathlib.Core.Bool.{false}
use mathlib.Core.Option.{Option, none, some}
use mathlib.Core.List.{List, [], ◌∷◌}
use native.Mathlib.Omega.{arith}
use kafka_reliability.Base.Tests.{if◌then◌else◌}
use kafka_reliability.Base.Lists.{any}
use kafka_reliability.Base.Equality.{Comparable, ◌==◌}

abbrev pub Dict {ℓ κ} : Type ℓ → Type κ → Type (ℓ ⊔ κ)
Dict K V = List (K × V)

module _ {ℓ κ} {K : Type ℓ} {V : Type κ} ⦃e : Comparable K⦄ where
  -- d.get(k)
  unfoldable pub lookup : K → Dict K V → Option V
  lookup k [] = none
  lookup k ((j, v) ∷ d) = if j == k then some v else lookup k d

  -- d[k] = v: an old key keeps its place, a new one goes to the end
  unfoldable pub insert : K → V → Dict K V → Dict K V
  insert k v [] = (k, v) ∷ []
  insert k v ((j, w) ∷ d) = if j == k then (j, v) ∷ d else (j, w) ∷ insert k v d

  -- del d[k], d.pop(k, None)
  unfoldable pub erase : K → Dict K V → Dict K V
  erase k [] = []
  erase k ((j, v) ∷ d) = let rest = erase k d in if j == k then rest else (j, v) ∷ rest

  pub lookup-insert :
      (k j : K) (v : V) (d : Dict K V)
      → lookup j (insert k v d) ≡ (if k == j then some v else lookup j d)
  unfolding lookup insert
  lookup-insert k j v [] = refl
  lookup-insert k j v ((i, w) ∷ d) =
      ground (arith, e.equals_iff k j, e.equals_iff i k, e.equals_iff i j, lookup-insert k j v d)

  pub lookup-erase :
      (k j : K) (d : Dict K V) → lookup j (erase k d) ≡ (if k == j then none else lookup j d)
  unfolding lookup erase
  lookup-erase k j [] = ground arith
  lookup-erase k j ((i, w) ∷ d) =
      ground (arith, e.equals_iff k j, e.equals_iff i k, e.equals_iff i j, lookup-erase k j d)

  -- No key stands twice.
  abbrev pub Distinct : Dict K V → Type κ
  Distinct [] = Unit
  Distinct ((k, v) ∷ d) = (lookup k d ≡ none) × Distinct d

  pub insert-Distinct : (k : K) (v : V) (d : Dict K V) → Distinct d → Distinct (insert k v d)
  unfolding insert lookup
  insert-Distinct k v [] h = (refl, tt)
  insert-Distinct k v ((j, w) ∷ d) h =
      ground (
        arith,
        lookup-insert k j v d,
        e.equals_iff k j,
        e.equals_iff j k,
        insert-Distinct k v d h.1,
      )

  pub erase-Distinct : (k : K) (d : Dict K V) → Distinct d → Distinct (erase k d)
  unfolding erase
  erase-Distinct k [] h = tt
  erase-Distinct k ((j, w) ∷ d) h = ground (arith, lookup-erase k j d, erase-Distinct k d h.1)

  -- del d[k] for each k of a list
  unfoldable pub erase_all : List K → Dict K V → Dict K V
  erase_all [] d = d
  erase_all (k ∷ ks) d = erase_all ks (erase k d)

  pub erase_all-Distinct : (ks : List K) (d : Dict K V) → Distinct d → Distinct (erase_all ks d)
  unfolding erase_all
  erase_all-Distinct [] d h = h
  erase_all-Distinct (k ∷ ks) d h = erase_all-Distinct ks (erase k d) (erase-Distinct k d h)

  pub lookup-erase_all :
      (ks : List K) (j : K) (d : Dict K V)
      → lookup j (erase_all ks d) ≡ (if any (λ k. k == j) ks then none else lookup j d)
  unfolding erase_all
  lookup-erase_all [] j d = refl
  lookup-erase_all (k ∷ ks) j d =
      ground (arith, lookup-erase_all ks j (erase k d), lookup-erase k j d)

  pub erase_absent : (k : K) (d : Dict K V) → lookup k d ≡ none → erase k d ≡ d
  unfolding lookup erase
  erase_absent k [] h = refl
  erase_absent k ((j, v) ∷ d) h = ground (arith, erase_absent k d)

  pub erase_all-cons :
      (ks : List K) (k : K) (v : V) (d : Dict K V)
      → any (λ i. i == k) ks ≡ false
      → erase_all ks ((k, v) ∷ d) ≡ (k, v) ∷ erase_all ks d
  unfolding erase_all erase
  erase_all-cons [] k v d h = refl
  erase_all-cons (i ∷ ks) k v d h =
      ground (arith, e.equals_iff k i, e.equals_iff i k, erase_all-cons ks k v (erase i d))
