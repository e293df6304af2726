-- ===== src/Base/Effect.antt =====
-- Methods that mutate an object and may raise: what was written before a raise stays written.
use mathlib.Core.Path.{◌≡◌, refl, ap}

module _ {ℓ} (E : Type 0) (A : Type ℓ) where
  pub data Result : Type ℓ where
    ok : A → Result
    err : E → Result

abbrev pub Exec : Type 0 → Type 0 → Type 0 → Type 0
Exec E S A = S → Result E A × S

module _ {E S : Type 0} where
  abbrev pub pure : {A : Type 0} → A → Exec E S A
  pure a s = (Result.ok a, s)

  abbrev pub raise : {A : Type 0} → E → Exec E S A
  raise e s = (Result.err e, s)

  abbrev pub modify : (S → S) → Exec E S (Unit {0})
  modify f s = (Result.ok tt, f s)

  abbrev pub lift : {A : Type 0} → Result E A → Exec E S A
  lift r s = (r, s)

module _ {E S A B : Type 0} where
  abbrev pub continue : Result E A × S → (A → Exec E S B) → Result E B × S
  continue (Result.ok a, s) f = f a s
  continue (Result.err e, s) f = (Result.err e, s)

  infixl 5 ◌>>=◌ ◌>>◌
  abbrev pub ◌>>=◌ : Exec E S A → (A → Exec E S B) → Exec E S B
  ◌>>=◌ m f s = continue (m s) f

  abbrev pub ◌>>◌ : Exec E S A → Exec E S B → Exec E S B
  ◌>>◌ m k s = continue (m s) (λ _. k)

  pub bind-ok :
      (m : Exec E S A) (f : A → Exec E S B) (s : S) {a : A} {s' : S}
      → m s ≡ (Result.ok a, s')
      → (m >>= f) s ≡ f a s'
  bind-ok m f s h = ap (λ p. continue p f) h

  pub bind-err :
      (m : Exec E S A) (f : A → Exec E S B) (s : S) {e : E} {s' : S}
      → m s ≡ (Result.err e, s')
      → (m >>= f) s ≡ (Result.err e, s')
  bind-err m f s h = ap (λ p. continue p f) h

module _ {E S A : Type 0} where
  abbrev pub recover : Result E A × S → (E → Exec E S A) → Result E A × S
  recover (Result.ok a, s) h = (Result.ok a, s)
  recover (Result.err e, s) h = h e s

  -- try: m except e: h e
  abbrev pub catch : Exec E S A → (E → Exec E S A) → Exec E S A
  catch m h s = recover (m s) h

  pub catch-ok :
      (m : Exec E S A) (h : E → Exec E S A) (s : S) {a : A} {s' : S}
      → m s ≡ (Result.ok a, s')
      → catch m h s ≡ (Result.ok a, s')
  catch-ok m h s e = ap (λ p. recover p h) e

  pub catch-err :
      (m : Exec E S A) (h : E → Exec E S A) (s : S) {x : E} {s' : S}
      → m s ≡ (Result.err x, s')
      → catch m h s ≡ h x s'
  catch-err m h s e = ap (λ p. recover p h) e

module _ {E S A B : Type 0} where
  pub continue-agrees :
      (p : Result E A × S) (f g : A → Exec E S B)
      → ((a : A) (s : S) → f a s ≡ g a s)
      → continue p f ≡ continue p g
  continue-agrees (Result.ok a, s) f g h = h a s
  continue-agrees (Result.err e, s) f g h = refl

module _ {E S A : Type 0} where
  pub recover-agrees :
      (p : Result E A × S) (f g : E → Exec E S A)
      → ((e : E) (s : S) → f e s ≡ g e s)
      → recover p f ≡ recover p g
  recover-agrees (Result.ok a, s) f g h = refl
  recover-agrees (Result.err e, s) f g h = h e s

-- A result that is returned satisfies P, as does the state with it.
abbrev pub Holds : {E S A : Type 0} → (A → S → Type 0) → Result E A × S → Type 0
Holds P (Result.ok a, s) = P a s
Holds P (Result.err e, s) = Unit

module _ {E S A B : Type 0} (P : A → S → Type 0) (Q : B → S → Type 0) where
  pub Holds-continue :
      (p : Result E A × S) (f : A → Exec E S B)
      → Holds P p
      → ((a : A) (s : S) → P a s → Holds Q (f a s))
      → Holds Q (continue p f)
  Holds-continue (Result.ok a, s) f h k = k a s h
  Holds-continue (Result.err e, s) f h k = tt

module _ {E S A : Type 0} (P : A → S → Type 0) where
  pub Holds-recover :
      (p : Result E A × S) (f : E → Exec E S A)
      → Holds P p
      → ((e : E) (s : S) → Holds P (f e s))
      → Holds P (recover p f)
  Holds-recover (Result.ok a, s) f h k = h
  Holds-recover (Result.err e, s) f h k = k e s

  pub Holds-all : (p : Result E A × S) → ((a : A) (s : S) → P a s) → Holds P p
  Holds-all (Result.ok a, s) h = h a s
  Holds-all (Result.err e, s) h = tt

module _ {E S A B : Type 0} (P : A → S → Type 0) where
  pub continue-agrees_where :
      (p : Result E A × S) (f g : A → Exec E S B)
      → Holds P p
      → ((a : A) (s : S) → P a s → f a s ≡ g a s)
      → continue p f ≡ continue p g
  continue-agrees_where (Result.ok a, s) f g h k = k a s h
  continue-agrees_where (Result.err e, s) f g h k = refl
