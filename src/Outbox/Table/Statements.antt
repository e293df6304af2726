-- ===== src/Outbox/Table/Statements.antt =====
-- The statements of outbox/backends/asyncpg_relay.py: what they keep of the table.
use kafka_reliability.Base.{
  ℕ, Bool, true, false, Bool-cases, inl, inr, Option, none, some, List, [], ◌∷◌, any, ◌==◌, pair_eq,
  nat_eq, if◌then◌else◌,
}
use kafka_reliability.Base.Effect.{Exec, Result, ok, err, continue}
use kafka_reliability.Core.Error.{Error}
use kafka_reliability.Base.Int.{ℤ, int_eq}
use kafka_reliability.Outbox.Relay.Passes.{WhenOk}
use kafka_reliability.Outbox.Table.{
  LockId, Row, Session, Fate, served, lost, lost_after, call, call_by, acquire_leadership,
  release_leadership, stats, remember, try_lock, holds, release_held, quietly, unlock,
}

-- What holds of the table before a statement holds after it, whatever becomes of the connection.
module _ (R : List Row → Type 0) where
  pub call_by-rows :
      {A : Type 0} (op : Session → A × Session) (fates : List Fate) (s : Session)
      → ((t : Session) → R t.rows → R (op t).1.rows)
      → R s.rows
      → R (call_by op fates s).1.rows
  call_by-rows op [] s keeps h = keeps s h
  call_by-rows op (served ∷ fates) s keeps h = keeps _ h
  call_by-rows op (lost ∷ fates) s keeps h = h
  call_by-rows op (lost_after ∷ fates) s keeps h = keeps _ h

  pub call-rows :
      {A : Type 0} (op : Session → A × Session) (s : Session)
      → ((t : Session) → R t.rows → R (op t).1.rows)
      → R s.rows
      → R (call op s).1.rows
  call-rows op s keeps h = elim (Bool-cases s.closed) [
    | inl closed ↦ rw closed h
    | inr alive ↦ simp alive (call_by-rows op s.fates s keeps h)
  ]

  call_by-reply :
      {A : Type 0} (T : A → Type 0) (op : Session → A × Session) (fates : List Fate) (s : Session)
      → ((t : Session) → R t.rows → T (op t).0)
      → R s.rows
      → WhenOk (λ a t. T a) (call_by op fates s)
  call_by-reply T op [] s told h = told s h
  call_by-reply T op (served ∷ fates) s told h = told _ h
  call_by-reply T op (lost ∷ fates) s told h = tt
  call_by-reply T op (lost_after ∷ fates) s told h = tt

  pub call-reply :
      {A : Type 0} (T : A → Type 0) (op : Session → A × Session) (s : Session)
      → ((t : Session) → R t.rows → T (op t).0)
      → R s.rows
      → WhenOk (λ a t. T a) (call op s)
  call-reply T op s told h = elim (Bool-cases s.closed) [
    | inl closed ↦ rw closed tt
    | inr alive ↦ simp alive (call_by-reply T op s.fates s told h)
  ]

  -- A continuation that leaves the table as it is.
  pub continue-rows :
      {A B : Type 0} (r : Result Error A × Session) (f : A → Exec Error Session B)
      → R r.1.rows
      → ((a : A) (t : Session) → R t.rows → R (f a t).1.rows)
      → R (continue r f).1.rows
  continue-rows (ok a, s) f h keeps = keeps a s h
  continue-rows (err e, s) f h keeps = h

  try_lock-rows : (lock : LockId) (s : Session) → R s.rows → R (try_lock lock s).1.rows
  unfolding try_lock
  try_lock-rows lock s h = elim (Bool-cases (any (λ l. l == lock) s.others)) [
    | inl taken ↦ rw taken h
    | inr free ↦ rw free h
  ]

  remember-rows :
      (lock : LockId) (got : Bool) (s : Session) → R s.rows → R (remember lock got s).1.rows
  unfolding remember
  remember-rows lock true s h = h
  remember-rows lock false s h = h

  pub acquire-rows :
      (key : ℤ) (shard : ℕ) (s : Session) → R s.rows → R (acquire_leadership key shard s).1.rows
  unfolding acquire_leadership
  acquire-rows key shard s h = elim (Bool-cases (holds s.held (key, shard))) [
    | inl leads ↦
        rw leads (elim (Bool-cases s.closed) [ inl closed ↦ rw closed h | inr alive ↦ rw alive h ])
    | inr other ↦ rw other (
        continue-rows (call (try_lock (key, shard)) s) _
          (call-rows _ s (λ t k. try_lock-rows _ t k) h) (remember-rows (key, shard)))
  ]

  if-rows :
      {A : Type 0} (b : Bool) (x y : Result Error A × Session)
      → R x.1.rows
      → R y.1.rows
      → R (if b then x else y).1.rows
  if-rows true x y h k = h
  if-rows false x y h k = k

  release_held-rows : (o : Option LockId) (s : Session) → R s.rows → R (release_held o s).1.rows
  unfolding release_held quietly
  release_held-rows none s h = h
  release_held-rows (some lock) s h =
      if-rows s.closed (ok tt, record s { held = none })
        (quietly (call (λ t. (tt {0}, record t { own = unlock lock t.own })))
          (record s { held = none }))
        h
        (call-rows (λ t. (tt {0}, record t { own = unlock lock t.own })) (record s { held = none })
          (λ t k. k) h)

  pub release-rows : (s : Session) → R s.rows → R (release_leadership s).1.rows
  unfolding release_leadership
  release-rows s h = release_held-rows s.held s h

  pub stats-rows : (s : Session) → R s.rows → R (stats s).1.rows
  unfolding stats
  stats-rows s h = continue-rows (call _ s) _ (call-rows _ s (λ t k. k) h) (λ waiting s₁ h₁.
      continue-rows (call _ s₁) _ (call-rows _ s₁ (λ t k. k) h₁) (λ oldest s₂ h₂.
        continue-rows (call _ s₂) _ (call-rows _ s₂ (λ t k. k) h₂) (λ given_up s₃ h₃. h₃)))
