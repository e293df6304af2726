-- ===== src/Dedup/Memory/View.antt =====
-- The in-memory store against its contract: a map from keys to live states, in which an expired
-- row does not show.
use kafka_reliability.Base.{
  ℕ, ◌+◌, ◌<◌, String, ◌≡◌, refl, ap, Bool, true, false, Option, none, some, ltb, arith,
  if◌then◌else◌, ◌==◌, string_eq, pair_eq, pair_equals_iff, equals_refl,
}
use kafka_reliability.Base.Dict.{lookup, erase, lookup-insert, lookup-erase}
use kafka_reliability.Base.Effect.{ok}
use kafka_reliability.Dedup.Store.{ClaimState, ClaimResult}
use kafka_reliability.Dedup.Memory.{
  Key, Row, put_row, claim_row, release_row, Memory, claim, confirm, release, is_done,
}

abbrev pub live : ℕ → Option Row → Option ClaimState
live now none = none
live now (some row) = if ltb now row.expires_at then some row.state else none

unfoldable pub view : Memory → Key → Option ClaimState
view s k = live s.now (lookup k s.rows)

-- What the contract answers to a claim, and what a claim leaves.
abbrev pub answer : Option ClaimState → ClaimResult
answer none = ClaimResult.claimed
answer (some ClaimState.done) = ClaimResult.already_done
answer (some ClaimState.in_progress) = ClaimResult.in_progress

abbrev pub after_claim : ClaimState → Option ClaimState → Option ClaimState
after_claim state none = some state
after_claim state (some held) = some held

abbrev pub after_release : Option ClaimState → Option ClaimState
after_release (some ClaimState.done) = some ClaimState.done
after_release _ = none

abbrev pub is_done_view : Option ClaimState → Bool
is_done_view (some ClaimState.done) = true
is_done_view _ = false

-- An unfinished row whose lease has run out.
abbrev pub lapsed : ℕ → Option Row → Bool
lapsed now none = false
lapsed now (some row) =
    if ltb now row.expires_at
    then false
    else elim row.state [ ClaimState.done ↦ false | ClaimState.in_progress ↦ true ]

view-put_row :
    (k j : Key) (state : ClaimState) (expires_in : ℕ) (s : Memory)
    → 0 < expires_in
    → view (put_row k state expires_in s) j ≡ (if k == j then some state else view s j)
unfolding view put_row
view-put_row k j state expires_in s h = simp lookup-insert (ground arith)

view-erase :
    (k j : Key) (s : Memory)
    → view (record s { rows = erase k s.rows }) j ≡ (if k == j then none else view s j)
unfolding view
view-erase k j s = simp lookup-erase (ground arith)

same_key : (k j : Key) (s : Memory) → (k == j) ≡ true → view s k ≡ view s j
same_key k j s h = ap (view s) ((pair_equals_iff k j).0 h)

view-claim_row :
    (k j : Key) (state : ClaimState) (expires_in : ℕ) (s : Memory)
    → 0 < expires_in
    → view (claim_row k state expires_in (lookup k s.rows) s).1 j
      ≡ (if k == j then after_claim state (view s k) else view s j)
unfolding claim_row view
view-claim_row k j state expires_in s h =
    ground (arith, view-put_row k j state expires_in s h, same_key k j s)

view-release_row :
    (k j : Key) (s : Memory)
    → view (release_row k (lookup k s.rows) s) j
      ≡ (if k == j then after_release (view s k) else view s j)
unfolding release_row view
view-release_row k j s = ground (arith, view-erase k j s, same_key k j s)

module _ (group key : String) (s : Memory) where
  -- A claim is answered as a key with that live state is, whatever the claim asks for, and says so if
  -- it takes over a lease that has run out.
  pub claim-answer :
      (state : ClaimState) (expires_in : ℕ) (conn : Bool)
      → (claim group key state expires_in conn s).0
        ≡ ok (record {
          result = answer (view s (group, key));
          lease_expired = lapsed s.now (lookup (group, key) s.rows);
        })
  unfolding claim view
  claim-answer state expires_in conn = ground arith

  -- A claim for a positive time gives a free key the state that it asks for, leaves a live one as it
  -- is, and touches no other key.
  pub view-claim :
      (state : ClaimState) (expires_in : ℕ) (conn : Bool) (j : Key)
      → 0 < expires_in
      → view (claim group key state expires_in conn s).1 j
        ≡ (if (group, key) == j then after_claim state (view s (group, key)) else view s j)
  unfolding claim view
  view-claim state expires_in conn j h = view-claim_row (group, key) j state expires_in s h

  -- A release frees its key unless the key is done, and touches no other.
  pub view-release :
      (j : Key)
      → view (release group key s).1 j
        ≡ (if (group, key) == j then after_release (view s (group, key)) else view s j)
  unfolding release view
  view-release j = view-release_row (group, key) j s

  -- A confirm for a positive time leaves its key done, whatever it was, and touches no other.
  pub view-confirm :
      (expires_in : ℕ) (j : Key)
      → 0 < expires_in
      → view (confirm group key expires_in s).1 j
        ≡ (if (group, key) == j then some ClaimState.done else view s j)
  unfolding confirm
  view-confirm expires_in j h = view-put_row (group, key) j ClaimState.done expires_in s h

  pub is_done-view : is_done group key s ≡ (ok (is_done_view (view s (group, key))), s)
  unfolding is_done view
  is_done-view = ground arith

  pub claim-eq :
      (state : ClaimState) (expires_in : ℕ) (conn : Bool)
      → claim group key state expires_in conn s ≡ (
        ok (record {
          result = answer (view s (group, key));
          lease_expired = lapsed s.now (lookup (group, key) s.rows);
        }),
        (claim group key state expires_in conn s).1,
      )
  claim-eq state expires_in conn =
      ap (λ a. (a, (claim group key state expires_in conn s).1))
        (claim-answer state expires_in conn)

  pub release-ok : (release group key s).0 ≡ ok tt
  unfolding release
  release-ok = refl

  pub confirm-ok : (expires_in : ℕ) → (confirm group key expires_in s).0 ≡ ok tt
  unfolding confirm
  confirm-ok expires_in = refl

-- What an operation leaves alone.
module _ (group key : String) (s : Memory) where
  pub claim-held :
      (state : ClaimState) (expires_in : ℕ) (conn : Bool) (held : ClaimState)
      → view s (group, key) ≡ some held
      → (claim group key state expires_in conn s).1 ≡ s
  unfolding claim view
  claim-held state expires_in conn held h = ground arith

  pub now-claim :
      (state : ClaimState) (expires_in : ℕ) (conn : Bool)
      → (claim group key state expires_in conn s).1.now ≡ s.now
  unfolding claim put_row
  now-claim state expires_in conn = ground arith

  pub now-confirm : (expires_in : ℕ) → (confirm group key expires_in s).1.now ≡ s.now
  unfolding confirm put_row
  now-confirm expires_in = refl

  pub now-release : (release group key s).1.now ≡ s.now
  unfolding release
  now-release = ground arith

pub lookup-confirm_self :
    (group key : String) (s : Memory) (expires_in : ℕ)
    → lookup (group, key) (confirm group key expires_in s).1.rows
      ≡ some (record { state = ClaimState.done; expires_at = s.now + expires_in })
unfolding confirm put_row
lookup-confirm_self group key s expires_in = ground (
  arith,
  lookup-insert (group, key) (group, key)
      (record { state = ClaimState.done; expires_at = s.now + expires_in }) s.rows,
  equals_refl group,
  equals_refl key,
)

pub lookup-claim_self :
    (group key : String) (s : Memory) (state : ClaimState) (expires_in : ℕ) (conn : Bool)
    → view s (group, key) ≡ none
    → lookup (group, key) (claim group key state expires_in conn s).1.rows
      ≡ some (record { state = state; expires_at = s.now + expires_in })
unfolding claim put_row view
lookup-claim_self group key s state expires_in conn free = ground (
  arith,
  lookup-insert (group, key) (group, key)
      (record { state = state; expires_at = s.now + expires_in }) s.rows,
  equals_refl group,
  equals_refl key,
)

pub lookup-release_self :
    (group key : String) (s : Memory)
    → view s (group, key) ≡ some ClaimState.in_progress
    → lookup (group, key) (release group key s).1.rows ≡ none
unfolding release view
lookup-release_self group key s held =
    ground
      (arith, lookup-erase (group, key) (group, key) s.rows, equals_refl group, equals_refl key)

-- What an operation does to the row of another key.
module _ (group key : String) (s : Memory) (j : Key) where
  pub lookup-claim_ne :
      (state : ClaimState) (expires_in : ℕ) (conn : Bool)
      → ((group, key) == j) ≡ false
      → lookup j (claim group key state expires_in conn s).1.rows ≡ lookup j s.rows
  unfolding claim put_row
  lookup-claim_ne state expires_in conn h = grind (arith, lookup-insert)

  pub lookup-confirm_ne :
      (expires_in : ℕ)
      → ((group, key) == j) ≡ false
      → lookup j (confirm group key expires_in s).1.rows ≡ lookup j s.rows
  unfolding confirm put_row
  lookup-confirm_ne expires_in h = grind (arith, lookup-insert)

  pub lookup-release_ne :
      ((group, key) == j) ≡ false → lookup j (release group key s).1.rows ≡ lookup j s.rows
  unfolding release
  lookup-release_ne h = grind (arith, lookup-erase)
