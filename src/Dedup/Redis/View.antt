-- ===== src/Dedup/Redis/View.antt =====
-- The Redis store against the contract: undisturbed, its methods act on the live states of the keys
-- as the contract says, and disturbed, a claim's answer fits what the server holds.
use kafka_reliability.Base.{
  ℕ, zero, suc, ◌+◌, ◌<◌, String, ◌≡◌, refl, Bool, true, false, Option, none, some, [], arith,
  if◌then◌else◌, ◌==◌, string_eq, equals_refl,
}
use kafka_reliability.Base.Dict.{lookup, lookup-insert, lookup-erase}
use kafka_reliability.Base.Effect.{Result, ok, err}
use kafka_reliability.Core.Error.{Error, store_unavailable}
use kafka_reliability.Dedup.Store.{ClaimState, ClaimResult, Claim}
use kafka_reliability.Dedup.Memory.View.{answer, after_claim, after_release, is_done_view}
use kafka_reliability.Dedup.Connection.{Remote, exec, exec-Served, Served-continue}
use kafka_reliability.Dedup.Redis.{
  Redis, stored, get, set, set_nx, delete, release_script, redis_key, px_of, claim, confirm,
  release, is_done, is_done_value, attempt, claim_set, answered,
}

-- The live state of a key of the server.
unfoldable pub kept : Redis → String → Option ClaimState
kept s k = stored s.now (lookup k s.entries)

abbrev pub quiet : Redis → Remote Redis
quiet s = record { state = s; turns = [] }

px-positive : (expires_in : ℕ) → 0 < px_of expires_in
unfolding px_of
px-positive expires_in = omega arith

same_key : (k j : String) (s : Redis) → (k == j) ≡ true → kept s k ≡ kept s j
unfolding kept
same_key k j s h = ground (arith, string_eq.equals_iff k j)

kept-set :
    (k j : String) (value : ClaimState) (px : ℕ) (s : Redis)
    → 0 < px
    → kept (set k value px s).1 j ≡ (if k == j then some value else kept s j)
unfolding kept set
kept-set k j value px s h =
    ground (arith, lookup-insert k j (record { value = value; expires_at = s.now + px }) s.entries)

kept-set_nx :
    (k j : String) (value : ClaimState) (px : ℕ) (s : Redis)
    → 0 < px
    → kept (set_nx k value px s).1 j ≡ (if k == j then after_claim value (kept s k) else kept s j)
unfolding kept set_nx
kept-set_nx k j value px s h = ground (
  arith,
  lookup-insert k j (record { value = value; expires_at = s.now + px }) s.entries,
  same_key k j s,
)

kept-release_script :
    (k j : String) (s : Redis)
    → kept (release_script k s).1 j ≡ (if k == j then after_release (kept s k) else kept s j)
unfolding kept release_script delete
kept-release_script k j s = ground (arith, lookup-erase k j s.entries, same_key k j s)

module _ (prefix group key : String) (s : Redis) where
  abbrev k : String
  k = redis_key prefix group key

  claim-quiet :
      (state : ClaimState) (expires_in : ℕ)
      → claim prefix group key state expires_in (quiet s) ≡ (
        ok (record { result = answer (kept s k); lease_expired = false }),
        quiet (set_nx k state (px_of expires_in) s).1,
      )
  unfolding claim exec attempt kept set_nx get
  claim-quiet state expires_in = ground arith

  -- Undisturbed, a claim over Redis is answered as a key with that live state is, never as a takeover,
  -- gives a free key the state that it asks for, and changes no other key.
  pub claim-kept :
      (state : ClaimState) (expires_in : ℕ) (j : String)
      → let p = claim prefix group key state expires_in (quiet s) in
        (p.0 ≡ ok (record { result = answer (kept s k); lease_expired = false }))
        × (kept p.1.state j ≡ (if k == j then after_claim state (kept s k) else kept s j))
  claim-kept state expires_in j =
      rw (claim-quiet state expires_in)
        (refl, kept-set_nx k j state (px_of expires_in) s (px-positive expires_in))

  -- Undisturbed, a confirm over Redis leaves its key done, a release frees its key unless it is done,
  -- both change no other key, and is_done says whether its key is done.
  pub finish-kept :
      (expires_in : ℕ) (j : String)
      → (kept (confirm prefix group key expires_in (quiet s)).1.state j
          ≡ (if k == j then some ClaimState.done else kept s j))
        × (kept (release prefix group key (quiet s)).1.state j
            ≡ (if k == j then after_release (kept s k) else kept s j))
        × (is_done prefix group key (quiet s) ≡ (ok (is_done_view (kept s k)), quiet s))
  unfolding confirm release is_done is_done_value kept exec get
  finish-kept expires_in j = (
    kept-set k j ClaimState.done (px_of expires_in) s (px-positive expires_in),
    kept-release_script k j s,
    ground arith,
  )

-- What the server holds when a claim has been answered.
module _ (k : String) (state : ClaimState) (px : ℕ) where
  abbrev pub Fits : ClaimResult → Redis → Type 0
  Fits ClaimResult.claimed s = kept s k ≡ some state
  Fits ClaimResult.already_done s = kept s k ≡ some ClaimState.done
  Fits ClaimResult.in_progress s = kept s k ≡ some ClaimState.in_progress

  abbrev pub Settles : Result Error Claim × Remote Redis → Type 0
  Settles (ok c, server) = Fits c.result server.state
  Settles (err e, server) = e ≡ store_unavailable

  set_nx-Fits :
      (s t : Redis) → 0 < px → set_nx k state px s ≡ (true, t) → Fits ClaimResult.claimed t
  unfolding kept set_nx
  set_nx-Fits s t positive h = ground (
    arith,
    lookup-insert k k (record { value = state; expires_at = s.now + px }) s.entries,
    equals_refl k,
  )

  answered-Fits :
      (live : Option ClaimState) (again : Remote Redis → Result Error Claim × Remote Redis)
      (server : Remote Redis) (s : Redis)
      → get k s ≡ (live, server.state)
      → Settles (again server)
      → Settles (answered live again server)
  unfolding answered get kept
  answered-Fits none again server s h j = j
  answered-Fits (some ClaimState.done) again server s h j = ground (arith, h)
  answered-Fits (some ClaimState.in_progress) again server s h j = ground (arith, h)

  claim_set-Fits :
      (got : Bool) (again : Remote Redis → Result Error Claim × Remote Redis)
      (server : Remote Redis) (s : Redis)
      → 0 < px
      → set_nx k state px s ≡ (got, server.state)
      → ((server : Remote Redis) → Settles (again server))
      → Settles (claim_set k got again server)
  unfolding claim_set
  claim_set-Fits true again server s positive h j = set_nx-Fits s server.state positive h
  claim_set-Fits false again server s positive h j =
      Served-continue Settles (get k) (exec (get k) server) _ (exec-Served (get k) server)
        (λ live server' s' h'. answered-Fits live again server' s' h' (j server')) (λ server'. refl)

  attempt-Settles : (n : ℕ) (server : Remote Redis) → 0 < px → Settles (attempt k state px n server)
  unfolding attempt
  attempt-Settles zero server positive = refl
  attempt-Settles (suc n) server positive =
      Served-continue Settles (set_nx k state px) (exec (set_nx k state px) server) _
        (exec-Served (set_nx k state px) server)
        (λ got server' s' h'.
          claim_set-Fits got _ server' s' positive h' (λ x. attempt-Settles n x positive))
        (λ server'. refl)

-- Whatever other clients do between the commands of a claim over Redis, and whenever the connection is
-- lost: a claim that is granted leaves its key live in the state it asked for, one that is answered
-- done or in progress leaves it live in that state, and the only error is that the store is
-- unavailable.
pub redis_claim-Settles :
    (prefix group key : String) (state : ClaimState) (expires_in : ℕ) (server : Remote Redis)
    → Settles
        (redis_key prefix group key)
        state
        (px_of expires_in)
        (claim prefix group key state expires_in server)
unfolding claim
redis_claim-Settles prefix group key state expires_in server =
    attempt-Settles (redis_key prefix group key) state (px_of expires_in) 3 server
      (px-positive expires_in)
