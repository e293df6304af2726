-- ===== src/Dedup/Postgres/Contention.antt =====
-- A claim while other connections change the table between its statements and may cut it off.
use kafka_reliability.Base.{
  ℕ, zero, suc, String, ◌≡◌, refl, Bool, true, false, Option, none, some, arith, string_eq, pair_eq,
  equals_refl,
}
use kafka_reliability.Base.Dict.{lookup, lookup-insert}
use kafka_reliability.Base.Effect.{Result, ok, err}
use kafka_reliability.Core.Error.{Error, store_unavailable}
use kafka_reliability.Dedup.Store.{ClaimState, ClaimResult, Claim}
use kafka_reliability.Dedup.Memory.{Key, Memory}
use kafka_reliability.Dedup.Statements.{insert_row, update_row}
use kafka_reliability.Dedup.Connection.{exec, exec-Served, Served-continue}
use kafka_reliability.Dedup.Postgres.{
  Database, new_row, insert_returning, update_returning, select_state, state_of, settled,
  taken_over, inserted, attempt, claim,
}

module _ (k : Key) (state : ClaimState) (expires_in : ℕ) where
  -- What the table holds when a claim has been answered.
  abbrev pub Fits : ClaimResult → Memory → Type 0
  Fits ClaimResult.claimed s = lookup k s.rows ≡ some (new_row k state expires_in s)
  Fits ClaimResult.already_done s = state_of (lookup k s.rows) ≡ some ClaimState.done
  Fits ClaimResult.in_progress s = state_of (lookup k s.rows) ≡ some ClaimState.in_progress

  abbrev pub Settles : Result Error Claim × Database → Type 0
  Settles (ok c, db) = Fits c.result db.state
  Settles (err e, db) = e ≡ store_unavailable

  insert-Fits :
      (s t : Memory)
      → insert_returning k state expires_in s ≡ (true, t)
      → Fits ClaimResult.claimed t
  unfolding insert_returning insert_row
  insert-Fits s t h = ground (
    arith,
    lookup-insert k k (new_row k state expires_in s) s.rows,
    equals_refl k.0,
    equals_refl k.1,
  )

  update-Fits :
      (s t : Memory) (old : ClaimState)
      → update_returning k state expires_in s ≡ (some old, t)
      → Fits ClaimResult.claimed t
  unfolding update_returning update_row
  update-Fits s t old h = ground (
    arith,
    lookup-insert k k (new_row k state expires_in s) s.rows,
    equals_refl k.0,
    equals_refl k.1,
  )

  settled-Fits :
      (live : Option ClaimState) (again : Database → Result Error Claim × Database) (db : Database)
      (s : Memory)
      → select_state k state expires_in s ≡ (live, db.state)
      → Settles (again db)
      → Settles (settled live again db)
  unfolding select_state settled
  settled-Fits none again db s h j = j
  settled-Fits (some ClaimState.done) again db s h j = ground (arith, h)
  settled-Fits (some ClaimState.in_progress) again db s h j = ground (arith, h)

  taken_over-Fits :
      (old : Option ClaimState) (again : Database → Result Error Claim × Database) (db : Database)
      (s : Memory)
      → update_returning k state expires_in s ≡ (old, db.state)
      → ((db : Database) → Settles (again db))
      → Settles (taken_over k state expires_in old again db)
  unfolding taken_over
  taken_over-Fits (some old) again db s h j = update-Fits s db.state old h
  taken_over-Fits none again db s h j =
      Served-continue Settles (select_state k state expires_in)
        (exec (select_state k state expires_in) db) _
        (exec-Served (select_state k state expires_in) db)
        (λ live db' s' h'. settled-Fits live again db' s' h' (j db')) (λ db'. refl)

  inserted-Fits :
      (got : Bool) (again : Database → Result Error Claim × Database) (db : Database) (s : Memory)
      → insert_returning k state expires_in s ≡ (got, db.state)
      → ((db : Database) → Settles (again db))
      → Settles (inserted k state expires_in got again db)
  unfolding inserted
  inserted-Fits true again db s h j = insert-Fits s db.state h
  inserted-Fits false again db s h j =
      Served-continue Settles (update_returning k state expires_in)
        (exec (update_returning k state expires_in) db) _
        (exec-Served (update_returning k state expires_in) db)
        (λ old db' s' h'. taken_over-Fits old again db' s' h' j) (λ db'. refl)

  attempt-Settles : (n : ℕ) (db : Database) → Settles (attempt k state expires_in n db)
  unfolding attempt
  attempt-Settles zero db = refl
  attempt-Settles (suc n) db =
      Served-continue Settles (insert_returning k state expires_in)
        (exec (insert_returning k state expires_in) db) _
        (exec-Served (insert_returning k state expires_in) db)
        (λ got db' s' h'. inserted-Fits got _ db' s' h' (attempt-Settles n)) (λ db'. refl)

-- Whatever other connections do to the table between the statements of a claim, and whenever the
-- connection is lost: a claim that is granted leaves its own row under the key, one that is answered
-- done or in progress leaves a row in that state, and the only error is that the store is unavailable.
pub claim-Settles :
    (group key : String) (state : ClaimState) (expires_in : ℕ) (db : Database)
    → Settles (group, key) state expires_in (claim group key state expires_in db)
unfolding claim
claim-Settles group key state expires_in db = attempt-Settles (group, key) state expires_in 3 db
