-- ===== src/Dedup/Connection.antt =====
-- A store behind a connection (dedup/backends/postgres.py, redis.py). A call is one turn: what other
-- clients did to the server's state and its clock before it, and whether it was served or the
-- connection was lost, before the call took effect or after it. The store has a pool, or is given a
-- connection: without either `_target` of postgres.py raises before anything else. Other errors of a
-- client library, which the store does not catch, are left out.
use kafka_reliability.Base.{◌≡◌, refl, List, [], ◌∷◌}
use kafka_reliability.Base.Effect.{Exec, Result, ok, err, continue}
use kafka_reliability.Core.Error.{Error, store_unavailable}

pub data Fate : Type 0 where
  served lost_before lost_after : Fate

pub record Turn (S : Type 0) : Type 0 where
  pub others : S → S
  pub fate : Fate

-- After the turns given, nobody else does anything and every call is served.
pub record Remote (S : Type 0) : Type 0 where
  pub state : S
  pub turns : List (Turn S)

abbrev pub Call : Type 0 → Type 0 → Type 0
Call S A = S → A × S

module _ {S A : Type 0} where
  abbrev answered : List (Turn S) → A × S → Result Error A × Remote S
  answered turns (a, state) = (ok a, record { state = state; turns = turns })

  meet : Fate → List (Turn S) → Call S A → S → Result Error A × Remote S
  meet served turns call state = answered turns (call state)
  meet lost_before turns call state =
      (err store_unavailable, record { state = state; turns = turns })
  meet lost_after turns call state =
      (err store_unavailable, record { state = (call state).1; turns = turns })

  exec_turns : List (Turn S) → Call S A → S → Result Error A × Remote S
  unfolding meet
  exec_turns [] call state = answered [] (call state)
  exec_turns (turn ∷ turns) call state = meet turn.fate turns call (turn.others state)

  -- _exec
  unfoldable pub exec : Call S A → Exec Error (Remote S) A
  unfolding exec_turns
  exec call db = exec_turns db.turns call db.state

-- A call that ends in an answer was served, on some state.
unfoldable pub Served : {S A : Type 0} → (S → A × S) → Result Error A × Remote S → Type 0
Served {S = S} call (ok a, db) = (s : S) × (call s ≡ (a, db.state))
Served call (err e, db) = e ≡ store_unavailable

meet-Served :
    {S A : Type 0} (call : S → A × S) (fate : Fate) (turns : List (Turn S)) (s : S)
    → Served call (meet fate turns call s)
unfolding Served meet
meet-Served call served turns s = (s, refl)
meet-Served call lost_before turns s = refl
meet-Served call lost_after turns s = refl

exec_turns-Served :
    {S A : Type 0} (call : S → A × S) (turns : List (Turn S)) (s : S)
    → Served call (exec_turns turns call s)
unfolding Served exec_turns
exec_turns-Served call [] s = (s, refl)
exec_turns-Served call (turn ∷ turns) s = meet-Served call turn.fate turns (turn.others s)

pub exec-Served : {S A : Type 0} (call : S → A × S) (db : Remote S) → Served call (exec call db)
unfolding Served exec
exec-Served call db = exec_turns-Served call db.turns db.state

-- What holds of an answered call's continuation, and of a lost connection, holds of the whole.
pub Served-continue :
    {S A B : Type 0} (P : Result Error B × Remote S → Type 0) (call : S → A × S)
    (p : Result Error A × Remote S) (f : A → Remote S → Result Error B × Remote S)
    → Served call p
    → ((a : A) (db : Remote S) (s : S) → call s ≡ (a, db.state) → P (f a db))
    → ((db : Remote S) → P (err store_unavailable, db))
    → P (continue p f)
unfolding Served
Served-continue P call (ok a, db) f (s, h) k l = k a db s h
Served-continue P call (err e, db) f h k l = rw h (l db)
