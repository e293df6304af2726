-- ===== src/Dedup/Memory.antt =====
-- dedup/backends/memory.py: a dict of rows. The clock's current time is a field of the state.
pub mod View
pub mod Sweep
mod Tests
use kafka_reliability.Base.{
  ℕ, ◌+◌, ◌-◌, String, ◌≡◌, refl, Bool, true, false, ◌&&◌, Option, none, some, List, [], ◌∷◌, leb,
  ltb, length, if◌then◌else◌, ◌==◌, string_eq, pair_eq,
}
use kafka_reliability.Base.Dict.{Dict, lookup, insert, erase, erase_all}
use kafka_reliability.Base.Effect.{Exec, Result, ok, err, pure, raise}
use kafka_reliability.Core.Error.{Error, value_error}
use kafka_reliability.Dedup.Store.{ClaimState, ClaimResult, Claim, DedupStore}

abbrev pub Key : Type 0
Key = String × String

pub record Row : Type 0 where
  pub state : ClaimState
  pub expires_at : ℕ

pub record Memory : Type 0 where
  pub now : ℕ
  pub rows : Dict Key Row

abbrev pub is_done_state : ClaimState → Bool
is_done_state ClaimState.done = true
is_done_state ClaimState.in_progress = false

-- The claim of a row that has not expired.
unfoldable pub held : Row → Claim
held row = record {
  result = if is_done_state row.state then ClaimResult.already_done else ClaimResult.in_progress;
  lease_expired = false;
}

unfoldable pub put_row : Key → ClaimState → ℕ → Memory → Memory
put_row k state expires_in s = record s {
  rows = insert k (record { state = state; expires_at = s.now + expires_in }) s.rows;
}

unfoldable pub claim_row : Key → ClaimState → ℕ → Option Row → Exec Error Memory Claim
unfolding put_row held
claim_row k state expires_in none s = (
  ok (record { result = ClaimResult.claimed; lease_expired = false }),
  put_row k state expires_in s,
)
claim_row k state expires_in (some row) s =
    if ltb s.now row.expires_at then (ok (held row), s) else (
      ok (record {
        result = ClaimResult.claimed;
        lease_expired = if is_done_state row.state then false else true;
      }),
      put_row k state expires_in s,
    )

unfoldable pub claim : String → String → ClaimState → ℕ → Bool → Exec Error Memory Claim
unfolding claim_row
claim group key state expires_in conn s =
    claim_row (group, key) state expires_in (lookup (group, key) s.rows) s

unfoldable pub confirm : String → String → ℕ → Exec Error Memory (Unit {0})
unfolding put_row
confirm group key expires_in s = (ok tt, put_row (group, key) ClaimState.done expires_in s)

unfoldable pub release_row : Key → Option Row → Memory → Memory
release_row k none s = s
release_row k (some row) s =
    if is_done_state row.state then s else record s { rows = erase k s.rows }

unfoldable pub release : String → String → Exec Error Memory (Unit {0})
unfolding release_row
release group key s = (ok tt, release_row (group, key) (lookup (group, key) s.rows) s)

unfoldable pub is_live_done : ℕ → Option Row → Bool
is_live_done now none = false
is_live_done now (some row) = is_done_state row.state && ltb now row.expires_at

unfoldable pub is_done : String → String → Exec Error Memory Bool
unfolding is_live_done
is_done group key s = (ok (is_live_done s.now (lookup (group, key) s.rows)), s)

pub in_scope : Option String → String → Bool
in_scope none g = true
in_scope (some group) g = g == group

-- The keys of the expired rows, of one group or of all.
pub doomed : Option String → ℕ → Dict Key Row → List Key
unfolding in_scope
doomed scope now [] = []
doomed scope now ((k, row) ∷ rows) =
    let rest = doomed scope now rows in
    if leb row.expires_at now && in_scope scope k.0 then k ∷ rest else rest

unfoldable pub purge_key : Key → Option Row → Exec Error Memory ℕ
purge_key k none s = (ok 0, s)
purge_key k (some row) s = (ok 1, record s { rows = erase k s.rows })

unfoldable pub purge : Option String → Option String → Exec Error Memory ℕ
unfolding doomed erase_all purge_key
purge (some group) (some key) s = purge_key (group, key) (lookup (group, key) s.rows) s
purge none (some key) s = (err value_error, s)
purge scope none s =
    let ks = doomed scope s.now s.rows in (ok (length ks), record s { rows = erase_all ks s.rows })

abbrev pub memory_store : DedupStore Memory
memory_store = record {
  supports_transactions = false;
  claim = claim;
  confirm = confirm;
  release = release;
  is_done = is_done;
  purge = purge;
}
