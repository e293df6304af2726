-- ===== src/Outbox/Table.antt =====
-- outbox/backends/asyncpg_relay.py: the relay's statements on the outbox table, and the session
-- that holds the advisory lock. The table is a list of rows; `ORDER BY seq` is a stable sort. What
-- happens to each query on the connection is a list of fates, as the network decides: it is served,
-- or the connection is lost before the server ran it, or after.
pub mod Delivered
pub mod Statements
pub mod Claims
pub mod Selection
pub mod Marks
pub mod Healthy
mod Tests
pub mod Contract
use kafka_reliability.Base.{
  ℕ, ◌+◌, ◌-◌, ◌%◌, String, ◌≡◌, refl, Bool, true, false, not, ◌&&◌, ◌||◌, Option, none, some, List,
  [], ◌∷◌, ◌++◌, map, arith, leb, ltb, length, take, keep, any, nat_beq, if◌then◌else◌, ◌==◌,
  nat_eq, string_eq, pair_eq,
}
use kafka_reliability.Base.Dict.{Dict}
use kafka_reliability.Base.Effect.{Exec, Result, ok, err, pure, raise, modify, ◌>>=◌, ◌>>◌}
use kafka_reliability.Core.Error.{Error, store_unavailable, type_error}
use kafka_reliability.Core.Utf8.{Bytes}
use kafka_reliability.Base.Int.{ℤ, int_eq, magnitude}
use kafka_reliability.Outbox.Row.{RelayRow}
use kafka_reliability.Outbox.Relay.{OutboxStats, RelayStore}

pub data Status : Type 0 where
  pending published failed : Status

abbrev pub is_pending : Status → Bool
is_pending pending = true
is_pending _ = false

abbrev pub is_failed : Status → Bool
is_failed failed = true
is_failed _ = false

-- A row: what was written once, and what the relay updates.
pub record Row : Type 0 where
  pub id : String
  pub seq : ℕ
  pub topic : String
  pub aggregateid : String
  pub payload : Bytes
  pub headers : Dict String String
  pub created_at : ℕ
  pub status : Status
  pub published_at : Option ℕ
  pub attempts : ℕ
  pub last_error : Option Error

pub data Fate : Type 0 where
  served lost lost_after : Fate

abbrev pub LockId : Type 0
LockId = ℤ × ℕ

-- `held` is what the store remembers, `own` and `others` the locks on the server.
pub record Session : Type 0 where
  pub rows : List Row
  pub now : ℕ
  pub held : Option LockId
  pub own : List LockId
  pub others : List LockId
  pub closed : Bool
  pub fates : List Fate

abbrev lose : Session → Session
lose s = record s { held = none; own = []; closed = true }

abbrev call_by : {A : Type 0} → (Session → A × Session) → List Fate → Exec Error Session A
call_by op [] s = let (a, s') = op s in (ok a, s')
call_by op (served ∷ fates) s = let (a, s') = op (record s { fates = fates }) in (ok a, s')
call_by op (lost ∷ fates) s = (err store_unavailable, lose (record s { fates = fates }))
call_by op (lost_after ∷ fates) s =
    let (a, s') = op (record s { fates = fates }) in (err store_unavailable, lose s')

-- _check_alive
abbrev check_alive : Exec Error Session (Unit {0})
check_alive s = if s.closed then (err store_unavailable, record s { held = none }) else (ok tt, s)

-- _call
abbrev call : {A : Type 0} → (Session → A × Session) → Exec Error Session A
call op = do check_alive; λ s. call_by op s.fates s

abbrev holds : Option LockId → LockId → Bool
holds none lock = false
holds (some l) lock = l == lock

-- SELECT pg_try_advisory_lock($1, $2)
try_lock : LockId → Session → Bool × Session
try_lock lock s =
    if any (λ l. l == lock) s.others then (false, s) else (true, record s { own = lock ∷ s.own })

remember : LockId → Bool → Exec Error Session Bool
remember lock true = do modify λ s. record s { held = some lock }; pure true
remember lock false = pure false

pub acquire_leadership : ℤ → ℕ → Exec Error Session Bool
unfolding try_lock remember
acquire_leadership key shard s =
    if holds s.held (key, shard)
    then (do check_alive; pure true) s
    else (do got ← call (try_lock (key, shard)); remember (key, shard) got) s

-- pg_advisory_unlock: one of the session's locks of that name
unlock : LockId → List LockId → List LockId
unlock lock [] = []
unlock lock (l ∷ ls) = let rest = l ∷ unlock lock ls in if l == lock then ls else rest

quietly : Exec Error Session (Unit {0}) → Session → Result Error (Unit {0}) × Session
quietly m s = (ok tt, (m s).1)

release_held : Option LockId → Exec Error Session (Unit {0})
release_held none s = (ok tt, s)
release_held (some lock) s =
    if s.closed
    then (ok tt, record s { held = none })
    else quietly (call (λ t. (tt, record t { own = unlock lock t.own }))) (record s { held = none })

pub release_leadership : Exec Error Session (Unit {0})
unfolding release_held unlock quietly
release_leadership s = release_held s.held s

-- ORDER BY seq
pub insert_by_seq : Row → List Row → List Row
insert_by_seq row [] = row ∷ []
insert_by_seq row (r ∷ rows) =
    let later = r ∷ insert_by_seq row rows in if leb row.seq r.seq then row ∷ r ∷ rows else later

unfoldable pub order_by_seq : List Row → List Row
unfolding insert_by_seq
order_by_seq [] = []
order_by_seq (row ∷ rows) = insert_by_seq row (order_by_seq rows)

-- NOT EXISTS (a failed row of the key), which holds of the empty key
unfoldable pub is_blocked : List Row → String → Bool
is_blocked table key =
    not (key == "") && any (λ f. is_failed f.status && f.aggregateid == key) table

unfoldable pub in_shard : (String → ℤ) → ℕ → ℕ → String → Bool
in_shard hash count index key =
    if leb count 1 then true else nat_beq (magnitude (hash key) % count) index

unfoldable pub is_claimable : (String → ℤ) → ℕ → ℕ → List Row → Row → Bool
unfolding is_blocked in_shard
is_claimable hash count index table row =
    is_pending row.status
    && (in_shard hash count index row.aggregateid && not (is_blocked table row.aggregateid))

unfoldable pub claimable : (String → ℤ) → ℕ → ℕ → ℕ → List Row → List Row
claimable hash limit count index table =
    take limit (order_by_seq (keep (is_claimable hash count index table) table))

abbrev pub relay_row : Row → RelayRow
relay_row r = record {
  id = r.id;
  seq = r.seq;
  topic = r.topic;
  aggregateid = r.aggregateid;
  payload = r.payload;
  headers = r.headers;
  attempts = r.attempts;
}

pub claim : (String → ℤ) → ℕ → ℕ → ℕ → Exec Error Session (List RelayRow)
claim hash limit count index =
    call (λ s. (map relay_row (claimable hash limit count index s.rows), s))

-- SET status = 'published', published_at = now(), last_error = NULL
abbrev publish_row : ℕ → Row → Row
publish_row now row = record row { status = published; published_at = some now; last_error = none }

unfoldable pub mark_row : ℕ → List String → Row → Row
mark_row now ids row = if any (λ i. i == row.id) ids then publish_row now row else row

unfoldable pub publish_rows : ℕ → List String → List Row → List Row
publish_rows now ids = map (mark_row now ids)

pub mark_published : List String → Exec Error Session (Unit {0})
mark_published ids = call (λ s. (tt, record s { rows = publish_rows s.now ids s.rows }))

-- SET attempts = attempts + 1, last_error = $2 and, on giving up, status = 'failed'
abbrev fail_row : Error → Bool → Row → Row
fail_row error give_up row = record row {
  attempts = row.attempts + 1;
  last_error = some error;
  status = if give_up then failed else row.status;
}

unfoldable pub note_failure : String → Error → Bool → Row → Row
note_failure id error give_up row = if row.id == id then fail_row error give_up row else row

unfoldable pub fail_rows : String → Error → Bool → List Row → List Row
fail_rows id error give_up = map (note_failure id error give_up)

-- RETURNING attempts, of the row if there is one
attempts_of : String → List Row → Option ℕ
attempts_of id [] = none
attempts_of id (row ∷ rows) = if row.id == id then some row.attempts else attempts_of id rows

abbrev int_of : Option ℕ → Exec Error Session ℕ
int_of none = raise type_error
int_of (some n) = pure n

pub record_failure : String → Error → Bool → Exec Error Session ℕ
unfolding attempts_of
record_failure id error give_up = do
  attempts ← call (λ s.
      let rows = fail_rows id error give_up s.rows in
      (attempts_of id rows, record s { rows = rows }))
  int_of attempts

-- The age of the pending row with the lowest seq.
oldest_age : ℕ → List Row → ℕ
oldest_age now [] = 0
oldest_age now (row ∷ rows) = now - row.created_at

pub stats : Exec Error Session OutboxStats
unfolding oldest_age
stats = do
  waiting ← call (λ s. (length (keep (λ r. is_pending r.status) s.rows), s))
  oldest ← call (λ s. (oldest_age s.now (order_by_seq (keep (λ r. is_pending r.status) s.rows)), s))
  given_up ← call (λ s. (length (keep (λ r. is_failed r.status) s.rows), s))
  pure (record { pending = waiting; oldest_pending_seconds = oldest; failed = given_up })

abbrev pub relay_store : (String → ℤ) → String → RelayStore Session
relay_store hash table = record {
  table = table;
  acquire_leadership = acquire_leadership;
  release_leadership = release_leadership;
  claim = claim hash;
  mark_published = mark_published;
  record_failure = record_failure;
  stats = stats;
}
