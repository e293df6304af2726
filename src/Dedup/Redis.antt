-- ===== src/Dedup/Redis.antt =====
-- dedup/backends/redis.py: the methods, over the commands of a Redis server behind a connection.
-- Redis keeps time in milliseconds, and a key whose time has come does not exist.
pub mod Keys
pub mod View
mod Tests
use Prim.Native.String.{◌++◌ as concat, count}
use kafka_reliability.Base.{
  ℕ, zero, suc, ◌+◌, ◌*◌, ◌/◌, max, String, Bool, true, false, Option, none, some, ltb,
  if◌then◌else◌, ◌==◌, string_eq,
}
use kafka_reliability.Base.Decimal.{decimal}
use kafka_reliability.Base.Float.{double}
use kafka_reliability.Base.Dict.{Dict, lookup, insert, erase}
use kafka_reliability.Base.Effect.{Exec, Result, ok, err, pure, raise, ◌>>=◌, ◌>>◌}
use kafka_reliability.Core.Error.{Error, configuration, store_unavailable}
use kafka_reliability.Dedup.Store.{ClaimState, ClaimResult, Claim}
use kafka_reliability.Dedup.Connection.{Call, Remote, exec}

pub record Entry : Type 0 where
  pub value : ClaimState
  pub expires_at : ℕ

pub record Redis : Type 0 where
  pub now : ℕ
  pub entries : Dict String Entry

abbrev Command : Type 0 → Type 0
Command A = Call Redis A

abbrev Server : Type 0
Server = Remote Redis

-- What is stored under a key that has not expired. The store writes the two states and no other value.
abbrev pub stored : ℕ → Option Entry → Option ClaimState
stored now none = none
stored now (some entry) = if ltb now entry.expires_at then some entry.value else none

unfoldable pub get : String → Command (Option ClaimState)
get k s = (stored s.now (lookup k s.entries), s)

abbrev put : String → ClaimState → ℕ → Redis → Redis
put k value px s = record s {
  entries = insert k (record { value = value; expires_at = s.now + px }) s.entries;
}

unfoldable pub set : String → ClaimState → ℕ → Command (Unit {0})
set k value px s = (tt, put k value px s)

set_absent : String → ClaimState → ℕ → Option ClaimState → Command Bool
set_absent k value px none s = (true, put k value px s)
set_absent k value px (some held) s = (false, s)

-- SET k value NX PX px
unfoldable pub set_nx : String → ClaimState → ℕ → Command Bool
unfolding set_absent
set_nx k value px s = set_absent k value px (stored s.now (lookup k s.entries)) s

delete_found : String → Option ClaimState → Command ℕ
delete_found k none s = (0, s)
delete_found k (some held) s = (1, record s { entries = erase k s.entries })

unfoldable pub delete : String → Command ℕ
unfolding delete_found
delete k s = delete_found k (stored s.now (lookup k s.entries)) s

delete_unfinished : String → Option ClaimState → Command ℕ
unfolding delete
delete_unfinished k (some ClaimState.in_progress) s = delete k s
delete_unfinished k _ s = (0, s)

-- _RELEASE_LUA
unfoldable pub release_script : String → Command ℕ
unfolding delete_unfinished
release_script k s = delete_unfinished k (stored s.now (lookup k s.entries)) s

-- _key
unfoldable pub redis_key : String → String → String → String
redis_key prefix group key =
    concat prefix
      (concat ":" (concat (decimal (count group)) (concat ":" (concat group (concat ":" key)))))

-- max(1, int(expires_in.total_seconds() * 1000))
-- max(1, int(expires_in.total_seconds() * 1000)), a division and a product of floats
unfoldable pub px_of : ℕ → ℕ
unfolding double
px_of expires_in =
    let (n, d) = double expires_in 1000000 in let (m, e) = double (n * 1000) d in max 1 (m / e)

answered : Option ClaimState → Exec Error Server Claim → Exec Error Server Claim
answered (some ClaimState.done) again =
    pure (record { result = ClaimResult.already_done; lease_expired = false })
answered (some ClaimState.in_progress) again =
    pure (record { result = ClaimResult.in_progress; lease_expired = false })
answered none again = again

claim_set : String → Bool → Exec Error Server Claim → Exec Error Server Claim
unfolding answered
claim_set k true again = pure (record { result = ClaimResult.claimed; lease_expired = false })
claim_set k false again = do live ← exec (get k); answered live again

-- for _ in range(attempts)
attempt : String → ClaimState → ℕ → ℕ → Exec Error Server Claim
unfolding claim_set
attempt k state px zero = raise store_unavailable
attempt k state px (suc n) =
    let again = attempt k state px n in do got ← exec (set_nx k state px); claim_set k got again

module _ (prefix : String) where
  pub claim : String → String → ClaimState → ℕ → Exec Error Server Claim
  unfolding attempt
  claim group key state expires_in = attempt (redis_key prefix group key) state (px_of expires_in) 3

  pub confirm : String → String → ℕ → Exec Error Server (Unit {0})
  confirm group key expires_in =
      exec (set (redis_key prefix group key) ClaimState.done (px_of expires_in))

  pub release : String → String → Exec Error Server (Unit {0})
  release group key = do exec (release_script (redis_key prefix group key)); pure tt

  is_done_value : Option ClaimState → Bool
  is_done_value (some ClaimState.done) = true
  is_done_value _ = false

  pub is_done : String → String → Exec Error Server Bool
  unfolding is_done_value
  is_done group key = do live ← exec (get (redis_key prefix group key)); pure (is_done_value live)

  pub purge : Option String → Option String → Exec Error Server ℕ
  purge scope none = pure 0
  purge none (some key) = raise configuration
  purge (some group) (some key) = exec (delete (redis_key prefix group key))
