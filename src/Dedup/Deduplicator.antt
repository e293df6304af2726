-- ===== src/Dedup/Deduplicator.antt =====
-- dedup/deduplicator.py, over any store. The context manager `process` is two functions, as other
-- tasks run between them: `enter` runs up to the `yield`, and `leave` from there, given how the
-- handler's block ended. `consume` is the use that the module's docstring shows.
pub mod Enter
pub mod Outcomes
pub mod Once
pub mod Unavailable
pub mod Agreeing
pub mod Owning
pub mod Exchange
pub mod Replay
mod Tests
use Prim.Native.String.{◌++◌ as concat}
use kafka_reliability.Base.{
  ℕ, String, ◌≡◌, refl, Bool, true, false, ◌&&◌, ◌||◌, not, Option, none, some, List, [], ◌∷◌, ◌++◌,
  leb, if◌then◌else◌, ◌==◌, string_eq,
}
use kafka_reliability.Base.Effect.{
  Exec, Result, ok, err, pure, raise, lift, modify, catch, ◌>>=◌, ◌>>◌,
}
use kafka_reliability.Core.Error.{Error, configuration, store_unavailable}
use kafka_reliability.Core.Metrics.{
  Event, counter, log_warning, log_error, dedup_claimed, dedup_duplicate, dedup_in_progress,
  dedup_lease_expired, dedup_store_errors,
}
use kafka_reliability.Core.Message.{Record, get_header, replay_id}
use kafka_reliability.Core.Utf8.{Bytes, decode_replace}
use kafka_reliability.Dedup.Store.{ClaimState, ClaimResult, Claim, DedupStore}

pub data Mode : Type 0 where
  transactional claim_confirm record_after : Mode

pub data ReplayPolicy : Type 0 where
  suppress bypass namespace : ReplayPolicy

pub data OnStoreUnavailable : Type 0 where
  fail_closed fail_open : OnStoreUnavailable

abbrev pub carries_on : OnStoreUnavailable → Bool
carries_on fail_closed = false
carries_on fail_open = true

-- `none` as the result: deduplication was bypassed.
pub record Decision : Type 0 where
  pub result : Option ClaimResult
  pub reason : String

-- bool(decision): run the handler
abbrev pub runs : Option ClaimResult → Bool
runs none = true
runs (some ClaimResult.claimed) = true
runs (some ClaimResult.already_done) = false
runs (some ClaimResult.in_progress) = false

abbrev pub commit_offset : Option ClaimResult → Bool
commit_offset (some ClaimResult.in_progress) = false
commit_offset (some ClaimResult.already_done) = true
commit_offset (some ClaimResult.claimed) = true
commit_offset none = true

pub record Deduplicator : Type 0 where
  pub group : String
  pub key : Record → Result Error String
  pub ttl : ℕ
  pub mode : Option Mode
  pub lease : ℕ
  pub replay_policy : ReplayPolicy
  pub on_unavailable : OnStoreUnavailable

abbrev is_transactional : Option Mode → Bool
is_transactional (some transactional) = true
is_transactional _ = false

-- __init__: the three options that are not numbers are of their types already.
pub init : {S : Type 0} → DedupStore S → Deduplicator → Result Error Deduplicator
init st self =
    if self.group == ""
    then err configuration
    else if leb self.ttl 0 || leb self.lease 0
    then err configuration
    else if is_transactional self.mode && not st.supports_transactions
    then err configuration
    else ok self

-- The store, what was reported so far, and the records whose handler has run.
pub record World (S : Type 0) : Type 0 where
  pub store : S
  pub events : List Event
  pub handled : List Record

-- A block that waits at its `yield`.
pub data Frame : Type 0 where
  passing : Decision → Frame
  owning : Mode → String → String → Frame

abbrev pub decision : Frame → Decision
decision (passing d) = d
decision (owning mode group key) = record { result = some ClaimResult.claimed; reason = "" }

module _ {S : Type 0} where
  abbrev emit : Event → Exec Error (World S) (Unit {0})
  emit e = modify λ w. record w { events = w.events ++ e ∷ [] }

  abbrev count : String → String → Exec Error (World S) (Unit {0})
  count name group = emit (counter name (("group", group) ∷ []))

  -- await self._store.op(...)
  abbrev with_store : {A : Type 0} → World S → Result Error A × S → Result Error A × World S
  with_store w (r, s) = (r, record w { store = s })

  abbrev on_store : {A : Type 0} → Exec Error S A → Exec Error (World S) A
  on_store op w = with_store w (op w.store)

  abbrev when : Bool → Exec Error (World S) (Unit {0}) → Exec Error (World S) (Unit {0})
  when b m = if b then m else pure tt

-- except StoreUnavailableError
abbrev on_unavailable : {A B : Type 0} → Error → (A → B) → (A → B) → A → B
on_unavailable store_unavailable m other w = m w
on_unavailable _ m other w = other w

-- self._mode, or the one that `conn` implies
unfoldable pub chosen_mode : Bool → Option Mode → Mode
chosen_mode conn (some mode) = mode
chosen_mode true none = transactional
chosen_mode false none = claim_confirm

module _ {S : Type 0} (st : DedupStore S) (self : Deduplicator) where
  check_mode : Bool → Mode → Result Error Mode
  check_mode conn transactional =
      if not conn
      then err configuration
      else if not st.supports_transactions
      then err configuration
      else ok transactional
  check_mode conn mode = ok mode

  pub resolve_mode : Bool → Result Error Mode
  unfolding chosen_mode check_mode
  resolve_mode conn = check_mode conn (chosen_mode conn self.mode)

  result_counter : ClaimResult → String
  result_counter ClaimResult.claimed = dedup_claimed
  result_counter ClaimResult.already_done = dedup_duplicate
  result_counter ClaimResult.in_progress = dedup_in_progress

  -- The reports and the decision after `claim`.
  pub claimed_as : Claim → Exec Error (World S) Decision
  unfolding result_counter
  claimed_as claim = do
    when claim.lease_expired (do count dedup_lease_expired self.group; emit log_warning)
    count (result_counter claim.result) self.group
    pure (record { result = some claim.result; reason = "" })

  seen_as : Bool → Exec Error (World S) Decision
  seen_as true = do
    count dedup_duplicate self.group
    pure (record { result = some ClaimResult.already_done; reason = "" })
  seen_as false = pure (record { result = some ClaimResult.claimed; reason = "" })

  -- _enter
  ask : Mode → String → String → Bool → Exec Error (World S) Decision
  unfolding claimed_as seen_as
  ask record_after group key conn = do seen ← on_store (st.is_done group key); seen_as seen
  ask transactional group key conn = do
    claim ← on_store (st.claim group key ClaimState.done self.ttl conn)
    claimed_as claim
  ask claim_confirm group key conn = do
    claim ← on_store (st.claim group key ClaimState.in_progress self.lease false)
    claimed_as claim

  -- Counts and logs a failure of the store; true if the policy is to go on.
  store_failed : String → Exec Error (World S) Bool
  store_failed kind = do
    emit (counter dedup_store_errors (("group", self.group) ∷ ("kind", kind) ∷ []))
    emit log_error
    pure (carries_on self.on_unavailable)

  -- What `process` suspends with for a decision of `ask`.
  pub frame_of : Mode → String → String → Option ClaimResult → Decision → Frame
  frame_of mode group key (some ClaimResult.claimed) d = owning mode group key
  frame_of mode group key _ d = passing d

  give_up_or_pass : Error → Bool → Exec Error (World S) Frame
  give_up_or_pass e false = raise e
  give_up_or_pass e true = pure (
      passing
        (record { result = none; reason = "store unavailable, on_store_unavailable=fail_open" }))

  pub claim_frame : Mode → String → String → Bool → Exec Error (World S) Frame
  unfolding ask store_failed frame_of give_up_or_pass
  claim_frame mode group key conn =
      catch (do d ← ask mode group key conn; pure (frame_of mode group key d.result d))
        λ e.
          on_unavailable e (do carry_on ← store_failed "claim"; give_up_or_pass e carry_on)
            (raise e)

  namespaced : Bytes → String
  namespaced id = concat self.group (concat "\u{1f}replay:" (decode_replace id))

  replay_frame : ReplayPolicy → Mode → String → Option Bytes → Bool → Exec Error (World S) Frame
  unfolding claim_frame namespaced
  replay_frame bypass mode key (some id) conn =
      pure (passing (record { result = none; reason = "replay_policy=bypass" }))
  replay_frame namespace mode key (some id) conn = claim_frame mode (namespaced id) key conn
  replay_frame policy mode key id conn = claim_frame mode self.group key conn

  -- `process` up to its `yield`
  pub enter : Record → Bool → Exec Error (World S) Frame
  unfolding resolve_mode replay_frame
  enter r conn = do
    mode ← lift (resolve_mode conn)
    key ← lift (self.key r)
    replay_frame self.replay_policy mode key (get_header r.headers replay_id) conn

  -- _finish
  finish : String → Exec Error (World S) (Unit {0}) → Exec Error (World S) (Unit {0})
  unfolding store_failed
  finish kind op = catch op λ e.
      on_unavailable e (do carry_on ← store_failed kind; if carry_on then pure tt else raise e)
        (raise e)

  -- _safely
  safely : String → Exec Error (World S) (Unit {0}) → Exec Error (World S) (Unit {0})
  unfolding store_failed
  safely kind op = catch op λ e. on_unavailable e (do store_failed kind; pure tt) (raise e)

  recorded_as : ClaimResult → Exec Error (World S) (Unit {0})
  recorded_as ClaimResult.claimed = count dedup_claimed self.group
  recorded_as _ = do count dedup_duplicate self.group; emit log_warning

  -- _record_after
  pub record_done : String → String → Exec Error (World S) (Unit {0})
  unfolding recorded_as
  record_done group key = do
    claim ← on_store (st.claim group key ClaimState.done self.ttl false)
    recorded_as claim.result

  -- `process` from its `yield`, after the handler's exception or none
  pub leave : Frame → Option Error → Exec Error (World S) (Unit {0})
  unfolding finish safely record_done
  leave (passing d) none = pure tt
  leave (passing d) (some e) = raise e
  leave (owning claim_confirm group key) (some e) = do
    safely "release" (on_store (st.release group key))
    raise e
  leave (owning mode group key) (some e) = raise e
  leave (owning claim_confirm group key) none =
      finish "confirm" (on_store (st.confirm group key self.ttl))
  leave (owning record_after group key) none = finish "record" (record_done group key)
  leave (owning transactional group key) none = pure tt

  handle : Record → Exec Error (World S) (Unit {0})
  handle r = modify λ w. record w { handled = w.handled ++ r ∷ [] }

  -- `if d: await handle(r)`, where the handler ends in `outcome`, and the end of the block. The
  -- result is `d.commit_offset`.
  pub block : Record → Option Error → Frame → Exec Error (World S) Bool
  unfolding leave handle
  block r outcome frame = do
    when (runs (decision frame).result) (handle r)
    leave frame (if runs (decision frame).result then outcome else none)
    pure (commit_offset (decision frame).result)

  -- `async with self.process(r, conn=conn) as d` round that block
  pub consume : Record → Bool → Option Error → Exec Error (World S) Bool
  unfolding enter block
  consume r conn outcome = do frame ← enter r conn; block r outcome frame
