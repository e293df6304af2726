-- ===== src/Dedup/Deduplicator/Agreeing.antt =====
-- Two stores over the same state that answer claims and questions alike: the deduplicator up to its
-- handler does the same over both.
use kafka_reliability.Base.{
  ℕ, String, ◌≡◌, refl, Bool, true, false, Option, none, some, arith, string_eq, pair_eq,
}
use kafka_reliability.Base.Effect.{continue-agrees}
use kafka_reliability.Core.Error.{Error}
use kafka_reliability.Core.Message.{Record, get_header, replay_id}
use kafka_reliability.Core.Utf8.{Bytes}
use kafka_reliability.Dedup.Store.{ClaimState, ClaimResult, Claim, DedupStore}
use kafka_reliability.Dedup.Deduplicator.{
  Deduplicator, World, Decision, Mode, transactional, claim_confirm, record_after, ReplayPolicy,
  suppress, enter, ask, claimed_as, seen_as, result_counter, frame_of, give_up_or_pass, claim_frame,
  replay_frame, resolve_mode, chosen_mode, check_mode, with_store, record_done, recorded_as,
  namespaced,
}

module _ {S : Type 0} (st st' : DedupStore S) (self : Deduplicator)
    (claims : (group key : String) (state : ClaimState) (expires_in : ℕ) (conn : Bool) (s : S)
      → st.claim group key state expires_in conn s ≡ st'.claim group key state expires_in conn s)
    (seens : (group key : String) (s : S) → st.is_done group key s ≡ st'.is_done group key s) where
  result_counter-agrees : (c : ClaimResult) → result_counter st self c ≡ result_counter st' self c
  unfolding result_counter
  result_counter-agrees ClaimResult.claimed = refl
  result_counter-agrees ClaimResult.already_done = refl
  result_counter-agrees ClaimResult.in_progress = refl

  claimed_as-agrees : (c : Claim) (w : World S) → claimed_as st self c w ≡ claimed_as st' self c w
  unfolding claimed_as
  claimed_as-agrees c w = rw (result_counter-agrees c.result) refl

  seen_as-agrees : (seen : Bool) (w : World S) → seen_as st self seen w ≡ seen_as st' self seen w
  unfolding seen_as
  seen_as-agrees true w = refl
  seen_as-agrees false w = refl

  ask-agrees :
      (mode : Mode) (group key : String) (conn : Bool) (w : World S)
      → ask st self mode group key conn w ≡ ask st' self mode group key conn w
  unfolding ask
  ask-agrees record_after group key conn w =
      rw (seens group key w.store)
        (continue-agrees (with_store w (st'.is_done group key w.store)) _ _ seen_as-agrees)
  ask-agrees transactional group key conn w =
      rw (claims group key ClaimState.done self.ttl conn w.store) (
        continue-agrees (with_store w (st'.claim group key ClaimState.done self.ttl conn w.store)) _
          _ claimed_as-agrees)
  ask-agrees claim_confirm group key conn w =
      rw (claims group key ClaimState.in_progress self.lease false w.store) (
        continue-agrees
          (with_store w (st'.claim group key ClaimState.in_progress self.lease false w.store)) _ _
          claimed_as-agrees)

  frame_of-agrees :
      (mode : Mode) (group key : String) (c : Option ClaimResult) (d : Decision)
      → frame_of st self mode group key c d ≡ frame_of st' self mode group key c d
  unfolding frame_of
  frame_of-agrees mode group key none d = refl
  frame_of-agrees mode group key (some ClaimResult.claimed) d = refl
  frame_of-agrees mode group key (some ClaimResult.already_done) d = refl
  frame_of-agrees mode group key (some ClaimResult.in_progress) d = refl

  give_up_or_pass-agrees :
      (e : Error) (b : Bool) (w : World S)
      → give_up_or_pass st self e b w ≡ give_up_or_pass st' self e b w
  unfolding give_up_or_pass
  give_up_or_pass-agrees e true w = refl
  give_up_or_pass-agrees e false w = refl

  claim_frame-agrees :
      (mode : Mode) (group key : String) (conn : Bool) (w : World S)
      → claim_frame st self mode group key conn w ≡ claim_frame st' self mode group key conn w
  unfolding claim_frame
  claim_frame-agrees mode group key conn w = rw (ask-agrees mode group key conn w) ground (arith)

  recorded_as-agrees :
      (c : ClaimResult) (w : World S) → recorded_as st self c w ≡ recorded_as st' self c w
  unfolding recorded_as
  recorded_as-agrees ClaimResult.claimed w = refl
  recorded_as-agrees ClaimResult.already_done w = refl
  recorded_as-agrees ClaimResult.in_progress w = refl

  replay_frame-agrees :
      (policy : ReplayPolicy) (mode : Mode) (key : String) (id : Option Bytes) (conn : Bool)
      (w : World S)
      → replay_frame st self policy mode key id conn w
        ≡ replay_frame st' self policy mode key id conn w
  unfolding replay_frame namespaced
  replay_frame-agrees suppress mode key id conn w = claim_frame-agrees mode self.group key conn w
  replay_frame-agrees ReplayPolicy.bypass mode key none conn w =
      claim_frame-agrees mode self.group key conn w
  replay_frame-agrees ReplayPolicy.bypass mode key (some id) conn w = refl
  replay_frame-agrees ReplayPolicy.namespace mode key none conn w =
      claim_frame-agrees mode self.group key conn w
  replay_frame-agrees ReplayPolicy.namespace mode key (some id) conn w =
      claim_frame-agrees mode _ key conn w

  check_mode-agrees : (mode : Mode) → check_mode st self false mode ≡ check_mode st' self false mode
  unfolding check_mode
  check_mode-agrees transactional = refl
  check_mode-agrees claim_confirm = refl
  check_mode-agrees record_after = refl

  -- Without a transaction, `process` does the same up to its `yield`.
  pub enter-agrees : (r : Record) (w : World S) → enter st self r false w ≡ enter st' self r false w
  unfolding enter resolve_mode
  enter-agrees r w = rw (check_mode-agrees (chosen_mode false self.mode)) (
      continue-agrees (check_mode st' self false (chosen_mode false self.mode), w) _ _
        λ mode s.
          continue-agrees (self.key r, s) _ _
            λ key s'.
              replay_frame-agrees self.replay_policy mode key (get_header r.headers replay_id) false
                s')

  pub record_done-agrees :
      (group key : String) (w : World S)
      → record_done st self group key w ≡ record_done st' self group key w
  unfolding record_done
  record_done-agrees group key w = rw (claims group key ClaimState.done self.ttl false w.store) (
      continue-agrees (with_store w (st'.claim group key ClaimState.done self.ttl false w.store)) _
        _ λ c w'. recorded_as-agrees c.result w')
