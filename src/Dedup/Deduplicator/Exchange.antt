-- ===== src/Dedup/Deduplicator/Exchange.antt =====
-- Two stores over the same state can be exchanged, without a transaction, if they agree on claims,
-- releases and questions, and on the confirm of a key that a claim has granted.
use kafka_reliability.Base.{
  ℕ, String, ◌≡◌, refl, ap, Bool, true, false, Option, none, some, if◌then◌else◌,
}
use kafka_reliability.Base.Effect.{pure, continue, Holds, continue-agrees, continue-agrees_where}
use kafka_reliability.Core.Error.{Error}
use kafka_reliability.Core.Message.{Record}
use kafka_reliability.Dedup.Store.{ClaimState, Claim, DedupStore}
use kafka_reliability.Dedup.Deduplicator.{
  Deduplicator, World, Frame, owning, passing, transactional, claim_confirm, record_after, enter,
  leave, block, consume, finish, safely, record_done, store_failed, handle, runs, commit_offset,
  when,
}
use kafka_reliability.Dedup.Deduplicator.Agreeing.{enter-agrees, record_done-agrees}
use kafka_reliability.Dedup.Deduplicator.Owning.{Owned, Granted, enter-Owned}

module _ {S : Type 0} (Present : String → String → S → Type 0) (st st' : DedupStore S)
    (self : Deduplicator)
    (claims : (group key : String) (state : ClaimState) (expires_in : ℕ) (conn : Bool) (s : S)
      → st.claim group key state expires_in conn s ≡ st'.claim group key state expires_in conn s)
    (seens : (group key : String) (s : S) → st.is_done group key s ≡ st'.is_done group key s)
    (releases : (group key : String) (s : S) → st.release group key s ≡ st'.release group key s)
    (confirms : (group key : String) (s : S)
      → Present group key s
      → st.confirm group key self.ttl s ≡ st'.confirm group key self.ttl s)
    (grants : (group key : String) (s : S)
      → Holds
          (λ (c : Claim) s'. Granted Present group key (some c.result) s')
          (st'.claim group key ClaimState.in_progress self.lease false s)) where
  finish_record-agrees :
      (group key : String) (w : World S)
      → finish st self "record" (record_done st self group key) w
        ≡ finish st' self "record" (record_done st' self group key) w
  unfolding finish store_failed
  finish_record-agrees group key w =
      rw (record_done-agrees st st' self claims seens group key w) refl

  finish_confirm-agrees :
      (group key : String) (w : World S)
      → Present group key w.store
      → leave st self (owning claim_confirm group key) none w
        ≡ leave st' self (owning claim_confirm group key) none w
  unfolding leave finish store_failed
  finish_confirm-agrees group key w h = rw (confirms group key w.store h) refl

  release-agrees :
      (group key : String) (e : Error) (w : World S)
      → leave st self (owning claim_confirm group key) (some e) w
        ≡ leave st' self (owning claim_confirm group key) (some e) w
  unfolding leave safely store_failed
  release-agrees group key e w = rw (releases group key w.store) refl

  leave-agrees :
      (frame : Frame) (outcome : Option Error) (w : World S)
      → Owned Present frame w
      → leave st self frame outcome w ≡ leave st' self frame outcome w
  unfolding leave
  leave-agrees (passing d) none w h = refl
  leave-agrees (passing d) (some e) w h = refl
  leave-agrees (owning transactional group key) none w h = refl
  leave-agrees (owning transactional group key) (some e) w h = refl
  leave-agrees (owning record_after group key) none w h = finish_record-agrees group key w
  leave-agrees (owning record_after group key) (some e) w h = refl
  leave-agrees (owning claim_confirm group key) none w h = finish_confirm-agrees group key w h
  leave-agrees (owning claim_confirm group key) (some e) w h = release-agrees group key e w

  block-agrees :
      (r : Record) (outcome : Option Error) (frame : Frame) (w : World S)
      → Owned Present frame w
      → block st self r outcome frame w ≡ block st' self r outcome frame w
  unfolding block handle
  block-agrees r outcome (passing d) w h =
      continue-agrees (when (runs d.result) (handle st self r) w) _ _ λ x s.
        ap (λ p. continue p (λ y. pure (commit_offset d.result)))
          (leave-agrees (passing d) (if runs d.result then outcome else none) s tt)
  block-agrees r outcome (owning transactional group key) w h =
      ap (λ p. continue p (λ y. pure true))
        (leave-agrees (owning transactional group key) outcome (handle st self r w).1 tt)
  block-agrees r outcome (owning record_after group key) w h =
      ap (λ p. continue p (λ y. pure true))
        (leave-agrees (owning record_after group key) outcome (handle st self r w).1 tt)
  block-agrees r outcome (owning claim_confirm group key) w h =
      ap (λ p. continue p (λ y. pure true))
        (leave-agrees (owning claim_confirm group key) outcome (handle st self r w).1 h)

  pub consume-agrees :
      (r : Record) (outcome : Option Error) (w : World S)
      → consume st self r false outcome w ≡ consume st' self r false outcome w
  unfolding consume
  consume-agrees r outcome w = rw (enter-agrees st st' self claims seens r w) (
      continue-agrees_where (Owned Present) (enter st' self r false w) _ _
        (enter-Owned Present st' self grants r w) (block-agrees r outcome))
