-- ===== src/Dedup/Deduplicator/Owning.antt =====
-- A block that owns its key in claim-then-confirm mode was given it by a claim: what the store
-- promises of a key that it has granted holds when the handler's block begins.
use kafka_reliability.Base.{String, Bool, true, false, Option, none, some}
use kafka_reliability.Base.Effect.{
  Result, ok, err, continue, Holds, Holds-continue, Holds-recover, Holds-all, pure,
}
use kafka_reliability.Core.Error.{Error, store_unavailable}
use kafka_reliability.Core.Message.{Record, get_header, replay_id}
use kafka_reliability.Core.Utf8.{Bytes}
use kafka_reliability.Dedup.Store.{ClaimState, ClaimResult, Claim, DedupStore}
use kafka_reliability.Dedup.Deduplicator.{
  Deduplicator, World, Frame, owning, Decision, Mode, transactional, claim_confirm, record_after,
  ReplayPolicy, suppress, enter, ask, frame_of, claimed_as, store_failed, give_up_or_pass,
  claim_frame, replay_frame, resolve_mode, with_store, namespaced, on_unavailable,
}
use kafka_reliability.Dedup.Deduplicator.Enter.{claimed_as-reported}

on_unavailable-cases :
    {A B : Type 0} (P : B → Type 0) (e : Error) (m other : A → B) (w : A)
    → P (m w)
    → P (other w)
    → P (on_unavailable e m other w)
on_unavailable-cases P store_unavailable m other w h k = h
on_unavailable-cases P _ m other w h k = k

module _ {S : Type 0} (Present : String → String → S → Type 0) where
  abbrev pub Owned : Frame → World S → Type 0
  Owned (owning claim_confirm group key) w = Present group key w.store
  Owned _ w = Unit

  abbrev pub Granted : String → String → Option ClaimResult → S → Type 0
  Granted group key (some ClaimResult.claimed) s = Present group key s
  Granted group key _ s = Unit

module _ {S : Type 0} (Present : String → String → S → Type 0) (st : DedupStore S)
    (self : Deduplicator)
    (grants : (group key : String) (s : S)
      → Holds
          (λ (c : Claim) s'. Granted Present group key (some c.result) s')
          (st.claim group key ClaimState.in_progress self.lease false s)) where
  with_store-Granted :
      (group key : String) (w : World S) (p : Result Error Claim × S)
      → Holds (λ (c : Claim) s'. Granted Present group key (some c.result) s') p
      → Holds
          (λ (c : Claim) (w' : World S). Granted Present group key (some c.result) w'.store)
          (with_store w p)
  with_store-Granted group key w (ok c, s) h = h
  with_store-Granted group key w (err e, s) h = tt

  claimed_as-Granted :
      (group key : String) (c : Claim) (w : World S)
      → Granted Present group key (some c.result) w.store
      → Holds
          (λ (d : Decision) (w' : World S). Granted Present group key d.result w'.store)
          (claimed_as st self c w)
  claimed_as-Granted group key c w h = rw (claimed_as-reported st self c w) h

  ask-Granted :
      (group key : String) (w : World S)
      → Holds
          (λ (d : Decision) (w' : World S). Granted Present group key d.result w'.store)
          (ask st self claim_confirm group key false w)
  unfolding ask
  ask-Granted group key w =
      Holds-continue _ _
        (with_store w (st.claim group key ClaimState.in_progress self.lease false w.store)) _
        (with_store-Granted group key w _ (grants group key w.store)) (claimed_as-Granted group key)

  frame_of-Owned :
      (group key : String) (c : Option ClaimResult) (d : Decision) (w : World S)
      → Granted Present group key c w.store
      → Owned Present (frame_of st self claim_confirm group key c d) w
  unfolding frame_of
  frame_of-Owned group key none d w h = tt
  frame_of-Owned group key (some ClaimResult.claimed) d w h = h
  frame_of-Owned group key (some ClaimResult.already_done) d w h = tt
  frame_of-Owned group key (some ClaimResult.in_progress) d w h = tt

  give_up_or_pass-Owned :
      (e : Error) (b : Bool) (w : World S) → Holds (Owned Present) (give_up_or_pass st self e b w)
  unfolding give_up_or_pass
  give_up_or_pass-Owned e true w = tt
  give_up_or_pass-Owned e false w = tt

  -- A frame of another mode owes nothing to the store.
  transactional-Owned :
      (group key : String) (c : Option ClaimResult) (d : Decision) (w : World S)
      → Owned Present (frame_of st self transactional group key c d) w
  unfolding frame_of
  transactional-Owned group key none d w = tt
  transactional-Owned group key (some ClaimResult.claimed) d w = tt
  transactional-Owned group key (some ClaimResult.already_done) d w = tt
  transactional-Owned group key (some ClaimResult.in_progress) d w = tt

  record_after-Owned :
      (group key : String) (c : Option ClaimResult) (d : Decision) (w : World S)
      → Owned Present (frame_of st self record_after group key c d) w
  unfolding frame_of
  record_after-Owned group key none d w = tt
  record_after-Owned group key (some ClaimResult.claimed) d w = tt
  record_after-Owned group key (some ClaimResult.already_done) d w = tt
  record_after-Owned group key (some ClaimResult.in_progress) d w = tt

  asked-Owned :
      (mode : Mode) (group key : String) (w : World S)
      → Holds (Owned Present) (
          continue
            (ask st self mode group key false w)
            (λ d. pure (frame_of st self mode group key d.result d)))
  asked-Owned claim_confirm group key w =
      Holds-continue _ (Owned Present) (ask st self claim_confirm group key false w) _
        (ask-Granted group key w) (λ d w'. frame_of-Owned group key d.result d w')
  asked-Owned transactional group key w =
      Holds-continue (λ d w'. Unit) (Owned Present) (ask st self transactional group key false w) _
        (Holds-all (λ d w'. Unit) _ (λ d w'. tt))
        (λ d w' x. transactional-Owned group key d.result d w')
  asked-Owned record_after group key w =
      Holds-continue (λ d w'. Unit) (Owned Present) (ask st self record_after group key false w) _
        (Holds-all (λ d w'. Unit) _ (λ d w'. tt))
        (λ d w' x. record_after-Owned group key d.result d w')

  claim_frame-Owned :
      (mode : Mode) (group key : String) (w : World S)
      → Holds (Owned Present) (claim_frame st self mode group key false w)
  unfolding claim_frame store_failed
  claim_frame-Owned mode group key w =
      Holds-recover (Owned Present) _ _ (asked-Owned mode group key w) λ e w'.
        on_unavailable-cases (Holds (Owned Present)) e _ _ w' (give_up_or_pass-Owned e _ _) tt

  replay_frame-Owned :
      (policy : ReplayPolicy) (mode : Mode) (key : String) (id : Option Bytes) (w : World S)
      → Holds (Owned Present) (replay_frame st self policy mode key id false w)
  unfolding replay_frame namespaced
  replay_frame-Owned suppress mode key id w = claim_frame-Owned mode self.group key w
  replay_frame-Owned ReplayPolicy.bypass mode key none w = claim_frame-Owned mode self.group key w
  replay_frame-Owned ReplayPolicy.bypass mode key (some id) w = tt
  replay_frame-Owned ReplayPolicy.namespace mode key none w =
      claim_frame-Owned mode self.group key w
  replay_frame-Owned ReplayPolicy.namespace mode key (some id) w = claim_frame-Owned mode _ key w

  pub enter-Owned : (r : Record) (w : World S) → Holds (Owned Present) (enter st self r false w)
  unfolding enter
  enter-Owned r w =
      Holds-continue (λ m s. Unit) (Owned Present) (resolve_mode st self false, w) _
        (Holds-all (λ m s. Unit) _ (λ m s. tt))
        λ mode s x.
          Holds-continue (λ k s. Unit) (Owned Present) (self.key r, s) _
            (Holds-all (λ k s. Unit) _ (λ k s. tt))
            λ key s' y.
              replay_frame-Owned self.replay_policy mode key (get_header r.headers replay_id) s'
