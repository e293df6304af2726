-- ===== src/Outbox/Relay/Runs.antt =====
-- What `run_once` and `run` of outbox/relay.py keep, over any store and producer that keep it.
use kafka_reliability.Base.{
  ℕ, zero, suc, String, Bool, Option-cases, true, false, inl, inr, Option, none, some, List, [],
  ◌∷◌, All,
}
use kafka_reliability.Base.Effect.{Exec, Result, ok, err, continue, recover}
use kafka_reliability.Core.Error.{Error, store_unavailable}
use kafka_reliability.Core.Message.{OutgoingMessage}
use kafka_reliability.Producers.{Producer}
use kafka_reliability.Outbox.Config.{RelayConfig, lock_key, lock_shard}
use kafka_reliability.Outbox.Row.{RelayRow, group_by_key}
use kafka_reliability.Outbox.Row.Members.{All-group_by_key}
use kafka_reliability.Outbox.Relay.{
  RelayStore, World, GroupOutcome, gather, check_outcomes, stats, publish_rows, claim_if,
  claim_batch, publish_claimed, run_once, next_delay, run_loop, run, closed_after, counted,
  with_store,
}
use kafka_reliability.Outbox.Relay.Passes.{Contract, WhenOk, Ok-gather}

module _ {D P : Type 0} (st : RelayStore D) (producer : Producer P) (self : RelayConfig)
    (Good : D → P → Type 0) (Known : RelayRow → Type 0) (Sent : OutgoingMessage → P → Type 0)
    (contract : Contract st producer Good Known Sent) where
  abbrev Ok : World D P → Type 0
  Ok w = Good w.store w.producer

  abbrev Keeps : {A : Type 0} → Exec Error (World D P) A → Type 0
  Keeps m = (w : World D P) → Ok w → Ok (m w).1

  Ok-continue :
      {A B : Type 0} (r : Result Error A × World D P) (f : A → Exec Error (World D P) B)
      → Ok r.1
      → ((a : A) → Keeps (f a))
      → Ok (continue r f).1
  Ok-continue (ok a, w) f good keeps = keeps a w good
  Ok-continue (err e, w) f good keeps = good

  Keeps-check_outcomes :
      (outcomes : List GroupOutcome) → Keeps (check_outcomes st producer self outcomes)
  unfolding check_outcomes
  Keeps-check_outcomes [] w good = good
  Keeps-check_outcomes (o ∷ os) w good = elim (Option-cases o.store_error) [
    | inl none_lost ↦ rw none_lost (Keeps-check_outcomes os w good)
    | inr (e, is_lost) ↦ rw is_lost good
  ]

  Ok-counted :
      {A : Type 0} (r : Result Error A × World D P)
      → Ok r.1
      → Ok (recover r (counted st producer self)).1
  Ok-counted (ok a, w) good = good
  Ok-counted (err store_unavailable, w) good = good
  Ok-counted (err _, w) good = good

  Keeps-stats : Keeps (stats st producer self)
  unfolding stats
  Keeps-stats w good =
      Ok-continue (with_store w (st.stats w.store)) _ (contract.stats-Good _ _ good)
        (λ s w' good'. good')

  Ok-publish_rows :
      (rows : List RelayRow) (w : World D P)
      → All Known rows
      → Ok w
      → Ok (publish_rows st producer self rows w).1
  unfolding publish_rows
  Ok-publish_rows rows w known good =
      Ok-continue (gather st producer self (group_by_key rows) w) _
        (Ok-gather st producer self Good Known Sent contract _ w (All-group_by_key Known rows known)
          good)
        (λ outcomes w' good'.
          Ok-continue (check_outcomes st producer self outcomes w') _
            (Keeps-check_outcomes outcomes w' good')
            (λ u w'' good''.
              Ok-continue (recover (stats st producer self w'') _) _
                (Ok-counted (stats st producer self w'') (Keeps-stats w'' good'')) (λ s v g. g)))

  module _ (crc32 : String → ℕ) where
    -- The claimed rows are known.
    KnownRows : Option (List RelayRow) → World D P → Type 0
    KnownRows none w = Unit
    KnownRows (some rows) w = All Known rows

    after_claim :
        (w : World D P) (r : Result Error (List RelayRow) × D)
        → Good r.1 w.producer
        → WhenOk (λ rows d. All Known rows) r
        → Ok (continue (with_store w r) (λ rows w'. (ok (some rows), w'))).1
          × WhenOk KnownRows (continue (with_store w r) (λ rows w'. (ok (some rows), w')))
    unfolding KnownRows
    after_claim w (ok rows, d) good known = (good, known)
    after_claim w (err e, d) good known = (good, tt)

    abbrev IsClaim : Result Error (Option (List RelayRow)) × World D P → Type 0
    IsClaim r = Ok r.1 × WhenOk KnownRows r

    IsClaim-claim_if :
        (leader : Bool) (w : World D P) → Ok w → IsClaim (claim_if st producer self crc32 leader w)
    unfolding claim_if KnownRows
    IsClaim-claim_if false w good = (good, tt)
    IsClaim-claim_if true w good =
        after_claim w (st.claim self.batch_size self.shard_count self.shard_index w.store)
          (contract.claim-Good _ _ _ _ _ good) (contract.claims _ _ _ _ _ good)

    IsClaim-continue :
        {A : Type 0} (r : Result Error A × World D P)
        (f : A → Exec Error (World D P) (Option (List RelayRow)))
        → Ok r.1
        → ((a : A) (w : World D P) → Ok w → IsClaim (f a w))
        → IsClaim (continue r f)
    IsClaim-continue (ok a, w) f good next = next a w good
    IsClaim-continue (err e, w) f good next = (good, tt)

    IsClaim-counted :
        (r : Result Error (Option (List RelayRow)) × World D P)
        → IsClaim r
        → IsClaim (recover r (counted st producer self))
    IsClaim-counted (ok a, w) h = h
    IsClaim-counted (err store_unavailable, w) h = (h.0, tt)
    IsClaim-counted (err _, w) h = (h.0, tt)

    IsClaim-claim_batch : (w : World D P) → Ok w → IsClaim (claim_batch st producer self crc32 w)
    unfolding claim_batch
    IsClaim-claim_batch w good =
        IsClaim-continue
          (with_store w
            (st.acquire_leadership (lock_key crc32 self st.table) (lock_shard self) w.store))
          _ (contract.acquire-Good _ _ _ _ good) IsClaim-claim_if

    Ok-publish_claimed :
        (r : Result Error (Option (List RelayRow)) × World D P)
        → IsClaim r
        → Ok (continue r (publish_claimed st producer self crc32)).1
    unfolding publish_claimed KnownRows
    Ok-publish_claimed (err e, w) h = h.0
    Ok-publish_claimed (ok none, w) h = h.0
    Ok-publish_claimed (ok (some rows), w) h = Ok-publish_rows rows w h.1 h.0

    pub Keeps-run_once : Keeps (run_once st producer self crc32)
    unfolding run_once
    Keeps-run_once w good =
        Ok-publish_claimed (recover (claim_batch st producer self crc32 w) _)
          (IsClaim-counted _ (IsClaim-claim_batch w good))

    Keeps-run_loop : (passes failing : ℕ) → Keeps (run_loop st producer self crc32 passes failing)
    unfolding run_loop next_delay
    Keeps-run_loop zero failing w good = good
    Keeps-run_loop (suc passes) failing w good =
        Ok-continue (run_once st producer self crc32 w) _ (Keeps-run_once w good)
          (λ result w' good'.
            Ok-continue (next_delay st producer self crc32 result failing, w') _ good'
              (λ next w'' good''.
                Ok-continue (run_loop st producer self crc32 passes next.0 w'') _
                  (Keeps-run_loop passes next.0 w'' good'') (λ delays v g. g)))

    Ok-closed_after :
        (r : Result Error (List ℕ) × World D P)
        → Ok r.1
        → Ok (closed_after st producer self crc32 r).1
    Ok-closed_after (r, w) good =
        Ok-continue (with_store w (st.release_leadership w.store)) _
          (contract.release-Good _ _ good) (λ u v g. g)

    pub Keeps-run : (passes : ℕ) → Keeps (run st producer self crc32 passes)
    unfolding run
    Keeps-run passes w good = Ok-closed_after _ (Keeps-run_loop passes 0 w good)
