-- ===== src/Outbox/Relay/Passes.antt =====
-- What every pass of outbox/relay.py keeps, over any store and any producer that keep it.
use kafka_reliability.Base.{ℕ, String, Bool, Bool-cases, inl, inr, List, [], ◌∷◌, map, All}
use kafka_reliability.Base.Effect.{Result, ok, err}
use kafka_reliability.Core.Error.{Error, store_unavailable}
use kafka_reliability.Core.Message.{OutgoingMessage}
use kafka_reliability.Producers.{Producer}
use kafka_reliability.Base.Int.{ℤ}
use kafka_reliability.Outbox.Config.{RelayConfig}
use kafka_reliability.Outbox.Row.{RelayRow, to_message}
use kafka_reliability.Outbox.Relay.{
  RelayStore, World, Pass, send_rows, after_send, failure_noted, produce_failed, finally_mark,
  marked, report_published, publish_key, gather, with_producer, give_up,
}

-- What a result that is a success promises.
abbrev pub WhenOk : {A S : Type 0} → (A → S → Type 0) → Result Error A × S → Type 0
WhenOk Q (ok a, s) = Q a s
WhenOk Q (err e, s) = Unit

-- `Good` holds of the database and the client; `Known` of the rows that were claimed, and `Sent` of
-- the messages the client has taken.
pub record Contract {D P : Type 0} (st : RelayStore D) (producer : Producer P)
    (Good : D → P → Type 0) (Known : RelayRow → Type 0) (Sent : OutgoingMessage → P → Type 0)
    : Type 0 where
  pub send-Good : (m : OutgoingMessage) (d : D) (p : P) → Good d p → Good d (producer.send m p).1
  pub send-Sent : (m x : OutgoingMessage) (p : P) → Sent x p → Sent x (producer.send m p).1
  pub sends : (m : OutgoingMessage) (p : P) → WhenOk (λ u q. Sent m q) (producer.send m p)
  pub acquire-Good :
      (key : ℤ) (shard : ℕ) (d : D) (p : P)
      → Good d p
      → Good (st.acquire_leadership key shard d).1 p
  pub claim-Good :
      (limit count index : ℕ) (d : D) (p : P) → Good d p → Good (st.claim limit count index d).1 p
  pub claims :
      (limit count index : ℕ) (d : D) (p : P)
      → Good d p
      → WhenOk (λ rows d'. All Known rows) (st.claim limit count index d)
  pub mark-Good :
      (rows : List RelayRow) (d : D) (p : P)
      → All Known rows
      → All (λ r. Sent (to_message r) p) rows
      → Good d p
      → Good (st.mark_published (map (λ r. r.id) rows) d).1 p
  pub failure-Good :
      (id : String) (e : Error) (give_up : Bool) (d : D) (p : P)
      → Good d p
      → Good (st.record_failure id e give_up d).1 p
  pub stats-Good : (d : D) (p : P) → Good d p → Good (st.stats d).1 p
  pub release-Good : (d : D) (p : P) → Good d p → Good (st.release_leadership d).1 p

module _ {D P : Type 0} (st : RelayStore D) (producer : Producer P) (self : RelayConfig)
    (Good : D → P → Type 0) (Known : RelayRow → Type 0) (Sent : OutgoingMessage → P → Type 0)
    (contract : Contract st producer Good Known Sent) where
  abbrev Ok : World D P → Type 0
  Ok w = Good w.store w.producer

  abbrev Grows : World D P → World D P → Type 0
  Grows w w' = (x : OutgoingMessage) → Sent x w.producer → Sent x w'.producer

  abbrev AllSent : List RelayRow → World D P → Type 0
  AllSent rows w = All (λ r. Sent (to_message r) w.producer) rows

  -- The loop's rows were sent, and they are known.
  abbrev Sound : World D P → Pass × World D P → Type 0
  Sound w (pass, w') = Ok w' × (Grows w w' × (AllSent pass.sent w' × All Known pass.sent))

  Sound-failure_noted :
      (row : RelayRow) (w : World D P) (r : Result Error ℕ × World D P)
      → Ok r.1
      → Grows w r.1
      → Sound w (failure_noted st producer self row r)
  Sound-failure_noted row w (err e, w') good grows = (good, (grows, (tt, tt)))
  Sound-failure_noted row w (ok n, w') good grows =
      elim (Bool-cases (give_up st producer self row)) [
        | inl given_up ↦ rw given_up (good, (grows, (tt, tt)))
        | inr retried ↦ rw retried (good, (grows, (tt, tt)))
      ]

  Sound-after_send :
      (row : RelayRow) (w : World D P) (r : Result Error (Unit {0}) × P)
      (rest : World D P → Pass × World D P)
      → Known row
      → Good w.store r.1
      → ((x : OutgoingMessage) → Sent x w.producer → Sent x r.1)
      → WhenOk (λ u p. Sent (to_message row) p) r
      → ((w' : World D P) → Ok w' → Sound w' (rest w'))
      → Sound w (after_send st producer self row (with_producer w r) rest)
  unfolding produce_failed
  Sound-after_send row w (err e, p) rest known good grows sent next =
      Sound-failure_noted row w _ (contract.failure-Good row.id e _ _ _ good) grows
  Sound-after_send row w (ok u, p) rest known good grows sent next =
      let (good', (grows', (all_sent, all_known))) = next (record w { producer = p }) good in
      (good', ((λ x h. grows' x (grows x h)), ((grows' _ sent, all_sent), (known, all_known))))

  Sound-send_rows :
      (rows : List RelayRow) (w : World D P)
      → All Known rows
      → Ok w
      → Sound w (send_rows st producer self rows w)
  unfolding send_rows produce_failed
  Sound-send_rows [] w known good = (good, ((λ x h. h), (tt, tt)))
  Sound-send_rows (row ∷ rows) w known good =
      Sound-after_send row w (producer.send (to_message row) w.producer)
        (send_rows st producer self rows) known.0
        (contract.send-Good (to_message row) w.store w.producer good)
        (λ x. contract.send-Sent (to_message row) x w.producer)
        (contract.sends (to_message row) w.producer)
        (λ w' good'. Sound-send_rows rows w' known.1 good')

  report_published-same :
      (rows : List RelayRow) (w : World D P) → Ok w → Ok (report_published st producer self rows w)
  unfolding report_published
  report_published-same [] w good = good
  report_published-same (row ∷ rows) w good = report_published-same rows _ good

  Ok-marked :
      (pass : Pass) (r : Result Error (Unit {0}) × World D P)
      → Ok r.1
      → Ok (marked st producer self pass r).1
  unfolding marked report_published
  Ok-marked pass (ok u, w) good = report_published-same pass.sent w good
  Ok-marked pass (err store_unavailable, w) good = good
  Ok-marked pass (err _, w) good = good

  Ok-finally_mark :
      (pass : Pass) (rows : List RelayRow) (w : World D P)
      → All Known rows
      → AllSent rows w
      → Ok w
      → Ok (finally_mark st producer self pass rows w).1
  unfolding finally_mark
  Ok-finally_mark pass [] w known sent good = good
  Ok-finally_mark pass (row ∷ rows) w known sent good =
      Ok-marked pass _ (contract.mark-Good (row ∷ rows) w.store w.producer known sent good)

  Ok-publish_key :
      (rows : List RelayRow) (w : World D P)
      → All Known rows
      → Ok w
      → Ok (publish_key st producer self rows w).1
  unfolding publish_key
  Ok-publish_key rows w known good =
      let (good', (grows, (sent, known'))) = Sound-send_rows rows w known good in
      Ok-finally_mark _ _ _ known' sent good'

  pub Ok-gather :
      (groups : List (List RelayRow)) (w : World D P)
      → All (All Known) groups
      → Ok w
      → Ok (gather st producer self groups w).1
  unfolding gather
  Ok-gather [] w known good = good
  Ok-gather (g ∷ gs) w known good = Ok-gather gs _ known.1 (Ok-publish_key g w known.0 good)
