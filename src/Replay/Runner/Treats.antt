-- ===== src/Replay/Runner/Treats.antt =====
-- What an execution sends for one record, with a client that refuses nothing, and how runs add up.
use kafka_reliability.Base.{
  ℕ, zero, suc, ◌+◌, ◌-◌, String, ◌≡◌, refl, ap, sym, ◌∙◌, Bool, true, false, Option, none, some,
  List, [], ◌∷◌, ◌++◌, map, take, length, length-append, arith,
}
use mathlib.Core.List.{append-nil, append_assoc}
use kafka_reliability.Core.Metrics.{counter, replay_produced}
use kafka_reliability.Base.Effect.{Exec, Result, ok, continue}
use kafka_reliability.Core.Error.{Error}
use kafka_reliability.Core.Message.{Record, OutgoingMessage}
use kafka_reliability.Producers.{in_memory}
use kafka_reliability.Producers.Memory.{InMemoryProducer, send}
use kafka_reliability.Replay.Message.{skip_reason, replayed, audit_entry}
use kafka_reliability.Replay.Message.Selected.{replays, build-selected}
use kafka_reliability.Replay.Options.{ReplayOptions, wait}
use kafka_reliability.Replay.Reader.{Reader}
use kafka_reliability.Replay.Selector.{Selection, ResolvedSelection}
use kafka_reliability.Replay.Runner.{
  World, visit, treat, produce, note_scanned, note_matched, note_skipped, written,
}

-- The records that are left of a limit after `total` of them.
abbrev pub up_to : {A : Type 0} → Option ℕ → ℕ → List A → List A
up_to none total xs = xs
up_to (some limit) total xs = take (limit - total) xs

take-append :
    {A : Type 0} (n : ℕ) (xs ys : List A)
    → take n (xs ++ ys) ≡ take n xs ++ take (n - length (take n xs)) ys
take-append zero xs ys = refl
take-append (suc n) [] ys = ap (λ m. take m ys) {x = suc n} {y = suc n - 0} (omega arith)
take-append (suc n) (x ∷ xs) ys =
    ap (λ rest. x ∷ rest) (take-append n xs ys)
    ∙ ap (λ m. x ∷ take n xs ++ take m ys) {x = n - length (take n xs)}
        {y = suc n - suc (length (take n xs))} (omega arith)

abbrev pub is_none : Option String → Bool
is_none none = true
is_none (some reason) = false

abbrev pub Healthy : InMemoryProducer → Type 0
Healthy p = (p.to_fail ≡ 0) × (p.fail_rule ≡ none)

send-Healthy :
    (message : OutgoingMessage) (p : InMemoryProducer)
    → Healthy p
    → send message p ≡ (ok tt, record p { sent = p.sent ++ message ∷ [] })
unfolding send
send-Healthy message p (h, k) = rw (h, k) refl

pub up_to-append :
    {A : Type 0} (limit : Option ℕ) (total : ℕ) (xs ys : List A)
    → up_to limit total (xs ++ ys)
      ≡ up_to limit total xs ++ up_to limit (total + length (up_to limit total xs)) ys
up_to-append none total xs ys = refl
up_to-append (some limit) total xs ys =
    take-append (limit - total) xs ys
    ∙ ap (λ m. take (limit - total) xs ++ take m ys)
        {x = limit - total - length (take (limit - total) xs)}
        {y = limit - (total + length (take (limit - total) xs))} (omega arith)

abbrev pub is_selected : (Record → Option String) → Record → Bool
is_selected skips r = is_none (skips r)

abbrev pub messages : ReplayOptions → String → ℕ → List Record → List OutgoingMessage
messages options id started rs = map (λ r. replayed options id started r (replays r)) rs

module _ {S : Type 0} (reader : Reader S) (options : ReplayOptions)
    (confirm : Option (ResolvedSelection → Bool)) (id : String) (started : ℕ)
    (selection : Selection) (skips : Record → Option String)
    (decides : (r : Record) → skip_reason options id started r selection ≡ ok (skips r)) where
  -- A run that ends, having sent the messages of the records `rs` after `sent`.
  pub record Ran (total : ℕ) (sent : List OutgoingMessage) (rs : List Record) (s : S)
      (p : Result Error (Unit {0}) × World S InMemoryProducer) : Type 0 where
    pub last : World S InMemoryProducer
    pub ends : p ≡ (ok tt, last)
    pub healthy : Healthy last.producer
    pub reads : last.reader ≡ s
    pub totals : last.progress.total ≡ total + length rs
    pub sends : last.producer.sent ≡ sent ++ messages options id started rs

  produce-Ran :
      (r : Record) (w : World S InMemoryProducer)
      → Healthy w.producer
      → produce reader in_memory options confirm id started selection true r
          (replayed options id started r (replays r))
          w
        ≡ (
          ok tt,
          record w {
            limiter = wait 0 w.limiter;
            producer = record w.producer {
              sent = w.producer.sent ++ replayed options id started r (replays r) ∷ [];
            };
            produced = suc w.produced;
            events =
                w.events
                ++ counter replay_produced (
                    ("source_topic", selection.topic) ∷ ("target_topic", options.target_topic) ∷ [])
                  ∷ [];
            audit =
                written
                  (audit_entry options id started r (replayed options id started r (replays r)))
                  w.audit;
          },
        )
  unfolding produce
  produce-Ran r w h =
      rw (send-Healthy (replayed options id started r (replays r)) w.producer h) refl

  treat_selected :
      (p : ℕ) (r : Record) (w : World S InMemoryProducer)
      → skips r ≡ none
      → Healthy w.producer
      → Ran w.progress.total w.producer.sent
          (r ∷ [])
          w.reader
          (treat reader in_memory options confirm id started selection true p r none w)
  unfolding treat note_matched
  treat_selected p r w h healthy =
      rw (build-selected options id started r selection (decides r ∙ ap ok h)) (record {
        last = _;
        ends = produce-Ran r (record w { progress = note_matched p r w.progress }) healthy;
        healthy = healthy;
        reads = refl;
        totals = omega arith;
        sends = refl;
      })

  treat_skipped :
      (p : ℕ) (r : Record) (reason : String) (w : World S InMemoryProducer)
      → Healthy w.producer
      → Ran w.progress.total w.producer.sent [] w.reader
          (treat reader in_memory options confirm id started selection true p r (some reason) w)
  unfolding treat note_skipped
  treat_skipped p r reason w healthy = record {
    last = _;
    ends = refl;
    healthy = healthy;
    reads = refl;
    totals = omega arith;
    sends = sym (append-nil w.producer.sent);
  }

  messages-append :
      (xs ys : List Record)
      → messages options id started (xs ++ ys)
        ≡ messages options id started xs ++ messages options id started ys
  messages-append [] ys = refl
  messages-append (x ∷ xs) ys =
      ap (λ ms. replayed options id started x (replays x) ∷ ms) (messages-append xs ys)

  -- What the second run treats depends on how many the first one sent.
  pub Ran-continue :
      (total : ℕ) (sent : List OutgoingMessage) (xs : List Record) (ys : ℕ → List Record) (s s' : S)
      (p : Result Error (Unit {0}) × World S InMemoryProducer)
      (f : Unit {0} → Exec Error (World S InMemoryProducer) (Unit {0}))
      → Ran total sent xs s p
      → ((w : World S InMemoryProducer)
          → Healthy w.producer
          → w.reader ≡ s
          → Ran w.progress.total w.producer.sent (ys w.progress.total) s' (f tt w))
      → Ran total sent (xs ++ ys (total + length xs)) s' (continue p f)
  Ran-continue total sent xs ys s s' p f first next =
      let second = next first.last first.healthy first.reads in
      let more = ys first.last.progress.total in
      rw (sym first.totals) (record {
        last = second.last;
        ends = ap (λ q. continue q f) first.ends ∙ second.ends;
        healthy = second.healthy;
        reads = second.reads;
        totals = omega (arith, second.totals, first.totals, length-append xs more);
        sends =
            second.sends
            ∙ ap (λ ms. ms ++ messages options id started more) first.sends
            ∙ append_assoc sent (messages options id started xs) (messages options id started more)
            ∙ ap (λ ms. sent ++ ms) (sym (messages-append xs more));
      })

  pub visit_selected :
      (p : ℕ) (r : Record) (w : World S InMemoryProducer)
      → skips r ≡ none
      → Healthy w.producer
      → Ran w.progress.total w.producer.sent
          (r ∷ [])
          w.reader
          (visit reader in_memory options confirm id started selection true p r w)
  unfolding visit note_scanned
  visit_selected p r w h healthy =
      rw (decides r, h)
        (treat_selected p r (record w { progress = note_scanned p r w.progress }) h healthy)

  pub visit_skipped :
      (p : ℕ) (r : Record) (reason : String) (w : World S InMemoryProducer)
      → skips r ≡ some reason
      → Healthy w.producer
      → Ran w.progress.total w.producer.sent [] w.reader
          (visit reader in_memory options confirm id started selection true p r w)
  unfolding visit note_scanned
  visit_skipped p r reason w h healthy =
      rw (decides r, h)
        (treat_skipped p r reason (record w { progress = note_scanned p r w.progress }) healthy)
