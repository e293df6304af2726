-- ===== src/Replay/Runner/Follows.antt =====
-- The ranges of a dry run, visited beside those of an execution: the same without the produce.
use kafka_reliability.Base.{
  ℕ, ◌+◌, String, ◌≡◌, refl, sym, Bool, Bool-cases, inl, inr, true, false, Option, none, some, List,
  [], ◌∷◌, nat_beq,
}
use kafka_reliability.Base.Dict.{Dict}
use kafka_reliability.Base.Effect.{Exec, Result, ok, err, continue, Holds, Holds-continue}
use kafka_reliability.Core.Error.{Error}
use kafka_reliability.Core.Message.{Record, OutgoingMessage}
use kafka_reliability.Producers.{Producer}
use kafka_reliability.Replay.Message.{skip_reason, build}
use kafka_reliability.Replay.Options.{ReplayOptions, wait}
use kafka_reliability.Replay.Reader.{Reader}
use kafka_reliability.Replay.Selector.{Selection, PartitionRange, ResolvedSelection, range_count}
use kafka_reliability.Replay.Runner.{
  World, visit, visit_all, visit_range, visit_ranges, treat, produce, finally_close, commit_all,
  commit_if, with_producer, with_reader, note_scanned, note_matched, is_full,
}

-- The dry run starts in `w0`.
module _ {S P : Type 0} (w0 : World S P) where
  -- What a dry run has done when an execution is at `w`.
  abbrev pub erase : World S P → World S P
  erase w = record w0 { reader = w.reader; progress = w.progress; produced = 0 }

  -- The second run ends as the first one, if that raised no exception.
  unfoldable pub Follows :
      {A : Type 0} → Result Error A × World S P → Result Error A × World S P → Type 0
  Follows (ok a, w) q = q ≡ (ok a, erase w)
  Follows (err e, w) q = Unit

  Follows-continue :
      {A B : Type 0} (p q : Result Error A × World S P) (f g : A → Exec Error (World S P) B)
      → Follows p q
      → ((a : A) (w : World S P) → Follows (f a w) (g a (erase w)))
      → Follows (continue p f) (continue q g)
  unfolding Follows
  Follows-continue (ok a, w) q f g h k = rw h (k a w)
  Follows-continue (err e, w) q f g h k = tt

  Follows-lift : {A : Type 0} (r : Result Error A) (w : World S P) → Follows (r, w) (r, erase w)
  unfolding Follows
  Follows-lift (ok a) w = refl
  Follows-lift (err e) w = tt

  Follows-reader :
      {A : Type 0} (r : Result Error A × S) (w : World S P)
      → Follows (with_reader w r) (with_reader (erase w) r)
  unfolding Follows
  Follows-reader (ok a, s) w = refl
  Follows-reader (err e, s) w = tt

  pub Follows-finally :
      {A : Type 0} (p q : Result Error A × World S P)
      → Follows p q
      → Follows (finally_close true p) (finally_close false q)
  unfolding Follows finally_close
  Follows-finally (ok a, w) q h = rw h refl
  Follows-finally (err e, w) q h = tt

  -- A call of the producer does not show.
  Follows-producer :
      (q : Result Error (Unit {0}) × P) (w : World S P)
      (f : Unit {0} → Exec Error (World S P) (Unit {0}))
      → ((p : P) → Follows (f tt (record w { producer = p })) (ok tt, erase w))
      → Follows (continue (with_producer w q) f) (ok tt, erase w)
  unfolding Follows
  Follows-producer (ok tt, p) w f h = h p
  Follows-producer (err e, p) w f h = tt

with_reader-progress :
    {S P A : Type 0} (w : World S P) (r : Result Error A × S)
    → Holds (λ x (w' : World S P). w'.progress ≡ w.progress) (with_reader w r)
with_reader-progress w (ok a, s) = refl
with_reader-progress w (err e, s) = tt

module _ {S P : Type 0} (reader : Reader S) (producer : Producer P) (options : ReplayOptions)
    (confirm : Option (ResolvedSelection → Bool)) (id : String) (started : ℕ)
    (selection : Selection) (w0 : World S P) where
  sent-Follows :
      (r : Record) (message : OutgoingMessage) (w : World S P)
      → Follows w0
          (produce reader producer options confirm id started selection true r message w)
          (ok tt, erase w0 w)
  unfolding produce Follows
  sent-Follows r message w =
      Follows-producer w0 (producer.send message w.producer)
        (record w { limiter = wait 0 w.limiter }) _ (λ p. refl)

  treat-Follows :
      (p : ℕ) (r : Record) (reason : Option String) (w : World S P)
      → Follows w0
          (treat reader producer options confirm id started selection true p r reason w)
          (treat reader producer options confirm id started selection false p r reason (erase w0 w))
  unfolding treat Follows
  treat-Follows p r (some reason) w = refl
  treat-Follows p r none w =
      Follows-continue w0 (build options id started r, w) (build options id started r, erase w0 w) _
        _ (Follows-lift w0 (build options id started r) w)
        λ message w'. sent-Follows r message (record w' { progress = note_matched p r w'.progress })

  visit-Follows :
      (p : ℕ) (r : Record) (w : World S P)
      → Follows w0
          (visit reader producer options confirm id started selection true p r w)
          (visit reader producer options confirm id started selection false p r (erase w0 w))
  unfolding visit
  visit-Follows p r w =
      let reason = skip_reason options id started r selection in
      let w' = record w { progress = note_scanned p r w.progress } in
      Follows-continue w0 (reason, w') (reason, erase w0 w') _ _ (Follows-lift w0 reason w')
        (treat-Follows p r)

  visit_all-Follows :
      (p : ℕ) (rs : List Record) (raised : Option Error) (w : World S P)
      → Follows w0
          (visit_all reader producer options confirm id started selection true p rs raised w)
          (visit_all reader producer options confirm id started selection false p rs raised
            (erase w0 w))
  unfolding visit_all Follows
  visit_all-Follows p [] none w = refl
  visit_all-Follows p [] (some e) w = tt
  visit_all-Follows p (r ∷ rs) raised w =
      elim (Bool-cases (is_full selection.max_messages w.progress.total)) [
        | inl full ↦ rw full refl
        | inr more ↦ rw more (
            Follows-continue w0
              (visit reader producer options confirm id started selection true p r w)
              (visit reader producer options confirm id started selection false p r (erase w0 w)) _
              _ (visit-Follows p r w) (λ x w'. visit_all-Follows p rs raised w'))
      ]

  pub visit_ranges-Follows :
      (ranges : List PartitionRange) (w : World S P)
      → Follows w0
          (visit_ranges reader producer options confirm id started selection true ranges w)
          (visit_ranges reader producer options confirm id started selection false ranges
            (erase w0 w))
  unfolding visit_ranges visit_range Follows
  visit_ranges-Follows [] w = refl
  visit_ranges-Follows (range ∷ ranges) w = elim (Bool-cases (nat_beq (range_count range) 0)) [
    | inl empty ↦ rw empty (visit_ranges-Follows ranges w)
    | inr some_records ↦
        let (stream, s) =
          reader.read selection.topic range.partition range.start range.end_ w.reader in
        rw some_records (
          Follows-continue w0 _ _ _ _
            (visit_all-Follows range.partition stream.records stream.raised
              (record w { reader = s }))
            (λ x w'. visit_ranges-Follows ranges w'))
  ]

  commit_all-progress :
      (offsets out : Dict ℕ ℕ) (w : World S P)
      → Holds
          (λ d (w' : World S P). w'.progress ≡ w.progress)
          (commit_all reader producer options confirm id started selection true offsets out w)
  unfolding commit_all
  commit_all-progress [] out w = refl
  commit_all-progress ((p, offset) ∷ offsets) out w =
      Holds-continue (λ x (w' : World S P). w'.progress ≡ w.progress) _
        (with_reader w (reader.commit selection.topic p (offset + 1) w.reader)) _
        (with_reader-progress w (reader.commit selection.topic p (offset + 1) w.reader))
        λ x w' h. rw (sym h) (commit_all-progress offsets _ w')

  pub commit_if-progress :
      (w : World S P)
      → Holds
          (λ d (w' : World S P). w'.progress ≡ w.progress)
          (commit_if reader producer options confirm id started selection true w)
  unfolding commit_if
  commit_if-progress w = elim (Bool-cases options.commit_source_offsets) [
    | inl commits ↦ rw commits (commit_all-progress w.progress.last_offset [] w)
    | inr keeps ↦ rw keeps refl
  ]
