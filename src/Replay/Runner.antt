-- ===== src/Replay/Runner.antt =====
-- ReplayRunner of replay/runner.py, over any reader and any producer. The replay's uuid and its start
-- are arguments of a traversal. The state is what the runner uses, and the local variables of
-- `_traverse` (`progress` and `produced`).
pub mod Follows
pub mod Commitless
pub mod DryRun
pub mod Treats
pub mod Sends
mod Tests
use kafka_reliability.Base.{
  ℕ, zero, suc, ◌+◌, min, max, not, String, Bool, true, false, ◌&&◌, ◌||◌, Option, none, some, List,
  [], ◌∷◌, ◌++◌, map, leb, ltb, nat_beq, length, if◌then◌else◌, ◌==◌, string_eq, nat_eq,
}
use kafka_reliability.Base.Int.{ℤ, pos, int_leb, next}
use kafka_reliability.Base.Dict.{Dict, lookup, insert}
use kafka_reliability.Base.Effect.{Exec, Result, ok, err, pure, raise, lift, modify, ◌>>=◌, ◌>>◌}
use kafka_reliability.Core.Clock.{iso}
use kafka_reliability.Core.Error.{Error, configuration, confirmation_required, value_error}
use kafka_reliability.Core.Message.{
  Record, OutgoingMessage, get_header, replay_id, replay_at, dlq_replay_count,
}
use kafka_reliability.Core.Metrics.{Event, counter, replay_produced, replay_skipped}
use kafka_reliability.Core.Utf8.{Bytes, encode}
use kafka_reliability.Producers.{Producer}
use kafka_reliability.Replay.Audit.{AuditEntry, JsonlAuditSink, write, close, encode_key}
use kafka_reliability.Replay.Count.{int_of, str_of}
use kafka_reliability.Replay.Message.{skip_reason, build, audit_entry, dict_of}
use kafka_reliability.Replay.Options.{ReplayOptions, RateLimiter, wait}
use kafka_reliability.Replay.Reader.{Reader, Stream}
use kafka_reliability.Replay.Selector.{
  Selection, PartitionRange, ResolvedSelection, range_count, total_records, resolve,
}

pub record PartitionReport : Type 0 where
  pub partition : ℕ
  pub start : ℕ
  pub end_ : ℕ
  pub scanned : ℕ
  pub matched : ℕ

pub record Sample : Type 0 where
  pub key : Option Bytes
  pub headers : Dict String Bytes
  pub value_size : ℕ

pub record ReplayPlan : Type 0 where
  pub replay_id : String
  pub resolved : ResolvedSelection
  pub target_topic : String
  pub partitions : List PartitionReport
  pub matched : ℕ
  pub skipped : Dict String ℕ
  pub oldest : Option ℕ
  pub newest : Option ℕ
  pub samples : List Sample
  pub dry_run : Bool

pub record ReplayResult : Type 0 where
  pub plan : ReplayPlan
  pub produced : ℕ
  pub committed_offsets : Dict ℕ ℕ

pub record Progress : Type 0 where
  pub scanned : Dict ℕ ℕ
  pub matched : Dict ℕ ℕ
  pub skipped : Dict String ℕ
  pub oldest : Option ℕ
  pub newest : Option ℕ
  pub samples : List Sample
  pub last_offset : Dict ℕ ℕ
  pub total : ℕ

pub record World (S P : Type 0) : Type 0 where
  pub reader : S
  pub producer : P
  pub events : List Event
  pub audit : Option JsonlAuditSink
  pub limiter : RateLimiter
  pub progress : Progress
  pub produced : ℕ

abbrev pub nothing_yet : Progress
nothing_yet = record {
  scanned = [];
  matched = [];
  skipped = [];
  oldest = none;
  newest = none;
  samples = [];
  last_offset = [];
  total = 0;
}

-- Counter: a missing key counts 0
abbrev number_in : Option ℕ → ℕ
number_in none = 0
number_in (some n) = n

abbrev min_of : Option ℕ → ℕ → Option ℕ
min_of none n = some n
min_of (some m) n = some (min m n)

abbrev max_of : Option ℕ → ℕ → Option ℕ
max_of none n = some n
max_of (some m) n = some (max m n)

abbrev is_full : Option ℕ → ℕ → Bool
is_full none total = false
is_full (some limit) total = leb limit total

-- d[k] += 1 of a Counter
bump : ℕ → Dict ℕ ℕ → Dict ℕ ℕ
bump p d = insert p (suc (number_in (lookup p d))) d

bump_reason : String → Dict String ℕ → Dict String ℕ
bump_reason reason d = insert reason (suc (number_in (lookup reason d))) d

sample_of : Record → Sample
sample_of r = record { key = r.key; headers = dict_of r.headers []; value_size = length r.value }

note_scanned : ℕ → Record → Progress → Progress
unfolding bump
note_scanned p r g = record g {
  scanned = bump p g.scanned;
  last_offset = insert p r.offset g.last_offset;
}

note_skipped : String → Progress → Progress
unfolding bump_reason
note_skipped reason g = record g { skipped = bump_reason reason g.skipped }

note_matched : ℕ → Record → Progress → Progress
unfolding bump sample_of
note_matched p r g = record g {
  matched = bump p g.matched;
  total = suc g.total;
  oldest = min_of g.oldest r.timestamp;
  newest = max_of g.newest r.timestamp;
  samples = if ltb (length g.samples) 3 then g.samples ++ sample_of r ∷ [] else g.samples;
}

written : AuditEntry → Option JsonlAuditSink → Option JsonlAuditSink
written entry none = none
written entry (some sink) = some (write entry sink)

closed : Option JsonlAuditSink → Option JsonlAuditSink
closed none = none
closed (some sink) = some (close sink)

module _ {S P : Type 0} where
  abbrev on_progress : (Progress → Progress) → Exec Error (World S P) (Unit {0})
  on_progress f = modify λ w. record w { progress = f w.progress }

  abbrev emit : Event → Exec Error (World S P) (Unit {0})
  emit e = modify λ w. record w { events = w.events ++ e ∷ [] }

  abbrev with_reader : {A : Type 0} → World S P → Result Error A × S → Result Error A × World S P
  with_reader w (r, s) = (r, record w { reader = s })

  abbrev on_reader : {A : Type 0} → Exec Error S A → Exec Error (World S P) A
  on_reader op w = with_reader w (op w.reader)

  abbrev with_producer : {A : Type 0} → World S P → Result Error A × P → Result Error A × World S P
  with_producer w (r, p) = (r, record w { producer = p })

  abbrev on_producer : {A : Type 0} → Exec Error P A → Exec Error (World S P) A
  on_producer op w = with_producer w (op w.producer)

  abbrev when : Bool → Exec Error (World S P) (Unit {0}) → Exec Error (World S P) (Unit {0})
  when b m = if b then m else pure tt

  pub finally_close : Bool → {A : Type 0} → Result Error A × World S P → Result Error A × World S P
  finally_close execute (r, w) = (r, if execute then record w { audit = closed w.audit } else w)

-- The limiter's sleeps end in time.
module _ {S P : Type 0} (reader : Reader S) (producer : Producer P) (options : ReplayOptions)
    (confirm : Option (ResolvedSelection → Bool)) (id : String) (started : ℕ)
    (selection : Selection) (execute : Bool) where
  pub check_target : Result Error (Unit {0})
  check_target =
      if selection.topic == options.target_topic && not options.allow_same_topic
      then err configuration
      else ok tt

  -- Wait, send, count, and audit.
  produce : Record → OutgoingMessage → Exec Error (World S P) (Unit {0})
  produce r message = do
    modify λ w. record w { limiter = wait 0 w.limiter }
    on_producer (producer.send message)
    modify λ w. record w { produced = suc w.produced }
    emit (
        counter replay_produced
          (("source_topic", selection.topic) ∷ ("target_topic", options.target_topic) ∷ []))
    modify λ w. record w { audit = written (audit_entry options id started r message) w.audit }

  treat : ℕ → Record → Option String → Exec Error (World S P) (Unit {0})
  unfolding produce note_skipped note_matched
  treat p r (some reason) = do
    on_progress (note_skipped reason)
    when execute (
        emit (counter replay_skipped (("source_topic", selection.topic) ∷ ("reason", reason) ∷ [])))
  treat p r none = do
    message ← lift (build options id started r)
    on_progress (note_matched p r)
    when execute (produce r message)

  -- The body of the loop over records, after its first test.
  pub visit : ℕ → Record → Exec Error (World S P) (Unit {0})
  unfolding note_scanned treat
  visit p r = do
    on_progress (note_scanned p r)
    reason ← lift (skip_reason options id started r selection)
    treat p r reason

  pub visit_all : ℕ → List Record → Option Error → Exec Error (World S P) (Unit {0})
  unfolding visit
  visit_all p [] none w = (ok tt, w)
  visit_all p [] (some e) w = (err e, w)
  visit_all p (r ∷ rs) raised w =
      if is_full selection.max_messages w.progress.total
      then (ok tt, w)
      else (do visit p r; visit_all p rs raised) w

  pub visit_range : PartitionRange → Exec Error (World S P) (Unit {0})
  unfolding visit_all
  visit_range range w =
      let (stream, s) =
        reader.read selection.topic range.partition range.start range.end_ w.reader in
      visit_all range.partition stream.records stream.raised (record w { reader = s })

  pub visit_ranges : List PartitionRange → Exec Error (World S P) (Unit {0})
  unfolding visit_range
  visit_ranges [] = pure tt
  visit_ranges (range ∷ ranges) = do
    when (not (nat_beq (range_count range) 0)) (visit_range range)
    visit_ranges ranges

  commit_all : Dict ℕ ℕ → Dict ℕ ℕ → Exec Error (World S P) (Dict ℕ ℕ)
  commit_all [] out = pure out
  commit_all ((p, offset) ∷ offsets) out = do
    on_reader (reader.commit selection.topic p (offset + 1))
    commit_all offsets (insert p (offset + 1) out)

  -- min(resolved.total_records, selection.max_messages or resolved.total_records)
  bound_of : Option ℕ → ℕ → ℕ
  bound_of none total = total
  bound_of (some zero) total = total
  bound_of (some (suc n)) total = min total (suc n)

  is_confirmed : Option (ResolvedSelection → Bool) → ResolvedSelection → Bool
  is_confirmed none resolved = false
  is_confirmed (some ask) resolved = ask resolved

  pub check_size : ResolvedSelection → Result Error (Unit {0})
  unfolding bound_of is_confirmed
  check_size resolved =
      let bound = bound_of selection.max_messages (total_records resolved) in
      if execute
        && not (int_leb (pos bound) options.confirm_above)
        && not options.assume_yes
        && not (is_confirmed confirm resolved)
      then err confirmation_required
      else ok tt

  report_of : Progress → PartitionRange → PartitionReport
  report_of g r = record {
    partition = r.partition;
    start = r.start;
    end_ = r.end_;
    scanned = number_in (lookup r.partition g.scanned);
    matched = number_in (lookup r.partition g.matched);
  }

  plan_of : ResolvedSelection → Progress → ReplayPlan
  unfolding report_of
  plan_of resolved g = record {
    replay_id = id;
    resolved = resolved;
    target_topic = options.target_topic;
    partitions = map (report_of g) resolved.ranges;
    matched = g.total;
    skipped = g.skipped;
    oldest = g.oldest;
    newest = g.newest;
    samples = g.samples;
    dry_run = not execute;
  }

  finished : ResolvedSelection → Dict ℕ ℕ → Exec Error (World S P) ReplayResult
  unfolding plan_of
  finished resolved committed w = (
    ok (record {
      plan = plan_of resolved w.progress;
      produced = w.produced;
      committed_offsets = committed;
    }),
    w,
  )

  pub commit_if : Exec Error (World S P) (Dict ℕ ℕ)
  unfolding commit_all
  commit_if w =
      if execute && options.commit_source_offsets
      then commit_all w.progress.last_offset [] w
      else (ok [], w)

  begin : Exec Error (World S P) (Unit {0})
  begin = modify λ w. record w { progress = nothing_yet; produced = 0 }

  pub scan_ranges : ResolvedSelection → Exec Error (World S P) (Unit {0})
  unfolding visit_ranges finally_close
  scan_ranges resolved w = finally_close execute (visit_ranges resolved.ranges w)

  -- _traverse
  pub traverse : Exec Error (World S P) ReplayResult
  unfolding check_target check_size begin scan_ranges commit_if finished
  traverse = do
    lift check_target
    resolved ← on_reader (resolve reader selection)
    lift (check_size resolved)
    begin
    scan_ranges resolved
    committed ← commit_if
    finished resolved committed
