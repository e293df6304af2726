-- ===== src/Replay/Selector.antt =====
-- replay/selector.py. A moment is a number of microseconds, of an aware datetime or a naive one; the
-- notes are without their texts. The product in `_ms` is taken as exact.
use kafka_reliability.Base.{
  ℕ, ◌+◌, ◌-◌, ◌/◌, max, min, not, String, Bool, true, false, ◌&&◌, ◌||◌, Option, none, some, List,
  [], ◌∷◌, ◌++◌, map, keep, any, ltb, nat_beq, if◌then◌else◌, ◌==◌, nat_eq, string_eq,
}
use kafka_reliability.Base.Dict.{Dict, lookup, insert}
use kafka_reliability.Base.Effect.{Exec, Result, ok, err, pure, lift, ◌>>=◌}
use kafka_reliability.Core.Error.{Error, configuration}
use kafka_reliability.Core.Clock.{Moment, aware, naive}
use kafka_reliability.Core.Message.{Record}
use kafka_reliability.Replay.Reader.{Reader, required, sorted}

pub record Selection : Type 0 where
  pub topic : String
  pub from_offset : Option (Dict ℕ ℕ)
  pub to_offset : Option (Dict ℕ ℕ)
  pub from_timestamp : Option Moment
  pub to_timestamp : Option Moment
  pub partitions : Option (List ℕ)
  pub predicate : Option (Record → Result Error Bool)
  pub max_messages : Option ℕ

abbrev is_naive : Option Moment → Bool
is_naive (some (naive n)) = true
is_naive _ = false

-- A mapping that is given and not empty.
abbrev has_items : Option (Dict ℕ ℕ) → Bool
has_items none = false
has_items (some []) = false
has_items (some (x ∷ d)) = true

abbrev given : {A : Type 0} → Option A → Bool
given none = false
given (some a) = true

abbrev below_one : Option ℕ → Bool
below_one none = false
below_one (some n) = ltb n 1

-- __post_init__
unfoldable pub post_init : Selection → Result Error Selection
post_init self =
    if self.topic == ""
    then err configuration
    else if is_naive self.from_timestamp || is_naive self.to_timestamp
    then err configuration
    else if below_one self.max_messages
    then err configuration
    else if (has_items self.from_offset || has_items self.to_offset)
        && (given self.from_timestamp || given self.to_timestamp)
    then err configuration
    else ok self

pub record PartitionRange : Type 0 where
  pub partition : ℕ
  pub start : ℕ
  pub end_ : ℕ

abbrev pub range_count : PartitionRange → ℕ
range_count r = r.end_ - r.start

pub data Note : Type 0 where
  timestamp_caveat : Note
  empty_window : List ℕ → Note

pub record ResolvedSelection : Type 0 where
  pub selection : Selection
  pub ranges : List PartitionRange
  pub notes : List Note

abbrev pub total_of : List PartitionRange → ℕ
total_of [] = 0
total_of (r ∷ rs) = range_count r + total_of rs

abbrev pub total_records : ResolvedSelection → ℕ
total_records self = total_of self.ranges

abbrev pub is_active : PartitionRange → Bool
is_active r = not (nat_beq (range_count r) 0)

-- {r.partition: f(r) for r in ranges}
range_dict : (PartitionRange → ℕ) → List PartitionRange → Dict ℕ ℕ → Dict ℕ ℕ
range_dict f [] out = out
range_dict f (r ∷ rs) out = range_dict f rs (insert r.partition (f r) out)

pub as_selection : ResolvedSelection → Result Error Selection
unfolding range_dict
as_selection self =
    let active = keep is_active self.ranges in
    post_init (record {
      topic = self.selection.topic;
      from_offset = some (range_dict (λ r. r.start) active []);
      to_offset = some (range_dict (λ r. r.end_) active []);
      from_timestamp = none;
      to_timestamp = none;
      partitions = some (map (λ r. r.partition) active);
      predicate = self.selection.predicate;
      max_messages = self.selection.max_messages;
    })

-- sorted(set(...)): a number that stands twice is kept once
abbrev distinct : List ℕ → List ℕ
distinct [] = []
distinct (n ∷ ns) = let rest = distinct ns in if any (λ m. n == m) ns then rest else n ∷ rest

abbrev is_missing : List ℕ → ℕ → Bool
is_missing available p = not (any (λ q. p == q) available)

choose : Option (List ℕ) → List ℕ → Result Error (List ℕ)
choose none available = ok (sorted available)
choose (some wanted) available =
    if any (is_missing available) wanted then err configuration else ok (sorted (distinct wanted))

refuse_none : List ℕ → Result Error (List ℕ)
refuse_none [] = err configuration
refuse_none (p ∷ ps) = ok (p ∷ ps)

-- {p: d[p] for p in chosen}
pick : {S : Type 0} → Dict ℕ ℕ → List ℕ → Dict ℕ ℕ → Exec Error S (Dict ℕ ℕ)
pick d [] out = pure out
pick d (p ∷ ps) out = do n ← lift (required (lookup p d)); pick d ps (insert p n out)

update_if : ℕ → ℕ → Option ℕ → Dict ℕ ℕ → Dict ℕ ℕ
update_if p o none d = d
update_if p o (some old) d = insert p o d

-- d.update({p: o for p, o in offsets.items() if p in d})
update_from : Dict ℕ ℕ → Dict ℕ ℕ → Dict ℕ ℕ
unfolding update_if
update_from [] d = d
update_from ((p, o) ∷ offsets) d = update_from offsets (update_if p o (lookup p d) d)

updated : Option (Dict ℕ ℕ) → Dict ℕ ℕ → Dict ℕ ℕ
unfolding update_from
updated none d = d
updated (some offsets) d = update_from offsets d

moment_ms : Moment → ℕ
moment_ms (aware n) = n / 1000
moment_ms (naive n) = n / 1000

-- _ms
at_ms : ℕ → List ℕ → Dict ℕ ℕ
at_ms ms [] = []
at_ms ms (p ∷ ps) = insert p ms (at_ms ms ps)

or_end : Option ℕ → ℕ → ℕ
or_end none n = n
or_end (some found) n = found

module _ {S : Type 0} (offsets_for_times : String → Dict ℕ ℕ → Exec Error S (Dict ℕ (Option ℕ)))
    (topic : String) (chosen : List ℕ) (ends : Dict ℕ ℕ) where
  -- The loop over `chosen` after offsets_for_times.
  set_found : Dict ℕ (Option ℕ) → List ℕ → Dict ℕ ℕ → Exec Error S (Dict ℕ ℕ)
  unfolding or_end
  set_found found [] d = pure d
  set_found found (p ∷ ps) d = do
    f ← lift (required (lookup p found))
    e ← lift (required (lookup p ends))
    set_found found ps (insert p (or_end f e) d)

  timed : Option Moment → Dict ℕ ℕ → Exec Error S (Dict ℕ ℕ)
  unfolding set_found at_ms moment_ms
  timed none d = pure d
  timed (some when) d = do
    found ← offsets_for_times topic (at_ms (moment_ms when) chosen)
    set_found found chosen d

-- The ranges, within the partitions' bounds.
ranges_of :
    {S : Type 0}
    → Dict ℕ ℕ
    → Dict ℕ ℕ
    → Dict ℕ ℕ
    → Dict ℕ ℕ
    → List ℕ
    → Exec Error S (List PartitionRange)
ranges_of begins ends starts stops [] = pure []
ranges_of begins ends starts stops (p ∷ ps) = do
  b ← lift (required (lookup p begins))
  e ← lift (required (lookup p ends))
  start ← lift (required (lookup p starts))
  stop ← lift (required (lookup p stops))
  rest ← ranges_of begins ends starts stops ps
  pure (record { partition = p; start = max start b; end_ = min stop e } ∷ rest)

empty_notes : Bool → List ℕ → List Note
empty_notes false ps = []
empty_notes true [] = []
empty_notes true (p ∷ ps) = empty_window (p ∷ ps) ∷ []

notes_for : Selection → List PartitionRange → List Note
unfolding empty_notes
notes_for selection ranges =
    let windowed = given selection.from_timestamp || given selection.to_timestamp in
    (if windowed then timestamp_caveat ∷ [] else [])
    ++ empty_notes windowed (map (λ r. r.partition) (keep (λ r. not (is_active r)) ranges))

module _ {S : Type 0} (reader : Reader S) where
  unfoldable pub resolve : Selection → Exec Error S ResolvedSelection
  unfolding choose refuse_none pick updated timed ranges_of notes_for
  resolve selection = do
    available ← reader.partitions selection.topic
    some_or_none ← lift (choose selection.partitions available)
    chosen ← lift (refuse_none some_or_none)
    begins ← reader.beginning_offsets selection.topic chosen
    ends ← reader.end_offsets selection.topic chosen
    starts ← pick begins chosen []
    stops ← pick ends chosen []
    starts' ←
        timed reader.offsets_for_times selection.topic chosen ends selection.from_timestamp
          (updated selection.from_offset starts)
    stops' ←
        timed reader.offsets_for_times selection.topic chosen ends selection.to_timestamp
          (updated selection.to_offset stops)
    ranges ← ranges_of begins ends starts' stops' chosen
    pure (record { selection = selection; ranges = ranges; notes = notes_for selection ranges })
