-- ===== src/Replay/Reader.antt =====
-- replay/reader.py: the protocol, and InMemoryReader. Offsets and partitions are numbers, which are
-- not negative; `read` yields its records and then ends or raises.
use kafka_reliability.Base.{
  ℕ, ◌+◌, ◌*◌, String, Bool, ◌&&◌, Option, none, some, List, [], ◌∷◌, ◌++◌, keep, leb, ltb,
  if◌then◌else◌, nat_eq,
}
use kafka_reliability.Base.Dict.{Dict, lookup, insert}
use kafka_reliability.Base.Effect.{Exec, Result, ok, err, pure, lift, ◌>>=◌}
use kafka_reliability.Core.Error.{Error, key_error}
use kafka_reliability.Core.Message.{Record}

-- An iterator of records: what it yields, and the exception that ends it.
pub record Stream : Type 0 where
  pub records : List Record
  pub raised : Option Error

pub record Reader (S : Type 0) : Type 0 where
  pub partitions : String → Exec Error S (List ℕ)
  pub beginning_offsets : String → List ℕ → Exec Error S (Dict ℕ ℕ)
  pub end_offsets : String → List ℕ → Exec Error S (Dict ℕ ℕ)
  pub offsets_for_times : String → Dict ℕ ℕ → Exec Error S (Dict ℕ (Option ℕ))
  pub read : String → ℕ → ℕ → ℕ → S → Stream × S
  pub commit : String → ℕ → ℕ → Exec Error S (Unit {0})

pub record InMemoryReader : Type 0 where
  pub topic : String
  pub data_ : Dict ℕ (List Record)
  pub committed : Dict ℕ ℕ
  pub reads : List (ℕ × (ℕ × ℕ))

abbrev keys : Dict ℕ (List Record) → List ℕ
keys [] = []
keys ((p, rs) ∷ d) = p ∷ keys d

abbrev insert_sorted : ℕ → List ℕ → List ℕ
insert_sorted n [] = n ∷ []
insert_sorted n (m ∷ ms) = let rest = insert_sorted n ms in if leb n m then n ∷ m ∷ ms else m ∷ rest

-- sorted(...)
abbrev pub sorted : List ℕ → List ℕ
sorted [] = []
sorted (n ∷ ns) = insert_sorted n (sorted ns)

unfoldable pub partitions : String → Exec Error InMemoryReader (List ℕ)
partitions topic self = (ok (sorted (keys self.data_)), self)

first_offset : List Record → ℕ
first_offset [] = 0
first_offset (r ∷ rs) = r.offset

-- One past the offset of the last record.
end_offset : List Record → ℕ
end_offset [] = 0
end_offset (r ∷ []) = r.offset + 1
end_offset (r ∷ r' ∷ rs) = end_offset (r' ∷ rs)

-- d[p]
abbrev pub required : {A : Type 0} → Option A → Result Error A
required none = err key_error
required (some a) = ok a

-- {p: f(p, self._data[p]) for p in ...}
module _ {A S : Type 0} (f : List Record → A) (data_ : Dict ℕ (List Record)) where
  for_each : List ℕ → Dict ℕ A → Exec Error S (Dict ℕ A)
  for_each [] out = pure out
  for_each (p ∷ ps) out = do
    rs ← lift (required (lookup p data_))
    for_each ps (insert p (f rs) out)

unfoldable pub beginning_offsets : String → List ℕ → Exec Error InMemoryReader (Dict ℕ ℕ)
unfolding for_each first_offset
beginning_offsets topic ps self = for_each first_offset self.data_ ps [] self

unfoldable pub end_offsets : String → List ℕ → Exec Error InMemoryReader (Dict ℕ ℕ)
unfolding for_each end_offset
end_offsets topic ps self = for_each end_offset self.data_ ps [] self

first_since : ℕ → List Record → Option ℕ
first_since wanted [] = none
first_since wanted (r ∷ rs) =
    let rest = first_since wanted rs in if leb wanted r.timestamp then some r.offset else rest

-- A record's timestamp has microseconds, what is asked for milliseconds.
offsets_from :
    Dict ℕ (List Record)
    → Dict ℕ ℕ
    → Dict ℕ (Option ℕ)
    → Exec Error InMemoryReader (Dict ℕ (Option ℕ))
unfolding first_since
offsets_from data_ [] out = pure out
offsets_from data_ ((p, ms) ∷ timestamps) out = do
  rs ← lift (required (lookup p data_))
  offsets_from data_ timestamps (insert p (first_since (ms * 1000) rs) out)

unfoldable pub offsets_for_times : String → Dict ℕ ℕ → Exec Error InMemoryReader (Dict ℕ (Option ℕ))
unfolding offsets_from
offsets_for_times topic timestamps self = offsets_from self.data_ timestamps [] self

in_range : ℕ → ℕ → Record → Bool
in_range start end_ r = leb start r.offset && ltb r.offset end_

stream_of : ℕ → ℕ → Option (List Record) → Stream
unfolding in_range
stream_of start end_ none = record { records = []; raised = some key_error }
stream_of start end_ (some rs) = record { records = keep (in_range start end_) rs; raised = none }

unfoldable pub read : String → ℕ → ℕ → ℕ → InMemoryReader → Stream × InMemoryReader
unfolding stream_of
read topic p start end_ self = (
  stream_of start end_ (lookup p self.data_),
  record self { reads = self.reads ++ (p, (start, end_)) ∷ [] },
)

unfoldable pub commit : String → ℕ → ℕ → Exec Error InMemoryReader (Unit {0})
commit topic p offset self = (ok tt, record self { committed = insert p offset self.committed })

abbrev pub in_memory_reader : Reader InMemoryReader
in_memory_reader = record {
  partitions = partitions;
  beginning_offsets = beginning_offsets;
  end_offsets = end_offsets;
  offsets_for_times = offsets_for_times;
  read = read;
  commit = commit;
}
