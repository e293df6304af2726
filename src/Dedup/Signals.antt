-- ===== src/Dedup/Signals.antt =====
-- RevocationSignals of dedup/deduplicator.py. An asyncio.Event is its number; an event that is created
-- and dropped at once, by a `setdefault` that finds one, is left out.
mod Tests
use kafka_reliability.Base.{
  ℕ, ◌+◌, ◌||◌, String, ◌≡◌, refl, Bool, true, Option, none, some, List, [], ◌∷◌, any, ap, arith,
  inl, inr, Member, ◌==◌, string_eq, nat_eq, pair_eq, if◌then◌else◌,
}
use kafka_reliability.Base.Dict.{Dict, lookup, insert}

pub record RevocationSignals : Type 0 where
  pub events : Dict (String × ℕ) ℕ
  pub are_set : List ℕ
  pub created : ℕ

abbrev pub is_set : ℕ → RevocationSignals → Bool
is_set event self = any (λ e. e == event) self.are_set

fresh : String × ℕ → RevocationSignals → RevocationSignals
fresh tp self = record self {
  events = insert tp self.created self.events;
  created = self.created + 1;
}

event_or_fresh : String × ℕ → Option ℕ → RevocationSignals → ℕ × RevocationSignals
unfolding fresh
event_or_fresh tp (some event) self = (event, self)
event_or_fresh tp none self = (self.created, fresh tp self)

unfoldable pub signal_for : String × ℕ → RevocationSignals → ℕ × RevocationSignals
unfolding event_or_fresh
signal_for tp self = event_or_fresh tp (lookup tp self.events) self

unfoldable pub assign : List (String × ℕ) → RevocationSignals → RevocationSignals
unfolding fresh
assign [] self = self
assign (tp ∷ partitions) self = assign partitions (fresh tp self)

set_event : ℕ × RevocationSignals → RevocationSignals
set_event (event, self) = record self { are_set = event ∷ self.are_set }

unfoldable pub revoke : List (String × ℕ) → RevocationSignals → RevocationSignals
unfolding set_event
revoke [] self = self
revoke (tp ∷ partitions) self = revoke partitions (set_event (signal_for tp self))
