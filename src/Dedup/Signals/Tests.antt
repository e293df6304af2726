-- ===== src/Dedup/Signals/Tests.antt =====
-- A partition that is assigned, revoked and assigned again.
use kafka_reliability.Base.{ℕ, String, ◌≡◌, refl, true, false, [], ◌∷◌}
use kafka_reliability.Base.Dict.{lookup, insert}
use kafka_reliability.Dedup.Signals.{RevocationSignals, is_set, signal_for, assign, revoke}

abbrev tp : String × ℕ
tp = ("orders", 0)

abbrev initial : RevocationSignals
initial = record { events = []; are_set = []; created = 0 }

-- The first handler's signal stays set, and the next one's is not.
again :
    let first = signal_for tp (assign (tp ∷ []) initial) in
    let revoked = revoke (tp ∷ ("orders", 1) ∷ []) first.1 in
    let second = signal_for tp (assign (tp ∷ []) revoked) in
    (is_set first.0 first.1 ≡ false)
    × (is_set first.0 second.1 ≡ true)
    × (is_set second.0 second.1 ≡ false)
unfolding signal_for assign revoke lookup insert
again = (refl, refl, refl)
