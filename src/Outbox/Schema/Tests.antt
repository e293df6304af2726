-- ===== src/Outbox/Schema/Tests.antt =====
-- Names that are accepted and refused.
use kafka_reliability.Base.{◌≡◌, refl}
use kafka_reliability.Base.Effect.{ok, err}
use kafka_reliability.Core.Error.{configuration}
use kafka_reliability.Outbox.Schema.{validate_table_name, check_payload}

accepted :
    (validate_table_name "outbox" ≡ ok "outbox") × (validate_table_name "app._o2" ≡ ok "app._o2")
unfolding validate_table_name
accepted = (refl, refl)

refused :
    (validate_table_name "" ≡ err configuration)
    × (validate_table_name "a b" ≡ err configuration)
    × (validate_table_name "a.b.c" ≡ err configuration)
    × (validate_table_name "2a" ≡ err configuration)
    × (validate_table_name "a;" ≡ err configuration)
unfolding validate_table_name
refused = (refl, refl, refl, refl, refl)

-- A newline at the end passes.
newline : validate_table_name "outbox\n" ≡ ok "outbox\n"
unfolding validate_table_name
newline = refl

payloads : (check_payload "jsonb" ≡ ok tt) × (check_payload "json" ≡ err configuration)
unfolding check_payload
payloads = (refl, refl)
