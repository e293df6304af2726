-- ===== src/Replay/Expr/Tests.antt =====
-- Expressions of the module's docstring, and what is refused.
use kafka_reliability.Base.{◌≡◌, refl, [], ◌∷◌}
use kafka_reliability.Base.Effect.{ok, err}
use kafka_reliability.Core.Error.{configuration}
use kafka_reliability.Replay.Expr.{parse_header_filter}

one_clause :
    parse_header_filter " x-dlq-error-type == 'Timeout Error' "
    ≡ ok (record { name = "x-dlq-error-type"; op = "=="; wanted = "Timeout Error" } ∷ [])
unfolding parse_header_filter
one_clause = refl

two_clauses :
    parse_header_filter "a=='b'  and\tc != \"it's\""
    ≡ ok (
        record { name = "a"; op = "=="; wanted = "b" }
        ∷ record { name = "c"; op = "!="; wanted = "it's" }
        ∷ [])
unfolding parse_header_filter
two_clauses = refl

-- A literal that holds a separator is cut at it.
literal_cut : parse_header_filter "a == 'x and y'" ≡ err configuration
unfolding parse_header_filter
literal_cut = refl

refused :
    (parse_header_filter "" ≡ err configuration)
    × (parse_header_filter "a = 'b'" ≡ err configuration)
    × (parse_header_filter "a == 'b' or c == 'd'" ≡ err configuration)
unfolding parse_header_filter
refused = (refl, refl, refl)
