-- ===== src/Dedup/Redis/Tests.antt =====
-- The theorems on the Redis store at concrete inputs, and a key that it writes.
use kafka_reliability.Base.{String, ◌≡◌, refl, false, [], ◌∷◌, if◌then◌else◌, ◌==◌, string_eq}
use kafka_reliability.Base.Decimal.{decimal, digits, digits_from, digits_text, digit_char}
use kafka_reliability.Base.Effect.{ok}
use kafka_reliability.Dedup.Store.{ClaimState}
use kafka_reliability.Dedup.Memory.View.{answer, after_claim}
use kafka_reliability.Dedup.Redis.{Redis, redis_key, px_of, claim}
use kafka_reliability.Dedup.Redis.Keys.{redis_key-injective}
use kafka_reliability.Dedup.Redis.View.{kept, quiet, claim-kept}

key_of_a_group : redis_key "p" "a:b" "c" ≡ "p:3:a:b:c"
unfolding redis_key decimal digits digits_from digits_text digit_char
key_of_a_group = refl

abbrev group_of_two : String
group_of_two = "a:b"

abbrev one_key : String
one_key = "c"

redis_key-injective_example : (group_of_two ≡ group_of_two) × (one_key ≡ one_key)
redis_key-injective_example = redis_key-injective "p" group_of_two one_key group_of_two one_key refl

-- 1.001 seconds are a float whose product with 1000 is short of 1001.
px_test : (px_of 1001000 ≡ 1000) × (px_of 1002000 ≡ 1002) × (px_of 10 ≡ 1)
unfolding px_of
px_test = (refl, refl, refl)

abbrev server : Redis
server = record {
  now = 5;
  entries = ("p:1:g:a", record { value = ClaimState.in_progress; expires_at = 7 }) ∷ [];
}

claim-kept_example :
    let p = claim "p" "g" "a" ClaimState.in_progress 3000 (quiet server) in
    let k = redis_key "p" "g" "a" in
    (p.0 ≡ ok (record { result = answer (kept server k); lease_expired = false }))
    × (kept p.1.state "p:1:g:a" ≡ (
        if k == "p:1:g:a"
        then after_claim ClaimState.in_progress (kept server k)
        else kept server "p:1:g:a"))
claim-kept_example = claim-kept "p" "g" "a" server ClaimState.in_progress 3000 "p:1:g:a"
