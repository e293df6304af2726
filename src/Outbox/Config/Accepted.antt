-- ===== src/Outbox/Config/Accepted.antt =====
-- Which configurations `RelayConfig.__post_init__` of outbox/relay.py accepts, and what their locks
-- and delays are.
use kafka_reliability.Base.{
  ◌⊎◌, inl, inr, ℕ, ◌+◌, ◌-◌, ◌*◌, ◌^◌, ◌≤◌, ◌<◌, min, ◌≡◌, ◌↔◌, refl, Bool, true, false, sym, ap,
  ◌∙◌, Bool-cases, ◌&&◌, not, Option, none, some, leb, String, ◌==◌, ◌||◌, string_eq, arith,
  if◌then◌else◌,
}
use native.Mathlib.Nat.{
  le-min, le_trans, min-le_left, min-le_right, mul-le-mul_left, pow-le-pow_right,
}
use kafka_reliability.Base.Effect.{Result, ok, err}
use kafka_reliability.Core.Error.{Error, configuration, overflow}
use kafka_reliability.Base.Int.{
  ℤ, pos, negsuc, int_eq, int_leb, int_ltb, int_min, pos-magnitude, int_min-positive,
}
use kafka_reliability.Outbox.Config.{
  Ordering, strict, sharded, RelayConfig, Arguments, config_of, ordering_of, least_interval,
  too_large, post_init, is_strict, lock_shard, backoff, float_power,
}

-- A number that PostgreSQL's two-key advisory locks take: 32 bits, with a sign.
abbrev pub IsInt32 : Option ℤ → Type 0
IsInt32 none = Unit
IsInt32 (some (pos n)) = n < 2 ^ 31
IsInt32 (some (negsuc n)) = n < 2 ^ 31

abbrev pub ShardsFit : Ordering → ℕ → Type 0
ShardsFit strict n = n ≡ 1
ShardsFit sharded n = 2 ≤ n

abbrev pub name_of : Ordering → String
name_of strict = "strict"
name_of sharded = "sharded"

-- The arguments that name the fields of a configuration.
abbrev pub arguments_of : RelayConfig → Arguments
arguments_of self = record {
  batch_size = pos self.batch_size;
  poll_interval = pos self.poll_interval;
  ordering = name_of self.ordering;
  shard_count = pos self.shard_count;
  shard_index = pos self.shard_index;
  max_attempts = pos self.max_attempts;
  advisory_lock_key = self.advisory_lock_key;
  retry_backoff = pos self.retry_backoff;
  max_backoff = pos self.max_backoff;
  standby_interval = pos self.standby_interval;
}

pub record IsAccepted (arguments : Arguments) (self : RelayConfig) : Type 0 where
  pub named : arguments ≡ arguments_of self
  pub batch : 1 ≤ self.batch_size
  pub attempts : 1 ≤ self.max_attempts
  pub index : self.shard_index < self.shard_count
  pub shards : ShardsFit self.ordering self.shard_count
  pub key : IsInt32 self.advisory_lock_key

fits : (key : Option ℤ) → (too_large key ≡ false) ↔ IsInt32 key
fits none = ground arith
fits (some (pos n)) = ground arith
fits (some (negsuc n)) = ground arith

guard :
    {A : Type 0} (b : Bool) (rest : Result Error A) {a : A}
    → (if b then err configuration else rest) ≡ ok a
    → (b ≡ false) × (rest ≡ ok a)
guard true rest h = absurd (cc)
guard false rest h = (refl, h)

ok-injective : {A : Type 0} (a b : A) → Path (Result Error A) (ok a) (ok b) → a ≡ b
ok-injective a b h = cc

passed :
    {A : Type 0} (b : Bool) (rest : Result Error A) {a : A}
    → b ≡ false
    → rest ≡ ok a
    → (if b then err configuration else rest) ≡ ok a
passed true rest e h = absurd (cc)
passed false rest e h = h

ordering_named :
    (o : String) → not (o == "strict" || o == "sharded") ≡ false → o ≡ name_of (ordering_of o)
ordering_named o h = elim (Bool-cases (o == "strict")) [
  | inl one ↦ rw one ((string_eq.equals_iff o "strict").0 one)
  | inr other ↦ elim (Bool-cases (o == "sharded")) [
    | inl many ↦ rw other ((string_eq.equals_iff o "sharded").0 many)
    | inr neither ↦ absurd (ground (arith, other, neither, h))
  ]
]

config_of-arguments_of : (self : RelayConfig) → config_of (arguments_of self) ≡ self
config_of-arguments_of self = ap (λ o. record self { ordering = o }) (same self.ordering)
  where
    same : (o : Ordering) → ordering_of (name_of o) ≡ o
    same strict = refl
    same sharded = refl

fits_shards :
    (o : Ordering) (n : ℕ)
    → ((name_of o == "strict" && not (pos n == pos 1) ≡ false)
        × (name_of o == "sharded" && int_ltb (pos n) (pos 2) ≡ false))
      ↔ ShardsFit o n
fits_shards strict n = ground arith
fits_shards sharded n = ground arith

-- The arguments of a call that passed the tests name natural numbers.
passed_named :
    (a : Arguments)
    → not (a.ordering == "strict" || a.ordering == "sharded") ≡ false
    → int_ltb a.batch_size (pos 1) ≡ false
    → int_ltb a.max_attempts (pos 1) ≡ false
    → int_ltb (least_interval a) (pos 0) ≡ false
    → int_ltb a.shard_count (pos 1) ≡ false
    → int_ltb a.shard_index (pos 0) ≡ false
    → a ≡ arguments_of (config_of a)
passed_named a order batch attempts least count index =
    let (poll, least₁) = int_min-positive a.poll_interval _ 0 least in
    let (retry, least₂) = int_min-positive a.retry_backoff _ 0 least₁ in
    let (most, standby) = int_min-positive a.max_backoff a.standby_interval 0 least₂ in
    rw
      (
        ← (ordering_named a.ordering order),
        ← (pos-magnitude a.batch_size 1 batch).0,
        ← (pos-magnitude a.max_attempts 1 attempts).0,
        ← (pos-magnitude a.shard_count 1 count).0,
        ← (pos-magnitude a.shard_index 0 index).0,
        ← (pos-magnitude a.poll_interval 0 poll).0,
        ← (pos-magnitude a.retry_backoff 0 retry).0,
        ← (pos-magnitude a.max_backoff 0 most).0,
        ← (pos-magnitude a.standby_interval 0 standby).0,
      )
      refl

-- The arguments of an accepted call are not negative.
accepts_named :
    (a : Arguments) (self : RelayConfig) → post_init a ≡ ok self → a ≡ arguments_of (config_of a)
unfolding post_init
accepts_named a self h =
    let (order, h₀) = guard (not (a.ordering == "strict" || a.ordering == "sharded")) _ h in
    let (batch, h₁) = guard (int_ltb a.batch_size (pos 1)) _ h₀ in
    let (attempts, h₂) = guard (int_ltb a.max_attempts (pos 1)) _ h₁ in
    let (least, h₃) = guard (int_ltb (least_interval a) (pos 0)) _ h₂ in
    let (count, h₄) = guard (int_ltb a.shard_count (pos 1)) _ h₃ in
    let (index, h₅) =
      guard (not (int_leb (pos 0) a.shard_index && int_ltb a.shard_index a.shard_count)) _ h₄ in
    passed_named a order batch attempts least count (ground (arith, index))

accepts_fields :
    (a : Arguments) (c self : RelayConfig)
    → a ≡ arguments_of c
    → post_init (arguments_of c) ≡ ok self
    → IsAccepted a self
unfolding post_init
accepts_fields a c self named h =
    let (order, h₀) =
      guard (not (name_of c.ordering == "strict" || name_of c.ordering == "sharded")) _ h in
    let (batch, h₁) = guard (int_ltb (pos c.batch_size) (pos 1)) _ h₀ in
    let (attempts, h₂) = guard (int_ltb (pos c.max_attempts) (pos 1)) _ h₁ in
    let (least, h₃) = guard (int_ltb (least_interval (arguments_of c)) (pos 0)) _ h₂ in
    let (count, h₄) = guard (int_ltb (pos c.shard_count) (pos 1)) _ h₃ in
    let (index, h₅) =
      guard
        (not
          (int_leb (pos 0) (pos c.shard_index) && int_ltb (pos c.shard_index) (pos c.shard_count)))
        _ h₄ in
    let (one, h₆) =
      guard (name_of c.ordering == "strict" && not (pos c.shard_count == pos 1)) _ h₅ in
    let (many, h₇) =
      guard (name_of c.ordering == "sharded" && int_ltb (pos c.shard_count) (pos 2)) _ h₆ in
    let (key, made) = guard (too_large c.advisory_lock_key) _ h₇ in
    let same : c ≡ self = sym (config_of-arguments_of c) ∙ ok-injective _ _ made in
    rw (← same) (record {
      named = named;
      batch = ground (arith, batch);
      attempts = ground (arith, attempts);
      index = ground (arith, index);
      shards = (fits_shards c.ordering c.shard_count).0 (one, many);
      key = (fits c.advisory_lock_key).0 key;
    })

accepts : (a : Arguments) (self : RelayConfig) → post_init a ≡ ok self → IsAccepted a self
accepts a self h =
    let named = accepts_named a self h in
    accepts_fields a (config_of a) self named (ap post_init (sym named) ∙ h)

not_negative :
    (a b c d : ℕ)
    → int_ltb (int_min (pos a) (int_min (pos b) (int_min (pos c) (pos d)))) (pos 0) ≡ false
not_negative a b c d = ground arith

known_ordering : (o : Ordering) → not (name_of o == "strict" || name_of o == "sharded") ≡ false
known_ordering strict = refl
known_ordering sharded = refl

is_accepted : (a : Arguments) (self : RelayConfig) → IsAccepted a self → post_init a ≡ ok self
unfolding post_init
is_accepted a self h =
    let shards = (fits_shards self.ordering self.shard_count).1 h.shards in
    let batch = h.batch in
    let attempts = h.attempts in
    let index = h.index in
    ap post_init h.named
    ∙ passed _ _ (known_ordering self.ordering) (
        passed (int_ltb (pos self.batch_size) (pos 1)) _ (ground (arith, batch)) (
          passed (int_ltb (pos self.max_attempts) (pos 1)) _ (ground (arith, attempts)) (
            passed _ _
              (not_negative self.poll_interval self.retry_backoff self.max_backoff
                self.standby_interval)
              (passed (int_ltb (pos self.shard_count) (pos 1)) _ (ground (arith, index)) (
                passed
                  (not (
                    int_leb (pos 0) (pos self.shard_index)
                    && int_ltb (pos self.shard_index) (pos self.shard_count)))
                  _ (ground (arith, index))
                  (passed _ _ shards.0 (
                    passed _ _ shards.1 (
                      passed _ _ ((fits self.advisory_lock_key).1 h.key)
                        (ap ok (config_of-arguments_of self))))))))))

-- A call is accepted exactly if its arguments are the fields of the configuration that it returns, none
-- of the numbers negative, a batch and the attempts are at least one, its shard is one of its shards, strict
-- ordering has one shard and sharded ordering at least two, and its lock key, if it has one, has 32 bits.
pub post_init-IsAccepted :
    (a : Arguments) (self : RelayConfig) → (post_init a ≡ ok self) ↔ IsAccepted a self
post_init-IsAccepted a self = (accepts a self, is_accepted a self)

lock_of : Ordering → ℕ → ℕ
lock_of o index = if is_strict o then 0 else index + 1

abbrev SameLock : Ordering → Ordering → ℕ → ℕ → Type 0
SameLock o p i j = ((o ≡ strict) × (p ≡ strict)) ⊎ ((o ≡ sharded) × ((p ≡ sharded) × (i ≡ j)))

lock_of-apart : (o p : Ordering) (i j : ℕ) → lock_of o i ≡ lock_of p j → SameLock o p i j
unfolding lock_of
lock_of-apart strict strict i j h = inl (refl, refl)
lock_of-apart strict sharded i j h = absurd (omega (arith, h))
lock_of-apart sharded strict i j h = absurd (omega (arith, h))
lock_of-apart sharded sharded i j h = inr (refl, (refl, omega (arith, h)))

-- Two relays with the same second lock number are both strict, or are both sharded and have the same
-- shard: a strict relay's lock is no sharded relay's lock.
pub lock_shard-apart :
    (a b : RelayConfig)
    → lock_shard a ≡ lock_shard b
    → ((a.ordering ≡ strict) × (b.ordering ≡ strict))
      ⊎ ((a.ordering ≡ sharded) × ((b.ordering ≡ sharded) × (a.shard_index ≡ b.shard_index)))
unfolding lock_shard lock_of
lock_shard-apart a b h = lock_of-apart a.ordering b.ordering a.shard_index b.shard_index h

leb-gt : (a b : ℕ) → b < a → leb a b ≡ false
leb-gt a b h = ground arith

leb-le : (a b : ℕ) → a ≤ b → leb a b ≡ true
leb-le a b h = ground arith

abbrev pub delay : RelayConfig → ℕ → ℕ
delay self n = min self.max_backoff (self.retry_backoff * 2 ^ (n - 1))

pub backoff-delay :
    (self : RelayConfig) (n : ℕ) → n ≤ 1024 → 1 ≤ n → backoff self n ≡ ok (delay self n)
unfolding backoff float_power
backoff-delay self n h one = rw (leb-gt 1024 (n - 1) (omega arith)) refl

delay-grows : (self : RelayConfig) (m n : ℕ) → m ≤ n → delay self m ≤ delay self n
delay-grows self m n h = le-min (min-le_left self.max_backoff _) (
    le_trans (min-le_right self.max_backoff _)
      (mul-le-mul_left self.retry_backoff (pow-le-pow_right (omega arith) (omega arith))))

-- From the first failing pass in a row up to the 1024th the delay does not shrink and stays under the bound.
pub backoff-grows :
    (self : RelayConfig) (m n : ℕ)
    → 1 ≤ m
    → m ≤ n
    → n ≤ 1024
    → (d : ℕ) × ((e : ℕ) × ((backoff self m ≡ ok d)
          × ((backoff self n ≡ ok e) × (d ≤ e × e ≤ self.max_backoff))))
backoff-grows self m n one h most = (
  delay self m,
  (
    delay self n,
    (
      backoff-delay self m (omega arith) one,
      (
        backoff-delay self n most (omega arith),
        (delay-grows self m n h, min-le_left self.max_backoff _),
      ),
    ),
  ),
)

-- From the 1025th on, the power of two is too large for a float.
pub backoff-overflows : (self : RelayConfig) (n : ℕ) → 1025 ≤ n → backoff self n ≡ err overflow
unfolding backoff float_power
backoff-overflows self n h = rw (leb-le 1024 (n - 1) (omega arith)) refl
