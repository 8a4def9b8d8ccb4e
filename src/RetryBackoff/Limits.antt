-- ===== src/RetryBackoff/Limits.antt =====
-- The configurations that listener/src/utils/retry-backoff-config.ts accepts, and their delays.
use notify_chain.Prelude.{
  ℕ, zero, suc, min, leb, ◌+◌, ◌*◌, ◌^◌, ◌≤◌, ◌<◌, ◌≡◌, ◌↔◌, refl, sym, ap, ◌∙◌, inl, inr, Bool,
  true, false, Option, none, some, List, [], ◌∷◌, arith, if◌then◌else◌, Bool-cases,
}
use native.Mathlib.Nat.{pow-zero, pow-suc, mul-le-mul_left, mul-le-mul_right}
use notify_chain.RetryPolicy.{delay_unit}
use notify_chain.RetryBackoff.{
  Value, whole, negative, no_number, Candidate, RetryBackoffConfig, PartialRetryBackoffConfig,
  Issue, type_issues, lower_issues, range_issues, validate_retry_backoff_config, merge, accepted,
  check, is_boolean, is_at_least, is_at_most, is_not_below, is_none, resolve_retry_backoff_config,
  base_delay, calculate_backoff_delay,
}

-- The candidate holds exactly these numbers, and they lie in the hard bounds.
pub record IsBounded (m : Candidate) (c : RetryBackoffConfig) : Type 0 where
  pub initial_delay : m.initial_delay_ms ≡ whole c.initial_delay_ms
  pub max_delay : m.max_delay_ms ≡ whole c.max_delay_ms
  pub retries : m.max_retries ≡ whole c.max_retries
  pub factor : m.multiplier ≡ whole c.multiplier
  pub jitters : m.jitter ≡ some c.jitter
  pub ordered : c.initial_delay_ms ≤ c.max_delay_ms
  pub day : c.max_delay_ms ≤ 86400000
  pub few : c.max_retries ≤ 1000
  pub growing : 1 ≤ c.multiplier
  pub slow : c.multiplier ≤ 100

check-none : (b : Bool) (i : Issue) (is : List Issue) → check b i is ≡ [] → (b ≡ true) × (is ≡ [])
check-none true i is h = (refl, h)
check-none false i [] h = absurd (ground (arith, h))
check-none false i (j ∷ is) h = absurd (ground (arith, h))

check-keeps : (b : Bool) (i : Issue) (is : List Issue) → b ≡ true → is ≡ [] → check b i is ≡ []
check-keeps true i is h none_before = none_before
check-keeps false i is h none_before = absurd (ground (arith, h))

is_at_least-whole : (n : ℕ) (v : Value) → is_at_least n v ≡ true → (k : ℕ) × (v ≡ whole k) × (n ≤ k)
is_at_least-whole n (whole k) h = (k, refl, ground (arith, h))
is_at_least-whole n (negative k) h = absurd (ground (arith, h))
is_at_least-whole n no_number h = absurd (ground (arith, h))

jitter-some : (j : Option Bool) → is_boolean j ≡ true → (b : Bool) × (j ≡ some b)
jitter-some none h = absurd (ground (arith, h))
jitter-some (some b) h = (b, refl)

is_none-eq : (is : List Issue) → is_none is ≡ true → is ≡ []
is_none-eq [] h = refl
is_none-eq (i ∷ is) h = absurd (ground (arith, h))

validate_split :
    (m : Candidate)
    → validate_retry_backoff_config m ≡ []
    → (type_issues m ≡ []) × (range_issues m ≡ [])
unfolding validate_retry_backoff_config
validate_split m h = elim (Bool-cases (is_none (type_issues m))) [
  | inl typed ↦ (is_none-eq (type_issues m) typed, ground (arith, typed, h))
  | inr untyped ↦ absurd (ground (arith, untyped, h, ap is_none))
]

module _ (m : Candidate) where
  validate_sound : validate_retry_backoff_config m ≡ [] → (c : RetryBackoffConfig) × IsBounded m c
  unfolding type_issues range_issues lower_issues
  validate_sound h =
      let (typed, ranged) = validate_split m h in
      let (boolean, typed) = check-none (is_boolean m.jitter) _ _ typed in
      let (ordered, ranged) =
        check-none (is_not_below m.max_delay_ms m.initial_delay_ms) _ _ ranged in
      let (slow, ranged) = check-none (is_at_most m.multiplier 100) _ _ ranged in
      let (few, ranged) = check-none (is_at_most m.max_retries 1000) _ _ ranged in
      let (day, ranged) = check-none (is_at_most m.max_delay_ms 86400000) _ _ ranged in
      let (factor, ranged) = check-none (is_at_least 1 m.multiplier) _ _ ranged in
      let (retries, ranged) = check-none (is_at_least 0 m.max_retries) _ _ ranged in
      let (delay, ranged) = check-none (is_at_least 0 m.max_delay_ms) _ _ ranged in
      let (initial, ranged) = check-none (is_at_least 0 m.initial_delay_ms) _ _ ranged in
      let (i, at_i, i_low) = is_at_least-whole 0 m.initial_delay_ms initial in
      let (d, at_d, d_low) = is_at_least-whole 0 m.max_delay_ms delay in
      let (r, at_r, r_low) = is_at_least-whole 0 m.max_retries retries in
      let (f, at_f, f_low) = is_at_least-whole 1 m.multiplier factor in
      let (j, at_j) = jitter-some m.jitter boolean in
      (
        record {
          initial_delay_ms = i;
          max_delay_ms = d;
          max_retries = r;
          multiplier = f;
          jitter = j;
        },
        record {
          initial_delay = at_i;
          max_delay = at_d;
          retries = at_r;
          factor = at_f;
          jitters = at_j;
          ordered = ground (arith, ordered, at_i, at_d);
          day = ground (arith, day, at_d);
          few = ground (arith, few, at_r);
          growing = f_low;
          slow = ground (arith, slow, at_f);
        },
      )

  validate_complete :
      (c : RetryBackoffConfig) → IsBounded m c → validate_retry_backoff_config m ≡ []
  unfolding validate_retry_backoff_config type_issues range_issues lower_issues
  validate_complete c b = ground (
    arith, b.initial_delay, b.max_delay, b.retries, b.factor, b.jitters, b.ordered, b.day, b.few,
    b.growing, b.slow,
  )

  -- `resolveRetryBackoffConfig` accepts an input exactly if the input merged with the defaults consists
  -- of numbers in the hard bounds, and then returns that.
  pub resolve_retry_backoff_config-accepts :
      (input : PartialRetryBackoffConfig)
      → (resolve_retry_backoff_config input ≡ accepted m)
        ↔ ((merge input ≡ m) × ((c : RetryBackoffConfig) × IsBounded m c))
  unfolding resolve_retry_backoff_config
  resolve_retry_backoff_config-accepts input =
      let issues = validate_retry_backoff_config (merge input) in
      (
        (λ returned. elim (Bool-cases (is_none issues)) [
          | inl fine ↦
              let same : merge input ≡ m = ground (arith, fine, returned) in
              (
                same,
                validate_sound
                    (ap validate_retry_backoff_config (sym same) ∙ is_none-eq issues fine),
              )
          | inr wrong ↦ absurd (ground (arith, wrong, returned))
        ]),
        (λ (same, (c, b)).
            let fine : is_none issues ≡ true =
              ap (λ x. is_none (validate_retry_backoff_config x)) same
              ∙ ap is_none (validate_complete c b) in
            ground (arith, fine, same)),
      )

capped_product : (a m top : ℕ) → 1 ≤ m → min (a * m) top ≡ min (min a top * m) top
capped_product a m top h = elim (Bool-cases (leb a top)) [
  | inl below ↦ let same : min a top ≡ a = ground (arith, below) in rw same refl
  | inr above ↦
      let same : min a top ≡ top = ground (arith, above) in
      let more : top * m ≤ a * m = mul-le-mul_right m (ground (arith, above)) in
      let enough : top * 1 ≤ top * m = mul-le-mul_left top h in
      rw same (omega (arith, more, enough))
]

base_delay-suc :
    (k : ℕ) (c : RetryBackoffConfig)
    → 1 ≤ c.multiplier
    → base_delay (suc k) c ≡ min (base_delay k c * c.multiplier) c.max_delay_ms
unfolding base_delay
base_delay-suc k c h =
    let product : c.initial_delay_ms * c.multiplier ^ suc k
        ≡ c.initial_delay_ms * c.multiplier ^ k * c.multiplier =
      rw (pow-suc c.multiplier k) (grind arith) in
    ap (λ x. min x c.max_delay_ms) product
    ∙ capped_product (c.initial_delay_ms * c.multiplier ^ k) c.multiplier c.max_delay_ms h

base_delay-growing :
    (k : ℕ) (c : RetryBackoffConfig)
    → 1 ≤ c.multiplier
    → (base_delay k c ≤ c.max_delay_ms) × (base_delay k c ≤ base_delay (suc k) c)
base_delay-growing k c h =
    let top : base_delay k c ≤ c.max_delay_ms = unfold base_delay in omega arith in
    let more : base_delay k c * 1 ≤ base_delay k c * c.multiplier =
      mul-le-mul_left (base_delay k c) h in
    (top, omega (arith, base_delay-suc k c h, more, top))

base_delay-zero :
    (c : RetryBackoffConfig)
    → c.initial_delay_ms ≤ c.max_delay_ms
    → base_delay 0 c ≡ c.initial_delay_ms
unfolding base_delay
base_delay-zero c h = rw (pow-zero c.multiplier) (omega arith)

base_delay-least :
    (k : ℕ) (c : RetryBackoffConfig)
    → c.initial_delay_ms ≤ c.max_delay_ms
    → 1 ≤ c.multiplier
    → c.initial_delay_ms ≤ base_delay k c
base_delay-least zero c order h = omega (arith, base_delay-zero c order)
base_delay-least (suc k) c order h =
    omega (arith, base_delay-least k c order h, (base_delay-growing k c h).1)

scale_le : (r d k : ℕ) → d < k → r * d ≤ r * k
scale_le r d k h = grind arith

jitter_limits :
    (raw draw : ℕ) (jitter : Bool)
    → draw < 2 ^ 53
    → let delay = if jitter then raw * (3 * 2 ^ 52 + draw) else raw * delay_unit in
      (3 * (raw * delay_unit) ≤ 4 * delay) × (4 * delay ≤ 5 * (raw * delay_unit))
jitter_limits raw draw true drawn = (omega arith, omega (arith, scale_le raw draw (2 ^ 53) drawn))
jitter_limits raw draw false drawn = (omega arith, omega arith)

-- For a configuration in the hard bounds whose initial delay is positive: the delay before jitter is the
-- initial delay at the first retry, and at each further one the last delay times the multiplier, but
-- never more than the configured maximum; so it is at least the initial delay, never shrinks and never
-- exceeds that maximum. The delay with jitter is at least three quarters of it and at most five
-- quarters.
pub calculate_backoff_delay_limits :
    (m : Candidate) (c : RetryBackoffConfig) (retry_index draw : ℕ)
    → IsBounded m c
    → 0 < c.initial_delay_ms
    → draw < 2 ^ 53
    → (base_delay 0 c ≡ c.initial_delay_ms)
      × (base_delay (suc retry_index) c
          ≡ min (base_delay retry_index c * c.multiplier) c.max_delay_ms)
      × (c.initial_delay_ms ≤ base_delay retry_index c)
      × (base_delay retry_index c ≤ base_delay (suc retry_index) c)
      × (base_delay retry_index c ≤ c.max_delay_ms)
      × (3 * (base_delay retry_index c * delay_unit)
          ≤ 4 * calculate_backoff_delay retry_index c draw)
      × (4 * calculate_backoff_delay retry_index c draw
          ≤ 5 * (base_delay retry_index c * delay_unit))
unfolding calculate_backoff_delay
calculate_backoff_delay_limits m c k draw b positive drawn =
    let (top, more) = base_delay-growing k c b.growing in
    let (least, most) = jitter_limits (base_delay k c) draw c.jitter drawn in
    (
      base_delay-zero c b.ordered,
      base_delay-suc k c b.growing,
      base_delay-least k c b.ordered b.growing,
      more,
      top,
      least,
      most,
    )
