-- ===== src/Agent/Retry/Delay.antt =====
-- How long the client waits before it tries again.
use native.Mathlib.Nat.{mul-le-mul_left}
use mtbank_ai_call_analytics.Prelude.{
  ℕ, ◌+◌, ◌*◌, ◌/◌, ◌≤◌, Option, none, some, arith, min, max, ◌^◌,
}
use mtbank_ai_call_analytics.Agent.Retry.Defs.{RetryPolicy, retry_delay, jittered, random_unit}

div_bounds :
    (c x : ℕ)
    → c * random_unit ≤ x
    → x ≤ c * (2 * random_unit)
    → (c / 2 ≤ x / (2 * random_unit)) × (x / (2 * random_unit) ≤ c)
div_bounds c x lo hi = omega arith

pub jittered_bounds :
    (capped random : ℕ) → (capped / 2 ≤ jittered capped random) × (jittered capped random ≤ capped)
unfolding jittered
jittered_bounds capped random =
    div_bounds capped (capped * (random_unit + min random random_unit))
      (mul-le-mul_left capped (omega arith)) (mul-le-mul_left capped (omega arith))

-- Where the provider names a delay, the delay of a retry is at most that and at most
-- `max_retry_after`; otherwise it is at most the smaller of `base_delay * 2 ^ attempt` and
-- `max_delay`, and at least half of it, rounded down.
pub retry_delay_bounds :
    (p : RetryPolicy) (attempt random hint : ℕ)
    → (retry_delay (some hint) attempt p random ≤ p.max_retry_after)
      × (retry_delay (some hint) attempt p random ≤ hint)
      × (retry_delay none attempt p random ≤ min (p.base_delay * 2 ^ attempt) p.max_delay)
      × (min (p.base_delay * 2 ^ attempt) p.max_delay / 2 ≤ retry_delay none attempt p random)
unfolding retry_delay
retry_delay_bounds p attempt random hint =
    let (lo, hi) = jittered_bounds (min (p.base_delay * 2 ^ attempt) p.max_delay) random in
    (omega arith, omega arith, hi, lo)

pub retry_delay-le_cap :
    (p : RetryPolicy) (hint : Option ℕ) (attempt random : ℕ)
    → retry_delay hint attempt p random ≤ max p.max_delay p.max_retry_after
retry_delay-le_cap p none attempt random =
    let h = retry_delay_bounds p attempt random 0 in omega arith
retry_delay-le_cap p (some hint) attempt random =
    let h = retry_delay_bounds p attempt random hint in omega arith
