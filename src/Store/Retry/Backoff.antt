-- ===== src/Store/Retry/Backoff.antt =====
-- retry.ts: which failures are retried, and when.
use hrp_crm.Base.{
  cancel_right, ℕ, ◌+◌, ◌-◌, ◌*◌, ◌/◌, ◌≤◌, ◌<◌, ◌≡◌, ◌↔◌, true, arith, min, suc, ap,
}
use native.Mathlib.Nat.{pow-suc}
use hrp_crm.Store.{StoreError, ok}
use hrp_crm.Store.Retry.{
  RetryPolicy, Draw, is_retryable, backoff, jittered, compute_next_attempt_at, decide_retry_state,
  retry_scheduled, assert_valid_policy,
}

-- What `assertValidPolicy` accepts, with the fraction's denominator positive.
pub record IsValid (p : RetryPolicy) : Type 0 where
  pub base : 1 ≤ p.base_ms
  pub cap : p.base_ms ≤ p.max_ms
  pub some_attempts : 1 ≤ p.max_attempts
  pub few_attempts : p.max_attempts ≤ 20
  pub jitter : 2 * p.jitter_num ≤ p.jitter_den

-- The check accepts exactly the policies that `IsValid` describes: a positive base of at most the
-- cap, 1 to 20 attempts and a jitter of at most a half.
pub assert_valid_policy_iff : (p : RetryPolicy) → (assert_valid_policy p ≡ ok tt) ↔ IsValid p
unfolding assert_valid_policy
assert_valid_policy_iff p = (λ h. ground arith, λ v. ground arith)

pub decide_retry_state_iff :
    (p : RetryPolicy) (n : ℕ) (err : StoreError)
    → (decide_retry_state p n err ≡ retry_scheduled)
      ↔ ((is_retryable err ≡ true) × (n < p.max_attempts))
unfolding decide_retry_state
decide_retry_state_iff p n err = (λ h. ground arith, λ h. ground arith)

-- The product of the exponential delay with a factor that lies between two others.
scale_bounds : (e lo x hi : ℕ) → lo ≤ x → x ≤ hi → (e * lo ≤ e * x) × (e * x ≤ e * hi)
scale_bounds e lo x hi h k = (grind arith, grind arith)

round_bounds :
    (total den : ℕ)
    → 0 < den
    → let q = (2 * total + den) / (2 * den) in
      (q * (2 * den) ≤ 2 * total + den) × (2 * total ≤ q * (2 * den) + den)
round_bounds total den h = (grind arith, grind arith)

-- The factor that `jittered` multiplies by, between `1 - jitter` and `1 + jitter`.
factor_bounds :
    (jd jn ud un : ℕ)
    → un < ud
    → jn ≤ jd
    → ((jd - jn) * ud ≤ jd * ud + 2 * un * jn - ud * jn)
      × (jd * ud + 2 * un * jn - ud * jn ≤ (jd + jn) * ud)
factor_bounds jd jn ud un h v = (low, high)
  where
    fewer : un * jn ≤ ud * jn
    fewer = grind arith

    split : jd * ud ≡ (jd - jn) * ud + jn * ud
    split = let e : jd ≡ (jd - jn) + jn = omega arith in omega (arith, ap (λ (t : ℕ). t * ud) e)

    low : (jd - jn) * ud ≤ jd * ud + 2 * un * jn - ud * jn
    low = omega (arith, fewer, split)

    high : jd * ud + 2 * un * jn - ud * jn ≤ (jd + jn) * ud
    high = omega (arith, fewer, split)

backoff-le : (p : RetryPolicy) (n : ℕ) → backoff p n ≤ p.max_ms
unfolding backoff
backoff-le p n = omega arith

-- The common denominator's second factor cancels.
rescale_above :
    (q e f c jd ud : ℕ)
    → 0 < ud
    → q * (2 * (jd * ud)) ≤ 2 * (e * f) + jd * ud
    → e * f ≤ e * (c * ud)
    → q * (2 * jd) ≤ 2 * e * c + jd
rescale_above q e f c jd ud pos h k = cancel_right _ _ ud pos (omega arith)

rescale_below :
    (q e f c jd ud : ℕ)
    → 0 < ud
    → 2 * (e * f) ≤ q * (2 * (jd * ud)) + jd * ud
    → e * (c * ud) ≤ e * f
    → 2 * e * c ≤ q * (2 * jd) + jd
rescale_below q e f c jd ud pos h k = cancel_right _ _ ud pos (omega arith)

-- The delay lies within the jitter of the exponential delay, up to half a millisecond.
pub jittered_bounds :
    (p : RetryPolicy) (d : Draw) (exp : ℕ)
    → 0 < p.jitter_den
    → p.jitter_num ≤ p.jitter_den
    → d.draw_num < d.draw_den
    → (2 * exp * (p.jitter_den - p.jitter_num)
        ≤ jittered p d exp * (2 * p.jitter_den) + p.jitter_den)
      × (jittered p d exp * (2 * p.jitter_den)
          ≤ 2 * exp * (p.jitter_den + p.jitter_num) + p.jitter_den)
unfolding jittered
jittered_bounds p d exp pos small draw =
    let den = p.jitter_den * d.draw_den in
    let factor = den + 2 * d.draw_num * p.jitter_num - d.draw_den * p.jitter_num in
    let positive : 0 < den = grind arith in
    let (low, high) = factor_bounds p.jitter_den p.jitter_num d.draw_den d.draw_num draw small in
    let (below, above) =
      scale_bounds exp ((p.jitter_den - p.jitter_num) * d.draw_den) factor
        ((p.jitter_den + p.jitter_num) * d.draw_den) low high in
    let (under, over) = round_bounds (exp * factor) den positive in
    let drawn : 0 < d.draw_den = omega arith in
    (
      rescale_below _ exp factor _ p.jitter_den d.draw_den drawn over below,
      rescale_above _ exp factor _ p.jitter_den d.draw_den drawn under above,
    )

half_again :
    (q e jd jn most : ℕ)
    → 0 < jd
    → 2 * jn ≤ jd
    → q * (2 * jd) ≤ 2 * e * (jd + jn) + jd
    → e ≤ most
    → 2 * q ≤ 3 * most + 1
half_again q e jd jn most pos small h capped =
    omega (arith, cancel_right (2 * q) (3 * e + 1) jd pos scaled)
  where
    more : e * (2 * jn) ≤ e * jd
    more = (scale_bounds e (2 * jn) (2 * jn) jd (omega arith) small).1

    scaled : 2 * q * jd ≤ (3 * e + 1) * jd
    scaled = omega (arith, more)

-- The next attempt is never before the clock's time. With a valid policy, whatever the draw, it is
-- at most half again the cap later, rounding up included.
pub compute_next_attempt_at_bounds :
    (p : RetryPolicy) (n now : ℕ) (d : Draw)
    → IsValid p
    → 0 < p.jitter_den
    → d.draw_num < d.draw_den
    → (now ≤ compute_next_attempt_at p n now d)
      × (2 * compute_next_attempt_at p n now d ≤ 2 * now + 3 * p.max_ms + 1)
unfolding compute_next_attempt_at
compute_next_attempt_at_bounds p n now d v pos draw =
    let (_, above) = jittered_bounds p d (backoff p n) pos (omega arith) draw in
    let later =
      half_again _ (backoff p n) p.jitter_den p.jitter_num p.max_ms pos v.jitter above
        (backoff-le p n) in
    (omega arith, omega arith)

-- The delay of attempt `n` is the base doubled `n` times, capped: it doubles with each attempt
-- until it meets the cap, and stays there.
pub backoff_doubles :
    (p : RetryPolicy) (n : ℕ)
    → (backoff p 0 ≡ min p.base_ms p.max_ms) × (backoff p (n + 1) ≡ min (2 * backoff p n) p.max_ms)
unfolding backoff
backoff_doubles p n =
    let same : n + 1 + 1 - 1 ≡ suc n = omega arith in
    let less : n + 1 - 1 ≡ n = omega arith in (omega arith, rw (same, less, pow-suc) (omega arith))
