-- ===== src/Store/Retry.antt =====
-- packages/integration-store/src/worker/retry.ts. The jitter fraction is `jitter_num / jitter_den`
-- and a draw of `Math.random()` is `draw_num / draw_den`; sums are exact where the source has
-- doubles.
pub mod Backoff
mod Tests
use hrp_crm.Base.{
  ℕ, ◌+◌, ◌-◌, ◌*◌, ◌/◌, ◌^◌, ◌≤◌, ◌<◌, min, Bool, true, false, ◌||◌, not, if◌then◌else◌, ltb, leb,
  none, some, codes,
}
use hrp_crm.Store.{
  ErrorCode, validation_error, duplicate_key, version_conflict, scope_mismatch, transaction_failed,
  tenant_scope_required, idempotency_conflict, StoreError, store_error, Outcome, ok, throws,
}

pub record RetryPolicy : Type 0 where
  pub base_ms : ℕ
  pub max_ms : ℕ
  pub max_attempts : ℕ
  pub jitter_num : ℕ
  pub jitter_den : ℕ

abbrev pub default_retry_policy : RetryPolicy
default_retry_policy = record {
  base_ms = 1000;
  max_ms = 5 * 60000;
  max_attempts = 8;
  jitter_num = 1;
  jitter_den = 5;
}

-- A result of `Math.random()`.
pub record Draw : Type 0 where
  pub draw_num : ℕ
  pub draw_den : ℕ

-- `NON_RETRYABLE_CODES.has(code)`
abbrev is_non_retryable : ErrorCode → Bool
is_non_retryable validation_error = true
is_non_retryable version_conflict = true
is_non_retryable scope_mismatch = true
is_non_retryable tenant_scope_required = true
is_non_retryable idempotency_conflict = true
is_non_retryable duplicate_key = false
is_non_retryable transaction_failed = false

unfoldable pub is_retryable : StoreError → Bool
is_retryable err = if err.retryable then true else not (is_non_retryable err.code)

-- `Math.min(baseMs * 2 ** (nextAttempt - 1), maxMs)` with `nextAttempt = currentAttempts + 1`.
pub backoff : RetryPolicy → ℕ → ℕ
backoff policy current_attempts =
    let next_attempt = current_attempts + 1 in
    min (policy.base_ms * 2 ^ (next_attempt - 1)) policy.max_ms

-- `Math.max(0, Math.round(exp + (random * 2 - 1) * exp * jitterFraction))`. Over the common
-- denominator the sum is `exp * (den + 2 * draw * jitter - jitter)`; the difference on ℕ stops at 0
-- where the sum is negative, as `Math.max` does. `Math.round x` is the floor of `x + 1/2`.
pub jittered : RetryPolicy → Draw → ℕ → ℕ
jittered policy draw exp =
    let den = policy.jitter_den * draw.draw_den in
    let spread = 2 * draw.draw_num * policy.jitter_num in
    let total = exp * (den + spread - draw.draw_den * policy.jitter_num) in
    (2 * total + den) / (2 * den)

pub compute_next_attempt_at : RetryPolicy → ℕ → ℕ → Draw → ℕ
compute_next_attempt_at policy current_attempts now draw =
    now + jittered policy draw (backoff policy current_attempts)

pub data RetryDecision : Type 0 where
  retry_scheduled dead_lettered : RetryDecision

unfoldable pub decide_retry_state : RetryPolicy → ℕ → StoreError → RetryDecision
unfolding is_retryable
decide_retry_state policy current_attempts err =
    let over_attempts = leb policy.max_attempts current_attempts in
    if not (is_retryable err) || over_attempts then dead_lettered else retry_scheduled

pub assert_valid_policy : RetryPolicy → Outcome (Unit {0})
assert_valid_policy p =
    if ltb p.base_ms 1
    then throws (store_error validation_error (codes "baseMs < 1") none (some (codes "baseMs")))
    else if ltb p.max_ms p.base_ms
    then throws (store_error validation_error (codes "maxMs < baseMs") none (some (codes "maxMs")))
    else if ltb p.max_attempts 1 || ltb 20 p.max_attempts
    then throws (
        store_error validation_error (codes "maxAttempts out of range [1,20]") none
          (some (codes "maxAttempts")))
    else if ltb p.jitter_den (2 * p.jitter_num)
    then throws (
        store_error validation_error (codes "jitterFraction out of range [0,0.5]") none
          (some (codes "jitterFraction")))
    else ok tt
