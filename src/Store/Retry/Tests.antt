-- ===== src/Store/Retry/Tests.antt =====
-- retry.ts under the default policy: the theorems at inputs that meet their hypotheses.
use hrp_crm.Base.{◌+◌, ◌*◌, ◌≤◌, arith}
use hrp_crm.Store.Retry.{Draw, default_retry_policy, compute_next_attempt_at}
use hrp_crm.Store.Retry.Backoff.{IsValid, compute_next_attempt_at_bounds}

abbrev middle : Draw
middle = record { draw_num = 1; draw_den = 2 }

default_retry_policy-IsValid : IsValid default_retry_policy
default_retry_policy-IsValid = record {
  base = omega arith;
  cap = omega arith;
  some_attempts = omega arith;
  few_attempts = omega arith;
  jitter = omega arith;
}

compute_next_attempt_at_bounds_example :
    (1000 ≤ compute_next_attempt_at default_retry_policy 3 1000 middle)
    × (2 * compute_next_attempt_at default_retry_policy 3 1000 middle
        ≤ 2 * 1000 + 3 * default_retry_policy.max_ms + 1)
compute_next_attempt_at_bounds_example =
    compute_next_attempt_at_bounds default_retry_policy 3 1000 middle default_retry_policy-IsValid
      (omega arith) (omega arith)
