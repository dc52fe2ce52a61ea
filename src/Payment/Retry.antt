-- ===== src/Payment/Retry.antt =====
-- `retryWithBackoff` (infrastructure/pg/backoff-retry.util.ts): the call and the sleep are
-- parameters, and `throw lastError` of no error at all is `none`.
pub mod Laws
use public_nest_server.Base.{
  ℕ, zero, suc, ◌+◌, ◌*◌, ◌-◌, ◌^◌, ◌==◌, Option, none, some, Result, ok, err, Action,
  if◌then◌else◌,
}

pub record RetryOptions : Type 0 where
  pub max_attempts : ℕ
  pub base_delay_ms : ℕ

module _ {E S A : Type 0} (fn : Action E S A) (sleep : ℕ → S → S) (options : RetryOptions) where
  -- The loop `for (attempt = 1; attempt <= maxAttempts; attempt++)`, by the rounds that are left.
  unfoldable pub retry_from : ℕ → ℕ → Option E → Action (Option E) S A
  retry_from zero attempt last s = (err last, s)
  retry_from (suc rounds) attempt last s =
      let (r, s') = fn s in
      elim r [
        | ok a ↦ (ok a, s')
        | err e ↦
            let again =
              retry_from rounds (attempt + 1) (some e)
                (sleep (options.base_delay_ms * 2 ^ (attempt - 1)) s') in
            if attempt == options.max_attempts then (err (some e), s') else again
      ]

  unfoldable pub retry_with_backoff : Action (Option E) S A
  unfolding retry_from
  retry_with_backoff = retry_from options.max_attempts 1 none
