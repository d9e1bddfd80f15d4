-- ===== src/Retry/Tests.antt =====
-- retry.ts at a concrete operation.
use ultra_fabric.Prelude.{
  ℕ, ◌+◌, ◌≤◌, ◌≡◌, refl, true, none, [], ◌∷◌, ◌⊎◌, inl, inr, arith, length, All, ltb,
  if◌then◌else◌,
}
use ultra_fabric.Retry.{
  RetryOptions, returned, retry_with_backoff, retry_from, after_failure, delay_after,
  retry_with_backoff-bounds,
}

abbrev options : RetryOptions ℕ
options = record {
  max_attempts = 3;
  base_delay = 100;
  max_delay = 1_000;
  jitter = 5;
  should_retry = λ e n. true;
  retry_after_seconds = λ e n. none;
}

abbrev third_time : ℕ → ℕ ⊎ ℕ
third_time n = if ltb n 3 then inl n else inr n

third_attempt_returns :
    retry_with_backoff options (λ n. 5) third_time ≡ (returned 3, 105 ∷ 205 ∷ [])
unfolding retry_with_backoff retry_from after_failure delay_after
third_attempt_returns = refl

retry_with_backoff-bounds_example :
    (length (retry_with_backoff options (λ n. 5) third_time).1 + 1 ≤ options.max_attempts
      ⊎ options.max_attempts ≡ 0)
    × All (λ d. d ≤ 1_000 + 5) (retry_with_backoff options (λ n. 5) third_time).1
retry_with_backoff-bounds_example =
    retry_with_backoff-bounds options (λ n. 5) third_time (λ n. omega arith)
