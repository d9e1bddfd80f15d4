-- ===== src/Retry.antt =====
-- retry.ts: an operation that is tried again after a delay. The operation and the random part of a delay
-- are parameters; times are natural numbers.
mod Tests
use ultra_fabric.Prelude.{
  ℕ, zero, suc, ◌+◌, ◌*◌, ◌^◌, ◌-◌, ◌≤◌, ◌≡◌, refl, Bool, true, false, not, Option, none, some,
  List, [], ◌∷◌, ◌⊎◌, inl, inr, arith, min, if◌then◌else◌, length, All, Bool-cases,
}

pub record RetryOptions (E : Type 0) : Type 0 where
  pub max_attempts : ℕ
  pub base_delay : ℕ
  pub max_delay : ℕ
  pub jitter : ℕ
  pub should_retry : E → ℕ → Bool
  pub retry_after_seconds : E → ℕ → Option ℕ

-- How the call ends, and the delays that it slept. `failed none` throws `undefined`, when no attempt is
-- allowed.
pub data Ending (E V : Type 0) : Type 0 where
  returned : V → Ending E V
  failed : Option E → Ending E V

module _ {E V : Type 0} (options : RetryOptions E) (random_jitter : ℕ → ℕ)
    (operation : ℕ → E ⊎ V) where
  unfoldable pub delay_after : Option ℕ → ℕ → ℕ
  delay_after (some seconds) attempt = min (seconds * 1_000) options.max_delay
  delay_after none attempt =
      min (options.base_delay * 2 ^ (attempt - 1)) options.max_delay + random_jitter attempt

  -- What follows a failed attempt, when `rest` is what the later attempts give.
  unfoldable pub after_failure : ℕ → ℕ → Ending E V × List ℕ → E ⊎ V → Ending E V × List ℕ
  after_failure left attempt rest (inr v) = (returned v, [])
  after_failure zero attempt rest (inl e) = (failed (some e), [])
  after_failure (suc n) attempt rest (inl e) =
      if not (options.should_retry e attempt)
      then (failed (some e), [])
      else (rest.0, delay_after (options.retry_after_seconds e attempt) attempt ∷ rest.1)

  -- The loop, with the number of attempts that are left.
  unfoldable pub retry_from : ℕ → ℕ → Ending E V × List ℕ
  retry_from zero attempt = (failed none, [])
  retry_from (suc n) attempt =
      after_failure n attempt (retry_from n (attempt + 1)) (operation attempt)

  unfoldable pub retry_with_backoff : Ending E V × List ℕ
  retry_with_backoff = retry_from options.max_attempts 1

  delay_after-bound :
      (after : Option ℕ) (attempt : ℕ)
      → random_jitter attempt ≤ options.jitter
      → delay_after after attempt ≤ options.max_delay + options.jitter
  unfolding delay_after
  delay_after-bound none attempt h = omega arith
  delay_after-bound (some s) attempt h = omega arith

  module _ (bounded : (attempt : ℕ) → random_jitter attempt ≤ options.jitter) where
    after_failure-bounds :
        (left attempt : ℕ) (rest : Ending E V × List ℕ) (result : E ⊎ V)
        → length rest.1 + 1 ≤ left ⊎ left ≡ 0
        → All (λ d. d ≤ options.max_delay + options.jitter) rest.1
        → (length (after_failure left attempt rest result).1 ≤ left)
          × All
              (λ d. d ≤ options.max_delay + options.jitter)
              (after_failure left attempt rest result).1
    unfolding after_failure
    after_failure-bounds left attempt rest (inr v) s h = (omega arith, tt)
    after_failure-bounds zero attempt rest (inl e) s h = (omega arith, tt)
    after_failure-bounds (suc n) attempt rest (inl e) s h =
        elim (Bool-cases (options.should_retry e attempt)) [
          | inl q ↦ rw q (ground arith, (delay_after-bound _ attempt (bounded attempt), h))
          | inr q ↦ rw q (omega arith, tt)
        ]

    retry_from-bounds :
        (n attempt : ℕ)
        → (length (retry_from n attempt).1 + 1 ≤ n ⊎ n ≡ 0)
          × All (λ d. d ≤ options.max_delay + options.jitter) (retry_from n attempt).1
    unfolding retry_from
    retry_from-bounds zero attempt = (inr refl, tt)
    retry_from-bounds (suc n) attempt =
        let (short, low) = retry_from-bounds n (attempt + 1) in
        let (less, all_low) =
          after_failure-bounds n attempt (retry_from n (attempt + 1)) (operation attempt) short
            low in
        (inl (omega (arith, less)), all_low)

    -- When the random part of a delay is within the jitter, a call sleeps less often than it may attempt,
    -- if it may attempt at all, and no delay is longer than the longest delay and the jitter.
    pub retry_with_backoff-bounds :
        (length retry_with_backoff.1 + 1 ≤ options.max_attempts ⊎ options.max_attempts ≡ 0)
        × All (λ d. d ≤ options.max_delay + options.jitter) retry_with_backoff.1
    unfolding retry_with_backoff
    retry_with_backoff-bounds = retry_from-bounds options.max_attempts 1
