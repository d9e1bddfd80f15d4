-- ===== src/Budget/Restore.antt =====
-- Reading a stored usage back (agents/persistent/budget.ts).
use ultra_fabric.Prelude.{◌*◌, ◌≤◌, ◌≡◌, Option, none, some, arith}
use ultra_fabric.Prelude.Int.{ℤ, pos}
use ultra_fabric.Budget.{
  PolicyInput, Usage, Rejection, Value, other, number, bounded_integer, max_safe_integer,
  create_usage, normalize_policy,
}

-- The fields of a stored object. A `lastRejection` that is neither reason is `none`.
pub record Stored : Type 0 where
  pub lifetime_activations : Value
  pub lifetime_tokens : Value
  pub window_started_at : Value
  pub window_activations : Value
  pub window_tokens : Value
  pub rejected_activations : Value
  pub last_rejected_at : Value
  pub last_rejection : Option Rejection

time_or : Value → ℤ → ℤ
time_or other now = now
time_or (number z) now = z

optional_time : Value → Option ℤ
optional_time other = none
optional_time (number z) = some z

-- `none` is a value that is no object.
unfoldable pub restore : Option Stored → ℤ → Usage
unfolding bounded_integer create_usage time_or optional_time
restore none now = create_usage now
restore (some s) now = record {
  lifetime_activations = bounded_integer s.lifetime_activations 0 0 max_safe_integer;
  lifetime_tokens = bounded_integer s.lifetime_tokens 0 0 max_safe_integer;
  window_started_at = time_or s.window_started_at now;
  window_activations = bounded_integer s.window_activations 0 0 max_safe_integer;
  window_tokens = bounded_integer s.window_tokens 0 0 max_safe_integer;
  rejected_activations = bounded_integer s.rejected_activations 0 0 max_safe_integer;
  last_rejected_at = optional_time s.last_rejected_at;
  last_rejection = s.last_rejection;
}

optional_value : Option ℤ → Value
optional_value none = other
optional_value (some z) = number z

-- The usage as it is written: a field that is left out is no number.
pub store : Usage → Stored
unfolding optional_value
store u = record {
  lifetime_activations = number (pos u.lifetime_activations);
  lifetime_tokens = number (pos u.lifetime_tokens);
  window_started_at = number u.window_started_at;
  window_activations = number (pos u.window_activations);
  window_tokens = number (pos u.window_tokens);
  rejected_activations = number (pos u.rejected_activations);
  last_rejected_at = optional_value u.last_rejected_at;
  last_rejection = u.last_rejection;
}

pub record IsSafe (u : Usage) : Type 0 where
  pub lifetime_activations : u.lifetime_activations ≤ max_safe_integer
  pub lifetime_tokens : u.lifetime_tokens ≤ max_safe_integer
  pub window_activations : u.window_activations ≤ max_safe_integer
  pub window_tokens : u.window_tokens ≤ max_safe_integer
  pub rejected_activations : u.rejected_activations ≤ max_safe_integer

-- A usage whose counters are safe integers is read back as it was stored.
pub restore-store : (u : Usage) (now : ℤ) → IsSafe u → restore (some (store u)) now ≡ u
unfolding restore store
restore-store u now h = ground arith

-- Whatever is read, the counters that come back are safe integers.
pub restore-IsSafe : (v : Option Stored) (now : ℤ) → IsSafe (restore v now)
unfolding restore
restore-IsSafe none now = omega arith
restore-IsSafe (some s) now = ground arith

-- Whatever is configured, the caps are at most a million and the window lies between a second and
-- thirty days.
pub normalize_policy_bounds :
    (input : PolicyInput)
    → let p = normalize_policy input in
      (p.lifetime_activations ≤ 1_000_000)
      × (p.window_activations ≤ 1_000_000)
      × (1_000 ≤ p.window_ms)
      × (p.window_ms ≤ 30 * 86_400_000)
unfolding normalize_policy
normalize_policy_bounds input = ground arith
