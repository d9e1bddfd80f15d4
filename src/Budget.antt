-- ===== src/Budget.antt =====
-- agents/persistent/budget.ts: how often a persistent agent may be activated, over its life and in a
-- time window. Times are integers and counters natural numbers, exact at every size.
pub mod Window
pub mod Caps
pub mod Restore
pub mod Telemetry
mod Tests
use ultra_fabric.Prelude.{
  ℕ, suc, ◌+◌, ◌*◌, ◌≡◌, Bool, true, false, ◌&&◌, ◌||◌, Option, none, some, List, [], ◌∷◌, min, max,
  ltb, leb, if◌then◌else◌, or_default, length, count,
}
use ultra_fabric.Prelude.Int.{ℤ, pos, pos_part, neg_part, ltbℤ}

pub record Policy : Type 0 where
  pub lifetime_activations : ℕ
  pub window_activations : ℕ
  pub window_ms : ℕ

pub data Rejection : Type 0 where
  lifetime_exhausted window_exhausted : Rejection

pub record Usage : Type 0 where
  pub lifetime_activations : ℕ
  pub lifetime_tokens : ℕ
  pub window_started_at : ℤ
  pub window_activations : ℕ
  pub window_tokens : ℕ
  pub rejected_activations : ℕ
  pub last_rejected_at : Option ℤ
  pub last_rejection : Option Rejection

pub data Admission : Type 0 where
  open_admission : Admission
  refused : Rejection → Admission

pub record Snapshot : Type 0 where
  pub policy : Policy
  pub usage : Usage
  pub admission : Admission

-- An `unknown` value: a finite number, by its floor, or anything else.
pub data Value : Type 0 where
  other : Value
  number : ℤ → Value

-- The bounds are natural numbers, so a negative number counts as 0.
unfoldable pub bounded_integer : Value → ℕ → ℕ → ℕ → ℕ
bounded_integer other fallback lo hi = fallback
bounded_integer (number z) fallback lo hi = min hi (max lo (pos_part z))

-- A field that is missing is `other`; so are the fields of a missing input.
pub record PolicyInput : Type 0 where
  pub lifetime_activations : Value
  pub window_activations : Value
  pub window_ms : Value

unfoldable pub normalize_policy : PolicyInput → Policy
unfolding bounded_integer
normalize_policy input = record {
  lifetime_activations = bounded_integer input.lifetime_activations 0 0 1_000_000;
  window_activations = bounded_integer input.window_activations 0 0 1_000_000;
  window_ms = bounded_integer input.window_ms 3_600_000 1_000 (30 * 86_400_000);
}

unfoldable pub create_usage : ℤ → Usage
create_usage now = record {
  lifetime_activations = 0;
  lifetime_tokens = 0;
  window_started_at = now;
  window_activations = 0;
  window_tokens = 0;
  rejected_activations = 0;
  last_rejected_at = none;
  last_rejection = none;
}

-- `now - start >= ms`
abbrev pub elapsed : ℤ → ℤ → ℕ → Bool
elapsed start now ms = leb (ms + pos_part start + neg_part now) (pos_part now + neg_part start)

unfoldable pub current_window : Policy → Usage → ℤ → Usage
current_window policy usage now =
    if ltbℤ now usage.window_started_at || elapsed usage.window_started_at now policy.window_ms
    then record usage { window_started_at = now; window_activations = 0; window_tokens = 0 }
    else usage

unfoldable pub rejection : Policy → Usage → Option Rejection
rejection policy usage =
    if ltb 0 policy.lifetime_activations
      && leb policy.lifetime_activations usage.lifetime_activations
    then some lifetime_exhausted
    else if ltb 0 policy.window_activations
        && leb policy.window_activations usage.window_activations
    then some window_exhausted
    else none

-- The result of `admitPersistentAgentActivation`: its `reason`, if it is refused, and the usage.
decide : ℤ → Usage → Option Rejection → Option Rejection × Usage
decide now current (some reason) = (
  some reason,
  record current {
    rejected_activations = current.rejected_activations + 1;
    last_rejected_at = some now;
    last_rejection = some reason;
  },
)
decide now current none = (
  none,
  record current {
    lifetime_activations = current.lifetime_activations + 1;
    window_activations = current.window_activations + 1;
  },
)

unfoldable pub admit : Policy → Usage → ℤ → Option Rejection × Usage
unfolding current_window rejection decide
admit policy usage now =
    let current = current_window policy usage now in decide now current (rejection policy current)

abbrev pub max_safe_integer : ℕ
max_safe_integer = 9_007_199_254_740_991

unfoldable pub record_tokens : Policy → Usage → Value → ℤ → Usage
unfolding current_window bounded_integer
record_tokens policy usage tokens now =
    let current = current_window policy usage now in
    let amount = bounded_integer tokens 0 0 max_safe_integer in
    record current {
      lifetime_tokens = current.lifetime_tokens + amount;
      window_tokens = current.window_tokens + amount;
    }

to_admission : Option Rejection → Admission
to_admission none = open_admission
to_admission (some r) = refused r

unfoldable pub snapshot : Policy → Usage → ℤ → Snapshot
unfolding current_window rejection to_admission
snapshot policy usage now =
    let current = current_window policy usage now in
    record { policy = policy; usage = current; admission = to_admission (rejection policy current) }

-- The calls that change the usage, in the order in which they are made.
pub data Call : Type 0 where
  activates : (now : ℤ) → Call
  records : (tokens : Value) (now : ℤ) → Call

unfoldable pub step : Policy → Usage → Call → Usage
unfolding admit record_tokens
step policy usage (activates now) = (admit policy usage now).1
step policy usage (records tokens now) = record_tokens policy usage tokens now

pub run : Policy → Usage → List Call → Usage
run policy usage [] = usage
run policy usage (c ∷ cs) = run policy (step policy usage c) cs
