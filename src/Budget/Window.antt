-- ===== src/Budget/Window.antt =====
-- The rate that a window allows (agents/persistent/budget.ts).
use ultra_fabric.Prelude.{ℕ, ◌+◌, ◌≤◌, ◌<◌, ◌⊎◌, Option, none, some, List, [], ◌∷◌}
use ultra_fabric.Prelude.Int.{ℤ, pos_part, neg_part, ◌≤ℤ◌}
use ultra_fabric.Budget.{Policy, Usage, Rejection, Call, activates, records, admit, step}

-- `now` lies in the window of length `ms` that began at `start`.
abbrev pub InWindow : ℤ → ℕ → ℤ → Type 0
InWindow start ms now =
    (start ≤ℤ now) × (pos_part now + neg_part start < ms + pos_part start + neg_part now)

-- `now` lies after the window of length `ms` that began at `start`, or before it.
abbrev pub OutsideWindow : ℤ → ℕ → ℤ → Type 0
OutsideWindow start ms now =
    (pos_part now + neg_part start < pos_part start + neg_part now)
    ⊎ (ms + pos_part start + neg_part now ≤ pos_part now + neg_part start)

abbrev pub time_of : Call → ℤ
time_of (activates now) = now
time_of (records tokens now) = now

abbrev pub AllInWindow : ℤ → ℕ → List Call → Type 0
AllInWindow start ms [] = Unit {0}
AllInWindow start ms (c ∷ cs) = InWindow start ms (time_of c) × AllInWindow start ms cs

abbrev one_if_admitted : Option Rejection → ℕ
one_if_admitted none = 1
one_if_admitted (some r) = 0

abbrev pub one_admission : Policy → Usage → Call → ℕ
one_admission p u (activates now) = one_if_admitted (admit p u now).0
one_admission p u (records tokens now) = 0

-- How many activations are admitted when the calls are made one after the other.
unfoldable pub admissions : Policy → Usage → List Call → ℕ
admissions p u [] = 0
admissions p u (c ∷ cs) = one_admission p u c + admissions p (step p u c) cs
