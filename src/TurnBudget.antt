-- ===== src/TurnBudget.antt =====
-- agents/turn-budget.ts: the turns that a child may take.
mod Tests
use ultra_fabric.Prelude.{
  ℕ, ◌+◌, ◌≤◌, ◌<◌, ◌≡◌, refl, String, Bool, true, false, ◌&&◌, ◌||◌, not, Option, none, some, List,
  ◌⊎◌, inl, inr, arith, ltb, leb, ◌==◌, string_equality, if◌then◌else◌, find, Dict, lookup, keys,
  keep_truthy, Bool-cases, Option-cases,
}

pub record AgentTurnBudget : Type 0 where
  pub max_turns : ℕ
  pub grace_turns : ℕ

-- A field of the value: nothing or null, an integer that is not negative, or anything else.
pub data Field : Type 0 where
  absent other : Field
  integer : ℕ → Field

pub data Error : Type 0 where
  not_an_object max_turns_range grace_turns_range : Error
  unsupported : String → Error

abbrev field_or_absent : Option Field → Field
field_or_absent none = absent
field_or_absent (some f) = f

abbrev is_known : String → Bool
is_known key = key == "maxTurns" || key == "graceTurns"

unfoldable pub max_turns_of : Field → Error ⊎ ℕ
max_turns_of (integer n) = if ltb n 1 || ltb 200 n then inl max_turns_range else inr n
max_turns_of f = inl max_turns_range

unfoldable pub grace_turns_of : Field → Error ⊎ ℕ
grace_turns_of absent = inr 1
grace_turns_of (integer n) = if ltb 5 n then inl grace_turns_range else inr n
grace_turns_of other = inl grace_turns_range

abbrev with_grace : ℕ → Error ⊎ ℕ → Error ⊎ AgentTurnBudget
with_grace max_turns (inl e) = inl e
with_grace max_turns (inr grace) = inr (record { max_turns = max_turns; grace_turns = grace })

abbrev with_max : Error ⊎ ℕ → Error ⊎ ℕ → Error ⊎ AgentTurnBudget
with_max (inl e) grace = inl e
with_max (inr max_turns) grace = with_grace max_turns grace

-- `resolveAgentTurnBudget`; `none` is a value that is no object. When the first key that is not
-- supported is the empty one, nothing is refused on its account.
unfoldable pub resolve_budget : Option (Dict Field) → Error ⊎ AgentTurnBudget
resolve_budget none = inl not_an_object
resolve_budget (some value) = elim (keep_truthy (find (λ key. not (is_known key)) (keys value))) [
  | some key ↦ inl (unsupported key)
  | none ↦
      with_max (max_turns_of (field_or_absent (lookup "maxTurns" value)))
        (grace_turns_of (field_or_absent (lookup "graceTurns" value)))
]

pub data Step : Type 0 where
  continue wrap_up stop : Step

unfoldable pub decision : AgentTurnBudget → ℕ → Step
decision budget turns =
    if ltb turns budget.max_turns
    then continue
    else if ltb turns (budget.max_turns + budget.grace_turns)
    then wrap_up
    else stop

max_turns-bounds : (f : Field) (n : ℕ) → max_turns_of f ≡ inr n → (1 ≤ n) × (n ≤ 200)
unfolding max_turns_of
max_turns-bounds absent n e = absurd (ground arith)
max_turns-bounds other n e = absurd (ground arith)
max_turns-bounds (integer m) n e = (ground arith, ground arith)

grace_turns-bounds : (f : Field) (n : ℕ) → grace_turns_of f ≡ inr n → n ≤ 5
unfolding grace_turns_of
grace_turns-bounds absent n e = ground arith
grace_turns-bounds other n e = absurd (ground arith)
grace_turns-bounds (integer m) n e = ground arith

with_max-inr :
    (m g : Error ⊎ ℕ) (b : AgentTurnBudget)
    → with_max m g ≡ inr b
    → (m ≡ inr b.max_turns) × (g ≡ inr b.grace_turns)
with_max-inr (inl e) g b q = absurd (ground arith)
with_max-inr (inr n) (inl e) b q = absurd (ground arith)
with_max-inr (inr n) (inr k) b q = (ground arith, ground arith)

-- A budget that is accepted allows the first turn, and stops a child at its 205th turn at the latest.
pub resolved_budget_stops :
    (value : Option (Dict Field)) (b : AgentTurnBudget) (turns : ℕ)
    → resolve_budget value ≡ inr b
    → 205 ≤ turns
    → (decision b 0 ≡ continue) × (decision b turns ≡ stop)
unfolding resolve_budget decision
resolved_budget_stops none b turns e late = absurd (ground arith)
resolved_budget_stops (some value) b turns e late =
    elim (Option-cases (keep_truthy (find (λ key. not (is_known key)) (keys value)))) [
      | inr (k, q) ↦ absurd (ground arith)
      | inl q ↦
          let (m, g) =
            with_max-inr (max_turns_of (field_or_absent (lookup "maxTurns" value)))
              (grace_turns_of (field_or_absent (lookup "graceTurns" value))) b (ground arith) in
          let (low, high) = max_turns-bounds _ b.max_turns m in
          let grace = grace_turns-bounds _ b.grace_turns g in (ground arith, ground arith)
    ]

abbrev rank : Step → ℕ
rank continue = 0
rank wrap_up = 1
rank stop = 2

-- More turns never bring back an earlier step.
decision_order : (b : AgentTurnBudget) (t u : ℕ) → t ≤ u → rank (decision b t) ≤ rank (decision b u)
unfolding decision
decision_order b t u l = ground arith
