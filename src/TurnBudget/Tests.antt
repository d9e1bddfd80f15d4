-- ===== src/TurnBudget/Tests.antt =====
-- agents/turn-budget.ts at concrete budgets.
use ultra_fabric.Prelude.{◌≡◌, refl, some, [], ◌∷◌, arith, lookup}
use ultra_fabric.TurnBudget.{
  AgentTurnBudget, integer, resolve_budget, decision, continue, stop, resolved_budget_stops,
  max_turns_of, grace_turns_of,
}

abbrev ten_turns : AgentTurnBudget
ten_turns = record { max_turns = 10; grace_turns = 1 }

resolved_budget_stops_example : (decision ten_turns 0 ≡ continue) × (decision ten_turns 300 ≡ stop)
unfolding resolve_budget lookup max_turns_of grace_turns_of
resolved_budget_stops_example =
    resolved_budget_stops (some (("maxTurns", integer 10) ∷ [])) ten_turns 300 refl (omega arith)
