-- ===== src/Workflows/Tests.antt =====
-- Runs of workflows/durable.ts at a concrete workflow.
use ultra_fabric.Prelude.{
  ◌+◌, ◌≤◌, some, ◌≡◌, true, inl, inr, ◌≢◌, trim, text_length, slice_start, unique, includes,
  is_some, string_equality, ℕ, refl, String, none, List, [], ◌∷◌, arith, All, true,
}
use ultra_fabric.Workflows.Status
use ultra_fabric.Workflows.{
  claim, claim_update, claim_phase, fail, fail_phase, complete, complete_phase, evidence_error,
  release_expired_leases, release_expired, refresh, refresh_ready, refreshed_status, ready_when,
  update_first, holds_lease, clear_lease, cycle, out_of_fuel, Phase, Workflow, PhaseStatus, pending,
  ready, Claim,
}
use ultra_fabric.Workflows.Dependencies.{AreInOrder}
use ultra_fabric.Workflows.Definition.{
  PhaseDefinition, WorkflowDefinition, Digests, normalized_definition, phase_definition,
  phase_definitions, assert_acyclic, visit, visit_each, deps_of, valid_id,
}
use ultra_fabric.Workflows.Acyclic.{normalized_definition_ends}
use ultra_fabric.Workflows.Progress.{run_progress}
use ultra_fabric.Workflows.Order.{run-AreInOrder}
use ultra_fabric.Workflows.Attempts.{Call, claims, fails, completes, step, run, IsLimited}
use ultra_fabric.Workflows.Claims.{handed_out, attempts_at, run-IsLimited}

abbrev phase : String → List String → PhaseStatus → Phase
phase id deps status = record {
  id = id;
  deps = deps;
  objective_digest = none;
  max_attempts = 2;
  status = status;
  attempt = 0;
  owner_run_id = none;
  owner_trace_id = none;
  owner_span_id = none;
  lease_token = none;
  lease_expires_at = none;
  evidence = none;
  output_digest = none;
  error = none;
  started_at = none;
  finished_at = none;
}

abbrev two_phases : Workflow
two_phases = record {
  id = "flow";
  name = "Flow";
  definition_digest = "d";
  status = Status.queued;
  lease_ms = 1_000;
  phases = phase "build" [] ready ∷ phase "test" ("build" ∷ []) pending ∷ [];
  created_at = 0;
  updated_at = 0;
  cancelled_at = none;
  cancel_reason = none;
}

abbrev claim_any : Claim
claim_any = record {
  owner_run_id = "run";
  owner_trace_id = none;
  owner_span_id = none;
  phase_id = none;
}

abbrev work : List (Call × ℕ)
work =
    (claims "t1" claim_any, 1)
    ∷ (fails "build" "t1" "broken" true, 2)
    ∷ (claims "t2" claim_any, 3)
    ∷ (completes "build" "t2" none none, 4)
    ∷ (claims "t3" claim_any, 5)
    ∷ []

build_claims : handed_out "build" work two_phases ≡ 2
unfolding step claim claim_update claim_phase fail fail_phase clear_lease release_expired_leases
    release_expired refresh refresh_ready ready_when refreshed_status update_first holds_lease
    complete complete_phase includes evidence_error trim slice_start
build_claims = refl

run-IsLimited_example :
    (handed_out "build" work two_phases + 0 ≡ attempts_at "build" (run work two_phases).phases)
    × (handed_out "build" work two_phases + 0 ≤ 2)
    × All IsLimited (run work two_phases).phases
run-IsLimited_example =
    run-IsLimited "build" work two_phases
      ((omega arith, (λ e. omega arith), refl), ((omega arith, (λ e. omega arith), refl), tt))

run-AreInOrder_example : AreInOrder (run work two_phases).phases
run-AreInOrder_example =
    run-AreInOrder work two_phases ((λ b. refl), ((λ b. absurd (ground arith)), tt))

abbrev digests : Digests
digests = record { of_objective = λ text. text; of_definition = λ id name lease phases. "d" }

abbrev step_of : String → List String → PhaseDefinition
step_of id deps = record { id = id; deps = some deps; objective = none; max_attempts = some 2 }

abbrev flow : List PhaseDefinition → WorkflowDefinition
flow phases = record { id = "flow"; name = "Flow"; phases = phases; lease_ms = some 1_000 }

abbrev two_steps : WorkflowDefinition
two_steps = flow (step_of "build" [] ∷ step_of "test" ("build" ∷ []) ∷ [])

two_steps_accepted : normalized_definition digests two_steps 0 ≡ inr two_phases
unfolding normalized_definition phase_definition phase_definitions assert_acyclic visit visit_each
    deps_of valid_id trim text_length unique includes
two_steps_accepted = refl

-- Two phases that depend on each other.
circle_refused :
    normalized_definition digests (flow (step_of "a" ("b" ∷ []) ∷ step_of "b" ("a" ∷ []) ∷ [])) 0
    ≡ inl cycle
unfolding normalized_definition phase_definition phase_definitions assert_acyclic visit visit_each
    deps_of valid_id trim text_length unique includes
circle_refused = refl

normalized_definition_ends_example : normalized_definition digests two_steps 0 ≢ inl out_of_fuel
normalized_definition_ends_example = normalized_definition_ends digests two_steps 0

-- The lease of the second phase expires, and the phase is claimed again.
run_progress_example :
    is_some (claim_update "t4" "run" claim_any 2_000 (run work two_phases)).1 ≡ true
unfolding run claim claim_update claim_phase fail fail_phase complete complete_phase evidence_error
    release_expired_leases release_expired refresh refresh_ready refreshed_status ready_when
    update_first holds_lease clear_lease trim slice_start includes
run_progress_example =
    run_progress digests two_steps 0 two_phases work "t4" "run" claim_any 2_000 two_steps_accepted
      refl refl refl
