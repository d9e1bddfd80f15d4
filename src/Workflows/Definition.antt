-- ===== src/Workflows/Definition.antt =====
-- The definition of a workflow in workflows/durable.ts: its phases, the search for cycles, and
-- `create`. The two digests are parameters. A number is given by its floor, a negative one as 0.
use ultra_fabric.Prelude.{
  ℕ, zero, suc, String, Bool, true, false, ◌||◌, not, Option, none, some, List, [], ◌∷◌, ◌⊎◌, inl,
  inr, ltb, ◌==◌, nat_equality, string_equality, if◌then◌else◌, length, any, map, includes,
  non_empty, trim, text_length, or_default, unique, min, max,
}
use ultra_fabric.Mesh.Keys.{is_alphanumeric, matches_pattern}
use ultra_fabric.Workflows.Status
use ultra_fabric.Workflows.{
  Phase, Workflow, Error, pending, ready, invalid_id, invalid_name, phase_count, duplicate_phase,
  invalid_phase_id, invalid_dependency, cycle, definition_conflict, out_of_fuel,
}

pub record PhaseDefinition : Type 0 where
  pub id : String
  pub deps : Option (List String)
  pub objective : Option String
  pub max_attempts : Option ℕ

pub record WorkflowDefinition : Type 0 where
  pub id : String
  pub name : String
  pub phases : List PhaseDefinition
  pub lease_ms : Option ℕ

-- The digests of an objective, and of the id, the name, the lease and the phases.
pub record Digests : Type 0 where
  pub of_objective : String → String
  pub of_definition : String → String → ℕ → List Phase → String

is_id_char : ℕ → Bool
unfolding is_alphanumeric
is_id_char c = is_alphanumeric c || c == b'.' || c == b'_' || c == b'-'

unfoldable pub valid_id : String → Bool
unfolding is_id_char matches_pattern
valid_id id = matches_pattern is_id_char 127 id

infixl 5 ◌>>=◌
abbrev pub ◌>>=◌ {ℓ κ} : {A : Type ℓ} {B : Type κ} → Error ⊎ A → (A → Error ⊎ B) → Error ⊎ B
inl e >>= f = inl e
inr a >>= f = f a

abbrev pub clamp_attempts : Option ℕ → ℕ
clamp_attempts none = 1
clamp_attempts (some n) = max 1 (min 20 n)

abbrev pub clamp_lease : Option ℕ → ℕ
clamp_lease none = 60_000
clamp_lease (some n) = max 1_000 (min 86_400_000 n)

abbrev pub is_none {ℓ} : {A : Type ℓ} → List A → Bool
is_none [] = true
is_none (x ∷ xs) = false

module _ (digests : Digests) where
  abbrev pub objective_digest : Option String → Option String
  objective_digest none = none
  objective_digest (some objective) =
      if non_empty (trim objective) then some (digests.of_objective (trim objective)) else none

  abbrev pub new_phase : String → List String → PhaseDefinition → Phase
  new_phase id deps input = record {
    id = id;
    deps = deps;
    objective_digest = objective_digest input.objective;
    max_attempts = clamp_attempts input.max_attempts;
    status = if is_none deps then ready else pending;
    attempt = 0;
    owner_run_id = none;
    owner_trace_id = none;
    owner_span_id = none;
    lease_token = none;
    lease_expires_at = none;
    evidence = none;
    output_digest = none;
    error = none;
    started_at = none;
    finished_at = none;
  }

  unfoldable pub phase_definition : List String → PhaseDefinition → Error ⊎ Phase
  phase_definition ids input =
      let id = trim input.id in
      let deps = unique (or_default input.deps []) in
      if not (valid_id id)
      then inl invalid_phase_id
      else if any (λ dep. not (includes dep ids) || dep == id) deps
      then inl invalid_dependency
      else inr (new_phase id deps input)

  unfoldable pub phase_definitions : List String → List PhaseDefinition → Error ⊎ List Phase
  phase_definitions ids [] = inr []
  phase_definitions ids (input ∷ inputs) =
      let rest = phase_definitions ids inputs in
      phase_definition ids input >>= λ phase. rest >>= λ phases. inr (phase ∷ phases)

-- `byId.get(id)?.deps ?? []`; the ids are unique where it is used.
unfoldable pub deps_of : List Phase → String → List String
deps_of [] id = []
deps_of (p ∷ ps) id = let rest = deps_of ps id in if p.id == id then p.deps else rest

-- The loop over dependencies, with what the visit of one does to the visited ids.
unfoldable pub visit_each :
    (List String → String → Error ⊎ List String) → List String → List String → Error ⊎ List String
visit_each visit visited [] = inr visited
visit_each visit visited (id ∷ ids) = visit visited id >>= λ later. visit_each visit later ids

-- `visit`. The ids that are being visited are those of the calls around it.
unfoldable pub visit : List Phase → ℕ → List String → List String → String → Error ⊎ List String
visit phases zero visiting visited id = inl out_of_fuel
visit phases (suc fuel) visiting visited id =
    if includes id visited
    then inr visited
    else if includes id visiting
    then inl cycle
    else visit_each (visit phases fuel (id ∷ visiting)) visited (deps_of phases id) >>= λ later.
        inr (id ∷ later)

-- `assertAcyclic`: the ids in the order in which their visits ended, the last one first.
unfoldable pub assert_acyclic : List Phase → Error ⊎ List String
assert_acyclic phases =
    visit_each (visit phases (suc (length phases)) []) [] (map (λ p. p.id) phases)

module _ (digests : Digests) where
  abbrev pub new_workflow : String → String → ℕ → List Phase → ℕ → Workflow
  new_workflow id name lease_ms phases now = record {
    id = id;
    name = name;
    definition_digest = digests.of_definition id name lease_ms phases;
    status = Status.queued;
    lease_ms = lease_ms;
    phases = phases;
    created_at = now;
    updated_at = now;
    cancelled_at = none;
    cancel_reason = none;
  }

  unfoldable pub normalized_definition : WorkflowDefinition → ℕ → Error ⊎ Workflow
  normalized_definition definition now =
      let id = trim definition.id in
      let name = trim definition.name in
      let ids = map (λ p. trim p.id) definition.phases in
      if not (valid_id id)
      then inl invalid_id
      else if not (non_empty name) || ltb 256 (text_length name)
      then inl invalid_name
      else if ltb (length definition.phases) 1 || ltb 128 (length definition.phases)
      then inl phase_count
      else if not (length (unique ids) == length ids)
      then inl duplicate_phase
      else phase_definitions digests ids definition.phases >>= λ phases.
          assert_acyclic phases >>= λ order.
          inr (new_workflow id name (clamp_lease definition.lease_ms) phases now)

  abbrev pub stored_or : Workflow → Option Workflow → Error ⊎ Workflow
  stored_or candidate none = inr candidate
  stored_or candidate (some stored) =
      if stored.definition_digest == candidate.definition_digest
      then inr stored
      else inl definition_conflict

  -- `create`, with the record that is found under the id: the record that is there afterwards.
  unfoldable pub create : WorkflowDefinition → ℕ → Option Workflow → Error ⊎ Workflow
  create definition now existing =
      normalized_definition definition now >>= λ candidate. stored_or candidate existing
