-- ===== src/Workflows/Acyclic.antt =====
-- The workflows that workflows/durable.ts accepts.
use ultra_fabric.Prelude.{
  ℕ, suc, ◌≤◌, ◌≡◌, ◌≢◌, refl, ap, subst, String, Bool, true, false, ◌||◌, not, Option, none, some,
  List, [], ◌∷◌, ◌⊎◌, inl, inr, arith, ◌==◌, nat_equality, string_equality, if◌then◌else◌, length,
  any, map, includes, trim, unique, or_default, All, Bool-cases, Distinct, Distinct-unique, ltb,
  non_empty, text_length,
}
use ultra_fabric.Workflows.{
  Phase, Workflow, Error, pending, ready, cycle, out_of_fuel, invalid_phase_id, invalid_id,
  invalid_name, phase_count, duplicate_phase, invalid_dependency,
}
use ultra_fabric.Workflows.Dependencies.{all_done}
use ultra_fabric.Workflows.Definition.{
  PhaseDefinition, WorkflowDefinition, Digests, deps_of, visit, assert_acyclic, phase_definition,
  phase_definitions, new_phase, new_workflow, is_none, clamp_lease, clamp_attempts, valid_id,
  normalized_definition,
}
use ultra_fabric.Workflows.Cycles.{
  bind_inr, Avoids, bind-Avoids, IsOrder, IsRanked, visit_each-Visits, visit-Visits,
  visit_each-Avoids, visit-Avoids-out_of_fuel, visit-Avoids-cycle, all_done-Grows,
}

abbrev pub ids_of : List Phase → List String
ids_of phases = map (λ p. p.id) phases

length-ids_of : (phases : List Phase) → length (ids_of phases) ≡ length phases
length-ids_of [] = refl
length-ids_of (p ∷ ps) = ap suc (length-ids_of ps)

clamp_attempts-pos : (n : Option ℕ) → 1 ≤ clamp_attempts n
clamp_attempts-pos none = omega arith
clamp_attempts-pos (some n) = omega arith

includes_self : (ids : List String) → all_done ids ids ≡ true
includes_self ids = all_done-Grows ids ids (λ k i. i)

module _ (phases : List Phase) where
  -- When every dependency is a phase, the search for cycles has enough fuel.
  pub assert_acyclic_ends :
      ((id : String) → all_done (deps_of phases id) (ids_of phases) ≡ true)
      → Avoids out_of_fuel (assert_acyclic phases)
  unfolding assert_acyclic includes
  assert_acyclic_ends known =
      visit_each-Avoids out_of_fuel (ids_of phases) (visit phases (suc (length phases)) [])
        (λ visited id i.
          visit-Avoids-out_of_fuel phases (ids_of phases) known (suc (length phases)) [] visited id
            (omega (arith, length-ids_of phases)) tt (λ k m. absurd (ground arith)) i)
        [] (ids_of phases) (includes_self (ids_of phases))

  -- Phases whose dependencies have a rank that falls are not said to have a cycle.
  assert_acyclic-ne-cycle :
      (rank : String → ℕ) → IsRanked phases rank → assert_acyclic phases ≢ inl cycle
  unfolding assert_acyclic includes
  assert_acyclic-ne-cycle rank ranked =
      visit_each-Avoids cycle (ids_of phases) (visit phases (suc (length phases)) [])
        (λ visited id i.
          visit-Avoids-cycle phases rank ranked (suc (length phases)) [] visited id
            (λ k m. absurd (ground arith)))
        [] (ids_of phases) (includes_self (ids_of phases))

  -- When no cycle is found, every phase has its place in an order, after its dependencies.
  pub assert_acyclic-IsOrder :
      (order : List String)
      → assert_acyclic phases ≡ inr order
      → IsOrder (deps_of phases) order × (all_done (ids_of phases) order ≡ true)
  unfolding assert_acyclic
  assert_acyclic-IsOrder order e =
      let (sorted, done, _) =
        visit_each-Visits phases (visit phases (suc (length phases)) [])
          (λ v id w q o. visit-Visits phases (suc (length phases)) [] v id w q o) [] (ids_of phases)
          order e tt in
      (sorted, done)

-- A phase as it is defined: it is ready when it depends on nothing.
abbrev pub IsNew : Phase → Type 0
IsNew p =
    (p.status ≡ (if is_none p.deps then ready else pending))
    × (p.attempt ≡ 0)
    × (1 ≤ p.max_attempts)
    × (p.lease_token ≡ none)

-- A phase as its definition says.
abbrev IsDefined : List String → PhaseDefinition → Phase → Type 0
IsDefined ids input p = (p.id ≡ trim input.id) × (all_done p.deps ids ≡ true) × IsNew p

any-all_done :
    (id : String) (deps ids : List String)
    → any (λ dep. not (includes dep ids) || dep == id) deps ≡ false
    → all_done deps ids ≡ true
any-all_done id [] ids e = refl
any-all_done id (d ∷ deps) ids e = ground (arith, any-all_done id deps ids)

module _ (digests : Digests) where
  phase_definition-IsNew :
      (ids : List String) (input : PhaseDefinition) (p : Phase)
      → phase_definition digests ids input ≡ inr p
      → IsDefined ids input p
  unfolding phase_definition
  phase_definition-IsNew ids input p e =
      let id = trim input.id in
      let deps = unique (or_default input.deps []) in
      elim (Bool-cases (valid_id id)) [
        | inr q ↦ absurd (ground arith)
        | inl q ↦ elim (Bool-cases (any (λ dep. not (includes dep ids) || dep == id) deps)) [
          | inl k ↦ absurd (ground arith)
          | inr k ↦
              let same : new_phase digests id deps input ≡ p = ground arith in
              subst (IsDefined ids input) same (
                refl,
                any-all_done id deps ids k,
                (refl, refl, clamp_attempts-pos input.max_attempts, refl),
              )
        ]
      ]

  -- The phases as their definitions say.
  abbrev AreDefined : List String → List PhaseDefinition → List Phase → Type 0
  AreDefined ids inputs phases =
      (ids_of phases ≡ map (λ p. trim p.id) inputs)
      × All (λ p. all_done p.deps ids ≡ true) phases
      × All IsNew phases

  phase_definitions-AreDefined :
      (ids : List String) (inputs : List PhaseDefinition) (phases : List Phase)
      → phase_definitions digests ids inputs ≡ inr phases
      → AreDefined ids inputs phases
  unfolding phase_definitions
  phase_definitions-AreDefined ids [] phases e =
      let same : [] ≡ phases = ground arith in subst (AreDefined ids []) same (refl, tt, tt)
  phase_definitions-AreDefined ids (input ∷ inputs) phases e =
      let (p, first, e') = bind_inr (phase_definition digests ids input) _ phases e in
      let (ps, rest, e'') = bind_inr (phase_definitions digests ids inputs) _ phases e' in
      let same : p ∷ ps ≡ phases = ground arith in
      let (named, known, new) = phase_definition-IsNew ids input p first in
      let (all_named, all_known, all_new) = phase_definitions-AreDefined ids inputs ps rest in
      subst (AreDefined ids (input ∷ inputs)) same
        ((λ i. named i ∷ all_named i), (known, all_known), (new, all_new))

deps_of-all_done :
    (ids : List String) (phases : List Phase) (id : String)
    → All (λ p. all_done p.deps ids ≡ true) phases
    → all_done (deps_of phases id) ids ≡ true
unfolding deps_of
deps_of-all_done ids [] id h = refl
deps_of-all_done ids (p ∷ ps) id (h, hs) = elim (Bool-cases (p.id == id)) [
  | inl e ↦ rw e h
  | inr e ↦ rw e (deps_of-all_done ids ps id hs)
]

-- An order in which each id stands after its dependencies, and what makes it one of all ids.
pub record HasPlan (ids : List String) (deps : String → List String) : Type 0 where
  pub order : List String
  pub sorted : IsOrder deps order
  pub complete : all_done ids order ≡ true
  pub distinct : Distinct ids
  pub known : (id : String) → all_done (deps id) ids ≡ true

-- A record that is accepted.
pub record IsAccepted (w : Workflow) : Type 0 where
  pub plan : HasPlan (ids_of w.phases) (deps_of w.phases)
  pub fresh : All IsNew w.phases

guard-Avoids :
    {A : Type 0} (error : Error) (b : Bool) (e : Error) (m : Error ⊎ A)
    → e ≢ error
    → Avoids error m
    → Avoids error (if b then inl e else m)
guard-Avoids error true e m n h = λ q. n (ground arith)
guard-Avoids error false e m n h = h

guard_inr :
    {A : Type 0} (b : Bool) (e : Error) (m : Error ⊎ A) (a : A)
    → (if b then inl e else m) ≡ inr a
    → m ≡ inr a
guard_inr true e m a h = absurd (ground arith)
guard_inr false e m a h = h

module _ (digests : Digests) where
  phase_definitions-Avoids :
      (ids : List String) (inputs : List PhaseDefinition)
      → Avoids out_of_fuel (phase_definitions digests ids inputs)
  unfolding phase_definitions phase_definition
  phase_definitions-Avoids ids [] = λ q. ground arith
  phase_definitions-Avoids ids (input ∷ inputs) =
      bind-Avoids out_of_fuel (phase_definition digests ids input) _
        (guard-Avoids out_of_fuel _ invalid_phase_id _ (λ q. ground arith)
          (guard-Avoids out_of_fuel _ invalid_dependency
            (inr (new_phase digests (trim input.id) (unique (or_default input.deps [])) input))
            (λ q. ground arith) (λ q. ground arith)))
        (λ p e.
          bind-Avoids out_of_fuel (phase_definitions digests ids inputs) _
            (phase_definitions-Avoids ids inputs) (λ ps f q. ground arith))

  -- The search for cycles ends: the fuel that it is given is enough for every definition.
  pub normalized_definition_ends :
      (definition : WorkflowDefinition) (now : ℕ)
      → Avoids out_of_fuel (normalized_definition digests definition now)
  unfolding normalized_definition
  normalized_definition_ends definition now =
      let id = trim definition.id in
      let name = trim definition.name in
      let ids = map (λ p. trim p.id) definition.phases in
      guard-Avoids out_of_fuel (not (valid_id id)) invalid_id _ (λ q. ground arith)
        (guard-Avoids out_of_fuel (not (non_empty name) || ltb 256 (text_length name)) invalid_name
          _ (λ q. ground arith)
          (guard-Avoids out_of_fuel
            (ltb (length definition.phases) 1 || ltb 128 (length definition.phases)) phase_count _
            (λ q. ground arith)
            (guard-Avoids out_of_fuel (not (length (unique ids) == length ids)) duplicate_phase _
              (λ q. ground arith)
              (bind-Avoids out_of_fuel (phase_definitions digests ids definition.phases) _
                (phase_definitions-Avoids ids definition.phases)
                (λ phases e.
                  bind-Avoids out_of_fuel (assert_acyclic phases) _
                    (assert_acyclic_ends phases (λ k.
                      let (named, known, _) =
                        phase_definitions-AreDefined digests ids definition.phases phases e in
                      rw named (deps_of-all_done ids phases k known)))
                    (λ order f q. ground arith))))))

  pub normalized_definition-IsAccepted :
      (definition : WorkflowDefinition) (now : ℕ) (w : Workflow)
      → normalized_definition digests definition now ≡ inr w
      → IsAccepted w
  unfolding normalized_definition
  normalized_definition-IsAccepted definition now w e =
      let id = trim definition.id in
      let name = trim definition.name in
      let ids = map (λ p. trim p.id) definition.phases in
      let e1 = guard_inr (not (valid_id id)) invalid_id _ w e in
      let e2 = guard_inr (not (non_empty name) || ltb 256 (text_length name)) invalid_name _ w e1 in
      let e3 =
        guard_inr (ltb (length definition.phases) 1 || ltb 128 (length definition.phases))
          phase_count _ w e2 in
      let e4 = guard_inr (not (length (unique ids) == length ids)) duplicate_phase _ w e3 in
      let (phases, defined, e5) =
        bind_inr (phase_definitions digests ids definition.phases) _ w e4 in
      let (order, found, e6) = bind_inr (assert_acyclic phases) _ w e5 in
      let same : new_workflow digests id name (clamp_lease definition.lease_ms) phases now ≡ w =
        ground arith in
      let (sorted, complete) = assert_acyclic-IsOrder phases order found in
      let (named, known, new) =
        phase_definitions-AreDefined digests ids definition.phases phases defined in
      subst IsAccepted same (record {
        plan = record {
          order = order;
          sorted = sorted;
          complete = complete;
          distinct = rw named (Distinct-unique ids (ground (arith, e3)));
          known = λ k. rw named (deps_of-all_done ids phases k known);
        };
        fresh = new;
      })
