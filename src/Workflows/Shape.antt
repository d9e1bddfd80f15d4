-- ===== src/Workflows/Shape.antt =====
-- No call of workflows/durable.ts changes the ids of the phases or what they depend on.
use ultra_fabric.Prelude.{
  ℕ, ◌≡◌, refl, fun_ext, subst, sym, ap, ◌∙◌, String, Bool, ◌&&◌, ◌||◌, not, List, [], ◌∷◌, inl,
  inr, find, if◌then◌else◌, ltb, all, map, includes, Bool-cases, Option-cases, ◌==◌,
  string_equality, trim, non_empty,
}
use ultra_fabric.Workflows.{
  Phase, Workflow, Claim, is_ready, is_running, is_pending, is_completed, is_expired, is_asked,
  clear_lease, ready_when, refresh_ready, refresh, completed_ids, release_expired,
  release_expired_leases, update_first, claim_phase, claim_update, claim, resume, holds_lease,
  fail_phase, error_text, fail, cancel_phase, cancel, evidence_error, complete_phase, complete,
}
use ultra_fabric.Workflows.Status.{is_over, is_closed}
use ultra_fabric.Workflows.Definition.{deps_of}
use ultra_fabric.Workflows.Acyclic.{ids_of, HasPlan}
use ultra_fabric.Workflows.Attempts.{Call, claims, resumes, fails, cancels, completes, step, run}

abbrev pub Shape : Type 0
Shape = List (String × List String)

-- The ids and the dependencies of the phases.
abbrev pub shape : List Phase → Shape
shape ps = map (λ p. (p.id, p.deps)) ps

-- A change that keeps the id and the dependencies.
abbrev pub IsShaped : (Phase → Phase) → Type 0
IsShaped change = (p : Phase) → ((change p).id ≡ p.id) × ((change p).deps ≡ p.deps)

shape-map :
    (change : Phase → Phase)
    → IsShaped change
    → (ps : List Phase) → shape (map change ps) ≡ shape ps
shape-map change keep [] = refl
shape-map change keep (p ∷ ps) =
    let (same, deps) = keep p in λ i. (same i, deps i) ∷ shape-map change keep ps i

shape-update_first :
    (test : Phase → Bool) (change : Phase → Phase)
    → IsShaped change
    → (ps : List Phase) → shape (update_first test change ps) ≡ shape ps
unfolding update_first
shape-update_first test change keep [] = refl
shape-update_first test change keep (p ∷ ps) = elim (Bool-cases (test p)) [
  | inl e ↦ rw e (let (same, deps) = keep p in λ i. (same i, deps i) ∷ shape ps)
  | inr e ↦ rw e (ap (λ s. (p.id, p.deps) ∷ s) (shape-update_first test change keep ps))
]

ready_when-IsShaped : (done : List String) → IsShaped (ready_when done)
unfolding ready_when
ready_when-IsShaped done p =
    elim (Bool-cases (is_pending p.status && all (λ dep. includes dep done) p.deps)) [
      | inl e ↦ rw e (refl, refl)
      | inr e ↦ rw e (refl, refl)
    ]

release_expired-IsShaped : (now : ℕ) → IsShaped (release_expired now)
unfolding release_expired clear_lease
release_expired-IsShaped now p =
    elim (Bool-cases (not (is_running p.status) || not (is_expired p.lease_expires_at now))) [
      | inl e ↦ rw e (refl, refl)
      | inr e ↦ elim (Bool-cases (ltb p.attempt p.max_attempts)) [
        | inl f ↦ rw (e, f) (refl, refl)
        | inr f ↦ rw (e, f) (refl, refl)
      ]
    ]

fail_phase-IsShaped :
    (now : ℕ) (error : String) (retryable : Bool) → IsShaped (fail_phase now error retryable)
unfolding fail_phase clear_lease
fail_phase-IsShaped now error retryable p =
    elim (Bool-cases (retryable && ltb p.attempt p.max_attempts)) [
      | inl e ↦ rw e (refl, refl)
      | inr e ↦ rw e (refl, refl)
    ]

cancel_phase-IsShaped : (now : ℕ) → IsShaped (cancel_phase now)
unfolding cancel_phase clear_lease
cancel_phase-IsShaped now p = elim (Bool-cases (is_completed p.status)) [
  | inl e ↦ rw e (refl, refl)
  | inr e ↦ rw e (refl, refl)
]

pub shape-refresh : (w : Workflow) (ps : List Phase) → shape (refresh w ps).phases ≡ shape ps
unfolding refresh refresh_ready
shape-refresh w ps =
    shape-map (ready_when (completed_ids ps)) (ready_when-IsShaped (completed_ids ps)) ps

pub shape-release_expired_leases :
    (w : Workflow) (now : ℕ) → shape (release_expired_leases w now).phases ≡ shape w.phases
unfolding release_expired_leases
shape-release_expired_leases w now =
    shape-refresh w (map (release_expired now) w.phases)
    ∙ shape-map (release_expired now) (release_expired-IsShaped now) w.phases

shape-claim_update :
    (token owner : String) (input : Claim) (now : ℕ) (w : Workflow)
    → shape (claim_update token owner input now w).0.phases ≡ shape w.phases
unfolding claim_update claim_phase
shape-claim_update token owner input now w =
    let released = release_expired_leases w now in
    let k = shape-release_expired_leases w now in
    elim (Bool-cases (is_over released.status)) [
      | inl e ↦ rw e k
      | inr e ↦ elim (Option-cases (find (is_asked input.phase_id) released.phases)) [
        | inl f ↦ rw (e, f) k
        | inr (p, f) ↦ elim (Bool-cases (is_ready p.status)) [
          | inr g ↦ rw (e, f, g) k
          | inl g ↦
              rw (e, f, g)
                (shape-update_first (is_asked input.phase_id) _ (λ q. (refl, refl)) released.phases
                  ∙ k)
        ]
      ]
    ]

shape-step :
    (call : Call) (now : ℕ) (w : Workflow) → shape (step call now w).phases ≡ shape w.phases
unfolding step claim resume fail cancel complete complete_phase clear_lease
shape-step (claims token input) now w = elim (Bool-cases (non_empty (trim input.owner_run_id))) [
  | inl e ↦ rw e (shape-claim_update token (trim input.owner_run_id) input now w)
  | inr e ↦ rw e refl
]
shape-step resumes now w = elim (Bool-cases (is_closed w.status)) [
  | inl e ↦ rw e refl
  | inr e ↦ rw e (shape-release_expired_leases w now)
]
shape-step (fails phase_id token error retryable) now w =
    elim (Bool-cases (holds_lease phase_id token w.phases)) [
      | inl e ↦ rw e (
          shape-refresh w _
          ∙ shape-update_first _ _ (fail_phase-IsShaped now (error_text error) retryable) w.phases)
      | inr e ↦ rw e refl
    ]
shape-step (cancels reason) now w = elim (Bool-cases (is_closed w.status)) [
  | inl e ↦ rw e refl
  | inr e ↦ rw e (shape-map (cancel_phase now) (cancel_phase-IsShaped now) w.phases)
]
shape-step (completes phase_id token evidence digest) now w =
    elim (Option-cases (evidence_error evidence)) [
      | inr (x, f) ↦ rw f refl
      | inl f ↦ elim (Bool-cases (holds_lease phase_id token w.phases)) [
        | inl e ↦
            rw (f, e) (shape-refresh w _ ∙ shape-update_first _ _ (λ p. (refl, refl)) w.phases)
        | inr e ↦ rw (f, e) refl
      ]
    ]

pub shape-run :
    (calls : List (Call × ℕ)) (w : Workflow) → shape (run calls w).phases ≡ shape w.phases
unfolding run
shape-run [] w = refl
shape-run ((call, now) ∷ calls) w = shape-run calls (step call now w) ∙ shape-step call now w

shape_ids : Shape → List String
shape_ids s = map (λ e. e.0) s

shape_deps : Shape → String → List String
shape_deps [] id = []
shape_deps (e ∷ s) id = let rest = shape_deps s id in if e.0 == id then e.1 else rest

shape_ids-shape : (ps : List Phase) → shape_ids (shape ps) ≡ ids_of ps
unfolding shape_ids
shape_ids-shape [] = refl
shape_ids-shape (p ∷ ps) = ap (λ ids. p.id ∷ ids) (shape_ids-shape ps)

shape_deps-shape : (ps : List Phase) (id : String) → shape_deps (shape ps) id ≡ deps_of ps id
unfolding shape_deps deps_of
shape_deps-shape [] id = refl
shape_deps-shape (p ∷ ps) id = elim (Bool-cases (p.id == id)) [
  | inl e ↦ rw e refl
  | inr e ↦ rw e (shape_deps-shape ps id)
]

-- A plan is one for all phases of the same shape.
pub HasPlan-shape :
    (ps qs : List Phase)
    → shape ps ≡ shape qs
    → HasPlan (ids_of ps) (deps_of ps)
    → HasPlan (ids_of qs) (deps_of qs)
HasPlan-shape ps qs same plan =
    let ids : ids_of ps ≡ ids_of qs =
      sym (shape_ids-shape ps) ∙ ap shape_ids same ∙ shape_ids-shape qs in
    let deps : deps_of ps ≡ deps_of qs = fun_ext λ id.
      sym (shape_deps-shape ps id) ∙ ap (λ s. shape_deps s id) same ∙ shape_deps-shape qs id in
    subst (λ x. HasPlan x (deps_of qs)) ids (subst (HasPlan (ids_of ps)) deps plan)
