-- ===== src/Workflows/Held.antt =====
-- What keeps a phase of workflows/durable.ts from being started.
use ultra_fabric.Prelude.{
  ℕ, ◌≡◌, refl, sym, ap, ◌∙◌, String, Bool, true, false, ◌&&◌, ◌||◌, not, some, List, [], ◌∷◌, inl,
  inr, arith, find, if◌then◌else◌, ltb, any, all, map, Bool-cases, Option-cases, string_equality,
  trim, non_empty, All,
}
use ultra_fabric.Workflows.{
  Phase, Workflow, Claim, PhaseStatus, pending, ready, running, completed, failed, cancelled,
  is_ready, is_running, is_pending, is_completed, is_failed, is_expired, is_asked, clear_lease,
  ready_when, refresh_ready, refresh, refreshed_status, completed_ids, release_expired,
  release_expired_leases, update_first, claim_phase, claim_update, claim, resume, holds_lease,
  fail_phase, error_text, fail, cancel, evidence_error, complete_phase, complete,
}
use ultra_fabric.Workflows.Status
use ultra_fabric.Workflows.Status.{WorkflowStatus, is_over, is_closed, is_cancelled}
use ultra_fabric.Workflows.Dependencies.{all_done}
use ultra_fabric.Workflows.Attempts.{
  Call, claims, resumes, fails, cancels, completes, step, run, All-map, All-update_first,
  is_found_ready,
}

abbrev pub is_called_off : PhaseStatus → Bool
is_called_off cancelled = true
is_called_off _ = false

-- A pending phase waits for some phase that is not among the given ones, and the phase is not
-- cancelled.
abbrev pub IsHeld : List String → Phase → Type 0
IsHeld done p =
    ((is_pending p.status && all_done p.deps done) ≡ false) × (is_called_off p.status ≡ false)

-- Unless the workflow is cancelled, no phase is, and every pending phase waits for one that is not
-- completed.
abbrev pub IsLive : Workflow → Type 0
IsLive w = is_cancelled w.status ≡ false → All (IsHeld (completed_ids w.phases)) w.phases

abbrev NotOff : Phase → Type 0
NotOff p = is_called_off p.status ≡ false

module _ (p : Phase) where
  ready_when-IsHeld : (done : List String) → NotOff p → IsHeld done (ready_when done p)
  unfolding ready_when
  ready_when-IsHeld done h = elim (Bool-cases (is_pending p.status && all_done p.deps done)) [
    | inl e ↦ rw e (refl, refl)
    | inr e ↦ rw e (e, h)
  ]

  release_expired-NotOff : (now : ℕ) → NotOff p → NotOff (release_expired now p)
  unfolding release_expired clear_lease
  release_expired-NotOff now h =
      elim (Bool-cases (not (is_running p.status) || not (is_expired p.lease_expires_at now))) [
        | inl e ↦ rw e h
        | inr e ↦ elim (Bool-cases (ltb p.attempt p.max_attempts)) [
          | inl f ↦ rw (e, f) refl
          | inr f ↦ rw (e, f) refl
        ]
      ]

  fail_phase-NotOff :
      (now : ℕ) (error : String) (retryable : Bool) → NotOff (fail_phase now error retryable p)
  unfolding fail_phase clear_lease
  fail_phase-NotOff now error retryable =
      elim (Bool-cases (retryable && ltb p.attempt p.max_attempts)) [
        | inl e ↦ rw e refl
        | inr e ↦ rw e refl
      ]

-- Phases keep their ids, and the same ones are completed.
abbrev IsCalm : Phase → Phase → Type 0
IsCalm p q = (q.id ≡ p.id) × (is_completed q.status ≡ is_completed p.status)

completed_ids_cons :
    (p q : Phase) (ps qs : List Phase)
    → IsCalm p q
    → completed_ids qs ≡ completed_ids ps
    → completed_ids (q ∷ qs) ≡ completed_ids (p ∷ ps)
completed_ids_cons p q ps qs (same, keeps) e = elim (Bool-cases (is_completed p.status)) [
  | inl c ↦ rw (keeps, c) (λ i. same i ∷ e i)
  | inr c ↦ rw (keeps, c) e
]

completed_ids-map :
    (change : Phase → Phase)
    → ((p : Phase) → IsCalm p (change p))
    → (ps : List Phase) → completed_ids (map change ps) ≡ completed_ids ps
completed_ids-map change calm [] = refl
completed_ids-map change calm (p ∷ ps) =
    completed_ids_cons p (change p) ps (map change ps) (calm p) (completed_ids-map change calm ps)

completed_ids-update_first :
    (test : Phase → Bool) (change : Phase → Phase) (ps : List Phase)
    → ((p : Phase) → find test ps ≡ some p → IsCalm p (change p))
    → completed_ids (update_first test change ps) ≡ completed_ids ps
unfolding update_first
completed_ids-update_first test change [] calm = refl
completed_ids-update_first test change (p ∷ ps) calm = elim (Bool-cases (test p)) [
  | inl e ↦ rw e (completed_ids_cons p (change p) ps ps (calm p (ground arith)) refl)
  | inr e ↦ rw e (
      completed_ids_cons p p ps (update_first test change ps) (refl, refl)
        (completed_ids-update_first test change ps (λ q f. calm q (ground arith))))
]

pending_calm : (s : PhaseStatus) → (not (is_pending s) || not (is_completed s)) ≡ true
pending_calm pending = refl
pending_calm ready = refl
pending_calm running = refl
pending_calm completed = refl
pending_calm failed = refl
pending_calm cancelled = refl

ready_calm : (s : PhaseStatus) → (not (is_ready s) || not (is_completed s)) ≡ true
ready_calm pending = refl
ready_calm ready = refl
ready_calm running = refl
ready_calm completed = refl
ready_calm failed = refl
ready_calm cancelled = refl

ready_when-IsCalm : (done : List String) (p : Phase) → IsCalm p (ready_when done p)
unfolding ready_when
ready_when-IsCalm done p = elim (Bool-cases (is_pending p.status && all_done p.deps done)) [
  | inl e ↦ rw e (refl, ground (arith, pending_calm p.status))
  | inr e ↦ rw e (refl, refl)
]

-- A refresh starts what may be started.
pub refresh-IsHeld :
    (w : Workflow) (ps : List Phase)
    → All NotOff ps
    → All (IsHeld (completed_ids (refresh w ps).phases)) (refresh w ps).phases
unfolding refresh refresh_ready
refresh-IsHeld w ps h =
    let done = completed_ids ps in
    rw (completed_ids-map (ready_when done) (ready_when-IsCalm done) ps)
      (All-map (IsHeld done) (ready_when done) (λ p. ready_when-IsHeld p done) ps h)

not_cancelled :
    (a b c d : Bool)
    → is_cancelled (
        if a
        then Status.completed
        else if b
        then if c then Status.partial else Status.failed
        else if d
        then Status.running
        else Status.queued)
      ≡ false
not_cancelled true b c d = refl
not_cancelled false true true d = refl
not_cancelled false true false d = refl
not_cancelled false false c true = refl
not_cancelled false false c false = refl

pub refresh-is_cancelled :
    (w : Workflow) (ps : List Phase) → is_cancelled (refresh w ps).status ≡ is_cancelled w.status
unfolding refresh refreshed_status
refresh-is_cancelled w ps = elim (Bool-cases (is_cancelled w.status)) [
  | inl e ↦ rw e e
  | inr e ↦ rw e (
      not_cancelled (all (λ p. is_completed p.status) (refresh_ready ps))
        (any (λ p. is_failed p.status) (refresh_ready ps))
        (any (λ p. is_completed p.status) (refresh_ready ps))
        (any (λ p. is_running p.status) (refresh_ready ps)))
]

-- A refresh of changed phases of a workflow that is not cancelled.
refresh-IsLive :
    (w : Workflow) (ps : List Phase) (now : ℕ)
    → (is_cancelled w.status ≡ false → All NotOff ps)
    → IsLive (record (refresh w ps) { updated_at = now })
refresh-IsLive w ps now h c = refresh-IsHeld w ps (h (sym (refresh-is_cancelled w ps) ∙ c))

All-NotOff : (done : List String) (ps : List Phase) → All (IsHeld done) ps → All NotOff ps
All-NotOff done [] h = tt
All-NotOff done (p ∷ ps) (h, hs) = (h.1, All-NotOff done ps hs)

pub release_expired_leases-IsLive :
    (w : Workflow) (now : ℕ) → IsLive w → IsLive (release_expired_leases w now)
unfolding release_expired_leases
release_expired_leases-IsLive w now h =
    refresh-IsLive w (map (release_expired now) w.phases) w.updated_at λ c.
      All-map NotOff (release_expired now) (λ p. release_expired-NotOff p now) w.phases
        (All-NotOff (completed_ids w.phases) w.phases (h c))

over_or_not_cancelled : (s : WorkflowStatus) → (is_over s || not (is_cancelled s)) ≡ true
over_or_not_cancelled Status.queued = refl
over_or_not_cancelled Status.running = refl
over_or_not_cancelled Status.completed = refl
over_or_not_cancelled Status.partial = refl
over_or_not_cancelled Status.failed = refl
over_or_not_cancelled Status.cancelled = refl

claim_update-IsLive :
    (token owner : String) (input : Claim) (now : ℕ) (w : Workflow)
    → IsLive w
    → IsLive (claim_update token owner input now w).0
unfolding claim_update
claim_update-IsLive token owner input now w h =
    let released = release_expired_leases w now in
    let k = release_expired_leases-IsLive w now h in
    let change = claim_phase token owner input now released.lease_ms in
    elim (Bool-cases (is_over released.status)) [
      | inl e ↦ rw e k
      | inr e ↦ elim (Option-cases (find (is_asked input.phase_id) released.phases)) [
        | inl f ↦ rw (e, f) k
        | inr (p, f) ↦ elim (Bool-cases (is_ready p.status)) [
          | inr g ↦ rw (e, f, g) k
          | inl g ↦
              rw (e, f, g)
                λ c.
                  rw
                    (completed_ids-update_first (is_asked input.phase_id) change released.phases
                      λ q found.
                        unfold claim_phase in
                        (
                          refl,
                          ground
                              (arith, ready_calm q.status, ap is_found_ready (sym found ∙ f) ∙ g),
                        ))
                    (All-update_first (is_asked input.phase_id) change released.phases
                      (λ q found l. unfold claim_phase in (refl, refl))
                      (k (ground (arith, over_or_not_cancelled released.status))))
        ]
      ]
    ]

step-IsLive : (call : Call) (now : ℕ) (w : Workflow) → IsLive w → IsLive (step call now w)
unfolding step claim resume fail cancel complete complete_phase clear_lease
step-IsLive (claims token input) now w h = elim (Bool-cases (non_empty (trim input.owner_run_id))) [
  | inl e ↦ rw e (claim_update-IsLive token (trim input.owner_run_id) input now w h)
  | inr e ↦ rw e h
]
step-IsLive resumes now w h = elim (Bool-cases (is_closed w.status)) [
  | inl e ↦ rw e h
  | inr e ↦ rw e (release_expired_leases-IsLive w now h)
]
step-IsLive (fails phase_id token error retryable) now w h =
    elim (Bool-cases (holds_lease phase_id token w.phases)) [
      | inl e ↦ rw e (
          refresh-IsLive w _ now λ c.
            All-update_first _ _ w.phases
              (λ p f l. fail_phase-NotOff p now (error_text error) retryable)
              (All-NotOff (completed_ids w.phases) w.phases (h c)))
      | inr e ↦ rw e h
    ]
step-IsLive (cancels reason) now w h = elim (Bool-cases (is_closed w.status)) [
  | inl e ↦ rw e h
  | inr e ↦ rw e (λ c. absurd (ground arith))
]
step-IsLive (completes phase_id token evidence digest) now w h =
    elim (Option-cases (evidence_error evidence)) [
      | inr (x, f) ↦ rw f h
      | inl f ↦ elim (Bool-cases (holds_lease phase_id token w.phases)) [
        | inl e ↦
            rw (f, e)
              (refresh-IsLive w _ now λ c.
                All-update_first _ _ w.phases (λ p g l. refl)
                  (All-NotOff (completed_ids w.phases) w.phases (h c)))
        | inr e ↦ rw (f, e) h
      ]
    ]

pub run-IsLive : (calls : List (Call × ℕ)) (w : Workflow) → IsLive w → IsLive (run calls w)
unfolding run
run-IsLive [] w h = h
run-IsLive ((call, now) ∷ calls) w h = run-IsLive calls (step call now w) (step-IsLive call now w h)
