-- ===== src/Workflows/Attempts.antt =====
-- The attempts and leases of the phases of workflows/durable.ts.
use ultra_fabric.Prelude.{
  ℕ, ◌≤◌, ◌<◌, ◌≡◌, refl, String, Bool, true, false, ◌&&◌, ◌||◌, not, Option, none, some, List, [],
  ◌∷◌, ◌⊎◌, inl, inr, arith, ap, sym, ◌∙◌, ltb, find, all, map, includes, is_some, All, Bool-cases,
  Option-cases, string_equality, trim, non_empty,
}
use ultra_fabric.Workflows.{
  Phase, Workflow, Error, Claim, Evidence, PhaseStatus, pending, ready, running, completed, failed,
  cancelled, is_pending, is_ready, is_running, is_completed, is_expired, is_asked, clear_lease,
  ready_when, refresh_ready, refresh, completed_ids, release_expired, release_expired_leases,
  update_first, claim_phase, claim_update, claim, resume, holds_lease, fail_phase, error_text, fail,
  cancel_phase, cancel, evidence_error, complete_phase, complete,
}
use ultra_fabric.Workflows.Status.{is_over, is_closed}

-- A call on a stored workflow.
pub data Call : Type 0 where
  claims : (token : String) → Claim → Call
  resumes : Call
  fails : (phase_id token error : String) → (retryable : Bool) → Call
  cancels : (reason : Option String) → Call
  completes :
      (phase_id token : String) → Option (List Evidence) → (output_digest : Option String) → Call

abbrev pub after : Workflow → Error ⊎ Workflow → Workflow
after w (inl e) = w
after w (inr new) = new

abbrev pub after_claim : Workflow → Error ⊎ (Workflow × Option Phase) → Workflow
after_claim w (inl e) = w
after_claim w (inr (new, claimed)) = new

-- The stored workflow after a call at the given time; a call that fails writes nothing.
unfoldable pub step : Call → ℕ → Workflow → Workflow
step (claims token input) now w = after_claim w (claim token input now w)
step resumes now w = resume now w
step (fails phase_id token error retryable) now w =
    after w (fail phase_id token error retryable now w)
step (cancels reason) now w = cancel reason now w
step (completes phase_id token evidence digest) now w =
    after w (complete phase_id token evidence digest now w)

unfoldable pub run : List (Call × ℕ) → Workflow → Workflow
unfolding step
run [] w = w
run ((call, now) ∷ calls) w = run calls (step call now w)

-- A change of the first phase that passes a test.
pub All-update_first :
    {P : Phase → Type 0} (test : Phase → Bool) (change : Phase → Phase) (ps : List Phase)
    → ((p : Phase) → find test ps ≡ some p → P p → P (change p))
    → All P ps
    → All P (update_first test change ps)
unfolding update_first
All-update_first test change [] keep h = tt
All-update_first test change (p ∷ ps) keep (h, hs) = elim (Bool-cases (test p)) [
  | inl e ↦ rw e (keep p (ground arith) h, hs)
  | inr e ↦ rw e (h, All-update_first test change ps (λ q f k. keep q (ground arith) k) hs)
]

pub All-map :
    {P : Phase → Type 0} (Q : Phase → Type 0) (change : Phase → Phase)
    → ((p : Phase) → P p → Q (change p))
    → (ps : List Phase) → All P ps
    → All Q (map change ps)
All-map Q change keep [] h = tt
All-map Q change keep (p ∷ ps) (h, hs) = (keep p h, All-map Q change keep ps hs)

abbrev pub may_start : PhaseStatus → Bool
may_start pending = true
may_start ready = true
may_start _ = false

-- The attempts are within their limit, one is left while the phase may start, and the phase has a
-- lease exactly while it runs.
abbrev pub IsLimited : Phase → Type 0
IsLimited p =
    (p.attempt ≤ p.max_attempts)
    × (may_start p.status ≡ true → p.attempt < p.max_attempts)
    × (is_running p.status ≡ is_some p.lease_token)

may_start-pending : (s : PhaseStatus) → is_pending s ≡ true → may_start s ≡ true
may_start-pending pending e = refl
may_start-pending ready e = refl
may_start-pending running e = absurd (ground arith)
may_start-pending completed e = absurd (ground arith)
may_start-pending failed e = absurd (ground arith)
may_start-pending cancelled e = absurd (ground arith)

may_start-ready : (s : PhaseStatus) → is_ready s ≡ true → may_start s ≡ true
may_start-ready pending e = refl
may_start-ready ready e = refl
may_start-ready running e = absurd (ground arith)
may_start-ready completed e = absurd (ground arith)
may_start-ready failed e = absurd (ground arith)
may_start-ready cancelled e = absurd (ground arith)

pending_idle : (s : PhaseStatus) → is_pending s ≡ true → is_running s ≡ false
pending_idle pending e = refl
pending_idle ready e = refl
pending_idle running e = absurd (ground arith)
pending_idle completed e = refl
pending_idle failed e = refl
pending_idle cancelled e = refl

module _ (p : Phase) where
  pub ready_when-IsLimited : (done : List String) → IsLimited p → IsLimited (ready_when done p)
  unfolding ready_when
  ready_when-IsLimited done (h, k, l) =
      elim (Bool-cases (is_pending p.status && all (λ dep. includes dep done) p.deps)) [
        | inl e ↦ rw e (
          h,
          (λ _. k (may_start-pending p.status (ground arith))),
          (ground (arith, pending_idle p.status)),
        )
        | inr e ↦ rw e (h, k, l)
      ]

  pub release_expired-IsLimited : (now : ℕ) → IsLimited p → IsLimited (release_expired now p)
  unfolding release_expired clear_lease
  release_expired-IsLimited now h =
      elim (Bool-cases (not (is_running p.status) || not (is_expired p.lease_expires_at now))) [
        | inl e ↦ rw e h
        | inr e ↦ elim (Bool-cases (ltb p.attempt p.max_attempts)) [
          | inl f ↦ rw (e, f) (h.0, (λ _. ground arith), refl)
          | inr f ↦ rw (e, f) (h.0, (λ q. absurd (ground arith)), refl)
        ]
      ]

  pub claim_phase-IsLimited :
      (token owner : String) (input : Claim) (now ms : ℕ)
      → is_ready p.status ≡ true
      → IsLimited p
      → IsLimited (claim_phase token owner input now ms p)
  unfolding claim_phase
  claim_phase-IsLimited token owner input now ms r (h, k, l) =
      let less : p.attempt < p.max_attempts = k (may_start-ready p.status r) in
      (omega arith, (λ q. absurd (ground arith)), refl)

  pub fail_phase-IsLimited :
      (now : ℕ) (error : String) (retryable : Bool)
      → IsLimited p
      → IsLimited (fail_phase now error retryable p)
  unfolding fail_phase clear_lease
  fail_phase-IsLimited now error retryable h =
      elim (Bool-cases (retryable && ltb p.attempt p.max_attempts)) [
        | inl e ↦ rw e (h.0, (λ _. ground arith), refl)
        | inr e ↦ rw e (h.0, (λ q. absurd (ground arith)), refl)
      ]

  pub cancel_phase-IsLimited : (now : ℕ) → IsLimited p → IsLimited (cancel_phase now p)
  unfolding cancel_phase clear_lease
  cancel_phase-IsLimited now h = elim (Bool-cases (is_completed p.status)) [
    | inl e ↦ rw e h
    | inr e ↦ rw e (h.0, (λ q. absurd (ground arith)), refl)
  ]

  pub complete_phase-IsLimited :
      (now : ℕ) (evidence : Option (List Evidence)) (digest : Option String)
      → IsLimited p
      → IsLimited (complete_phase now evidence digest p)
  unfolding complete_phase clear_lease
  complete_phase-IsLimited now evidence digest h = (h.0, (λ q. absurd (ground arith)), refl)

refresh-IsLimited :
    (w : Workflow) (ps : List Phase) → All IsLimited ps → All IsLimited (refresh w ps).phases
unfolding refresh refresh_ready
refresh-IsLimited w ps h = All-map IsLimited _ (λ p. ready_when-IsLimited p (completed_ids ps)) ps h

release_expired_leases-IsLimited :
    (w : Workflow) (now : ℕ)
    → All IsLimited w.phases
    → All IsLimited (release_expired_leases w now).phases
unfolding release_expired_leases
release_expired_leases-IsLimited w now h =
    refresh-IsLimited w (map (release_expired now) w.phases)
      (All-map IsLimited (release_expired now) (λ p. release_expired-IsLimited p now) w.phases h)

abbrev pub is_found_ready : Option Phase → Bool
is_found_ready none = false
is_found_ready (some p) = is_ready p.status

claim_update-IsLimited :
    (token owner : String) (input : Claim) (now : ℕ) (w : Workflow)
    → All IsLimited w.phases
    → All IsLimited (claim_update token owner input now w).0.phases
unfolding claim_update
claim_update-IsLimited token owner input now w h =
    let released = release_expired_leases w now in
    let k = release_expired_leases-IsLimited w now h in
    elim (Bool-cases (is_over released.status)) [
      | inl e ↦ rw e k
      | inr e ↦ elim (Option-cases (find (is_asked input.phase_id) released.phases)) [
        | inl f ↦ rw (e, f) k
        | inr (p, f) ↦ elim (Bool-cases (is_ready p.status)) [
          | inr g ↦ rw (e, f, g) k
          | inl g ↦
              rw (e, f, g)
                (All-update_first (is_asked input.phase_id)
                  (claim_phase token owner input now released.lease_ms) released.phases
                  (λ q found l.
                    claim_phase-IsLimited q token owner input now released.lease_ms
                      (ap is_found_ready (sym found ∙ f) ∙ g) l)
                  k)
        ]
      ]
    ]

step-IsLimited :
    (call : Call) (now : ℕ) (w : Workflow)
    → All IsLimited w.phases
    → All IsLimited (step call now w).phases
unfolding step claim resume fail cancel complete
step-IsLimited (claims token input) now w h =
    elim (Bool-cases (non_empty (trim input.owner_run_id))) [
      | inl e ↦ rw e (claim_update-IsLimited token (trim input.owner_run_id) input now w h)
      | inr e ↦ rw e h
    ]
step-IsLimited resumes now w h = elim (Bool-cases (is_closed w.status)) [
  | inl e ↦ rw e h
  | inr e ↦ rw e (release_expired_leases-IsLimited w now h)
]
step-IsLimited (fails phase_id token error retryable) now w h =
    elim (Bool-cases (holds_lease phase_id token w.phases)) [
      | inl e ↦ rw e (
          refresh-IsLimited w _ (
            All-update_first _ _ w.phases
              (λ p _. fail_phase-IsLimited p now (error_text error) retryable) h))
      | inr e ↦ rw e h
    ]
step-IsLimited (cancels reason) now w h = elim (Bool-cases (is_closed w.status)) [
  | inl e ↦ rw e h
  | inr e ↦
      rw e (All-map IsLimited (cancel_phase now) (λ p. cancel_phase-IsLimited p now) w.phases h)
]
step-IsLimited (completes phase_id token evidence digest) now w h =
    elim (Option-cases (evidence_error evidence)) [
      | inr (x, f) ↦ rw f h
      | inl f ↦ elim (Bool-cases (holds_lease phase_id token w.phases)) [
        | inl e ↦
            rw (f, e)
              (refresh-IsLimited w _ (
                All-update_first _ _ w.phases
                  (λ p _. complete_phase-IsLimited p now evidence digest) h))
        | inr e ↦ rw (f, e) h
      ]
    ]

-- No phase gets beyond its limits, whatever calls are made.
pub run_from-IsLimited :
    (calls : List (Call × ℕ)) (w : Workflow)
    → All IsLimited w.phases
    → All IsLimited (run calls w).phases
unfolding run
run_from-IsLimited [] w h = h
run_from-IsLimited ((call, now) ∷ calls) w h =
    run_from-IsLimited calls (step call now w) (step-IsLimited call now w h)
