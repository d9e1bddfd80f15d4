-- ===== src/Workflows/Changes.antt =====
-- What each operation of workflows/durable.ts keeps of a phase.
use ultra_fabric.Prelude.{
  ℕ, ◌≡◌, refl, String, Bool, true, ◌&&◌, ◌||◌, not, Option, List, inl, inr, arith, ltb, Bool-cases,
  string_equality,
}
use ultra_fabric.Workflows.{
  Phase, Claim, Evidence, PhaseStatus, ready, completed, failed, is_ready, is_running, is_completed,
  is_expired, clear_lease, release_expired, claim_phase, fail_phase, cancel_phase, complete_phase,
}
use ultra_fabric.Workflows.Dependencies.{Keeps, has_begun, ready_begun, running_begun}

module _ (p : Phase) where
  -- A running phase has begun, and it is not completed.
  running_open :
      (s : PhaseStatus)
      → is_running p.status ≡ true
      → is_completed p.status ≡ true
      → is_completed s ≡ true
  running_open s r c = absurd (ground (arith, running_begun p.status))

  running_started : is_running p.status ≡ true → has_begun p.status ≡ true
  running_started r = ground (arith, running_begun p.status)

  pub Keeps-release_expired : (now : ℕ) → Keeps p (release_expired now p)
  unfolding release_expired clear_lease
  Keeps-release_expired now =
      elim (Bool-cases (not (is_running p.status) || not (is_expired p.lease_expires_at now))) [
        | inl e ↦ rw e (refl, refl, (λ c. c), λ b. b)
        | inr e ↦ elim (Bool-cases (ltb p.attempt p.max_attempts)) [
          | inl f ↦
              rw (e, f)
                (refl, refl, running_open ready (ground arith), λ b. running_started (ground arith))
          | inr f ↦
              rw (e, f)
                (
                  refl,
                  refl,
                  running_open failed (ground arith),
                  λ b. running_started (ground arith),
                )
        ]
      ]

  pub Keeps-claim_phase :
      (token owner : String) (input : Claim) (now ms : ℕ)
      → is_ready p.status ≡ true
      → Keeps p (claim_phase token owner input now ms p)
  unfolding claim_phase
  Keeps-claim_phase token owner input now ms r = (
    refl,
    refl,
    (λ c. ground (arith, ready_begun p.status)),
    λ b. ground (arith, ready_begun p.status),
  )

  pub Keeps-fail_phase :
      (now : ℕ) (error : String) (retryable : Bool)
      → is_running p.status ≡ true
      → Keeps p (fail_phase now error retryable p)
  unfolding fail_phase clear_lease
  Keeps-fail_phase now error retryable r =
      elim (Bool-cases (retryable && ltb p.attempt p.max_attempts)) [
        | inl e ↦ rw e (refl, refl, running_open ready r, λ b. running_started r)
        | inr e ↦ rw e (refl, refl, running_open failed r, λ b. running_started r)
      ]

  pub Keeps-cancel_phase : (now : ℕ) → Keeps p (cancel_phase now p)
  unfolding cancel_phase clear_lease
  Keeps-cancel_phase now = elim (Bool-cases (is_completed p.status)) [
    | inl e ↦ rw e (refl, refl, (λ c. e), λ b. b)
    | inr e ↦ rw e (refl, refl, (λ c. absurd (ground arith)), λ b. absurd (ground arith))
  ]

  pub Keeps-complete_phase :
      (now : ℕ) (evidence : Option (List Evidence)) (digest : Option String)
      → is_running p.status ≡ true
      → Keeps p (complete_phase now evidence digest p)
  unfolding complete_phase clear_lease
  Keeps-complete_phase now evidence digest r =
      (refl, refl, running_open completed r, λ b. running_started r)
