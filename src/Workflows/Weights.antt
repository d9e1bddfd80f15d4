-- ===== src/Workflows/Weights.antt =====
-- What the calls of workflows/durable.ts do to sums over the phases: only a claim counts an attempt.
use ultra_fabric.Prelude.{
  ℕ, ◌+◌, ◌≡◌, refl, String, Bool, ◌&&◌, ◌||◌, not, Option, none, some, List, [], ◌∷◌, ◌⊎◌, inl,
  inr, arith, ap, ◌∙◌, ltb, find, all, map, includes, Bool-cases, Option-cases, string_equality,
  ◌==◌, trim, non_empty,
}
use ultra_fabric.Workflows.{
  Phase, Workflow, Error, Claim, Evidence, is_pending, is_ready, is_running, is_completed,
  is_expired, is_asked, clear_lease, ready_when, refresh_ready, refresh, completed_ids,
  release_expired, release_expired_leases, update_first, claim_phase, claim_update, claim, resume,
  holds_lease, fail_phase, error_text, fail, cancel_phase, cancel, evidence_error, complete_phase,
  complete,
}
use ultra_fabric.Workflows.Status.{is_over, is_closed}
use ultra_fabric.Workflows.Attempts.{Call, claims, resumes, fails, cancels, completes, step, run}

-- What the phase that a claim handed out counts for, by its id.
abbrev pub worth : (String → ℕ) → Option Phase → ℕ
worth d none = 0
worth d (some p) = d p.id

abbrev pub worth_of_claim : (String → ℕ) → Error ⊎ (Workflow × Option Phase) → ℕ
worth_of_claim d (inl e) = 0
worth_of_claim d (inr (w, handed)) = worth d handed

abbrev pub worth_of_call : (String → ℕ) → Call → ℕ → Workflow → ℕ
worth_of_call d (claims token input) now w = worth_of_claim d (claim token input now w)
worth_of_call d _ now w = 0

abbrev pub worth_of_calls : (String → ℕ) → List (Call × ℕ) → Workflow → ℕ
worth_of_calls d [] w = 0
worth_of_calls d ((call, now) ∷ calls) w =
    worth_of_call d call now w + worth_of_calls d calls (step call now w)

abbrev pub weigh : (String → ℕ → ℕ → ℕ) → List Phase → ℕ
weigh g [] = 0
weigh g (p ∷ ps) = g p.id p.attempt p.max_attempts + weigh g ps

module _ (g : String → ℕ → ℕ → ℕ) (d : String → ℕ)
    (grows : (id : String) (a m : ℕ) → g id (a + 1) m ≡ d id + g id a m) where
  abbrev of : Phase → ℕ
  of p = g p.id p.attempt p.max_attempts

  weigh-map :
      (change : Phase → Phase) (ps : List Phase)
      → ((p : Phase) → of (change p) ≡ of p)
      → weigh g (map change ps) ≡ weigh g ps
  weigh-map change [] same = refl
  weigh-map change (p ∷ ps) same = omega (arith, same p, weigh-map change ps same)

  weigh-update_first :
      (test : Phase → Bool) (change : Phase → Phase) (ps : List Phase)
      → ((p : Phase) → of (change p) ≡ of p)
      → weigh g (update_first test change ps) ≡ weigh g ps
  unfolding update_first
  weigh-update_first test change [] same = refl
  weigh-update_first test change (p ∷ ps) same = elim (Bool-cases (test p)) [
    | inl e ↦ rw e (omega (arith, same p))
    | inr e ↦ rw e (omega (arith, weigh-update_first test change ps same))
  ]

  weigh-claimed :
      (test : Phase → Bool) (change : Phase → Phase) (ps : List Phase) (q : Phase)
      → ((p : Phase) → of (change p) ≡ d p.id + of p)
      → find test ps ≡ some q
      → weigh g (update_first test change ps) ≡ d q.id + weigh g ps
  unfolding update_first
  weigh-claimed test change [] q more f = absurd (ground arith)
  weigh-claimed test change (p ∷ ps) q more f = elim (Bool-cases (test p)) [
    | inl e ↦
        let same : p ≡ q = ground arith in
        let named : d p.id ≡ d q.id = ap (λ (x : Phase). d x.id) same in
        rw e (omega (arith, more p, named))
    | inr e ↦ rw e (omega (arith, weigh-claimed test change ps q more (ground arith)))
  ]

  of-ready_when : (done : List String) (p : Phase) → of (ready_when done p) ≡ of p
  unfolding ready_when
  of-ready_when done p =
      elim (Bool-cases (is_pending p.status && all (λ dep. includes dep done) p.deps)) [
        | inl e ↦ rw e refl
        | inr e ↦ rw e refl
      ]

  of-release_expired : (now : ℕ) (p : Phase) → of (release_expired now p) ≡ of p
  unfolding release_expired clear_lease
  of-release_expired now p =
      elim (Bool-cases (not (is_running p.status) || not (is_expired p.lease_expires_at now))) [
        | inl e ↦ rw e refl
        | inr e ↦ elim (Bool-cases (ltb p.attempt p.max_attempts)) [
          | inl f ↦ rw (e, f) refl
          | inr f ↦ rw (e, f) refl
        ]
      ]

  of-fail_phase :
      (now : ℕ) (error : String) (retryable : Bool) (p : Phase)
      → of (fail_phase now error retryable p) ≡ of p
  unfolding fail_phase clear_lease
  of-fail_phase now error retryable p =
      elim (Bool-cases (retryable && ltb p.attempt p.max_attempts)) [
        | inl e ↦ rw e refl
        | inr e ↦ rw e refl
      ]

  of-cancel_phase : (now : ℕ) (p : Phase) → of (cancel_phase now p) ≡ of p
  unfolding cancel_phase clear_lease
  of-cancel_phase now p = elim (Bool-cases (is_completed p.status)) [
    | inl e ↦ rw e refl
    | inr e ↦ rw e refl
  ]

  of-complete_phase :
      (now : ℕ) (evidence : Option (List Evidence)) (digest : Option String) (p : Phase)
      → of (complete_phase now evidence digest p) ≡ of p
  unfolding complete_phase clear_lease
  of-complete_phase now evidence digest p = refl

  of-claim_phase :
      (token owner : String) (input : Claim) (now ms : ℕ) (p : Phase)
      → of (claim_phase token owner input now ms p) ≡ d p.id + of p
  unfolding claim_phase
  of-claim_phase token owner input now ms p = grows p.id p.attempt p.max_attempts

  id-claim_phase :
      (token owner : String) (input : Claim) (now ms : ℕ) (p : Phase)
      → d (claim_phase token owner input now ms p).id ≡ d p.id
  unfolding claim_phase
  id-claim_phase token owner input now ms p = refl

  weigh-refresh : (w : Workflow) (ps : List Phase) → weigh g (refresh w ps).phases ≡ weigh g ps
  unfolding refresh refresh_ready
  weigh-refresh w ps =
      weigh-map (ready_when (completed_ids ps)) ps (of-ready_when (completed_ids ps))

  weigh-released :
      (w : Workflow) (now : ℕ) → weigh g (release_expired_leases w now).phases ≡ weigh g w.phases
  unfolding release_expired_leases
  weigh-released w now =
      weigh-refresh w (map (release_expired now) w.phases)
      ∙ weigh-map (release_expired now) w.phases (of-release_expired now)

  weigh-claim_update :
      (token owner : String) (input : Claim) (now : ℕ) (w : Workflow)
      → let (after, handed) = claim_update token owner input now w in
        weigh g after.phases ≡ worth d handed + weigh g w.phases
  unfolding claim_update
  weigh-claim_update token owner input now w =
      let released = release_expired_leases w now in
      let k = weigh-released w now in
      elim (Bool-cases (is_over released.status)) [
        | inl e ↦ rw e (omega (arith, k))
        | inr e ↦ elim (Option-cases (find (is_asked input.phase_id) released.phases)) [
          | inl f ↦ rw (e, f) (omega (arith, k))
          | inr (p, f) ↦ elim (Bool-cases (is_ready p.status)) [
            | inr r ↦ rw (e, f, r) (omega (arith, k))
            | inl r ↦
                rw (e, f, r)
                  (omega (
                    arith,
                    k,
                    weigh-claimed (is_asked input.phase_id)
                        (claim_phase token owner input now released.lease_ms) released.phases p
                        (of-claim_phase token owner input now released.lease_ms) f,
                    id-claim_phase token owner input now released.lease_ms p,
                  ))
          ]
        ]
      ]

  weigh-step :
      (call : Call) (now : ℕ) (w : Workflow)
      → weigh g (step call now w).phases ≡ worth_of_call d call now w + weigh g w.phases
  unfolding step claim resume fail cancel complete
  weigh-step (claims token input) now w = elim (Bool-cases (non_empty (trim input.owner_run_id))) [
    | inl e ↦ rw e (weigh-claim_update token (trim input.owner_run_id) input now w)
    | inr e ↦ rw e (omega arith)
  ]
  weigh-step resumes now w = elim (Bool-cases (is_closed w.status)) [
    | inl e ↦ rw e (omega arith)
    | inr e ↦ rw e (omega (arith, weigh-released w now))
  ]
  weigh-step (fails phase_id token error retryable) now w =
      let changed =
        update_first (λ (p : Phase). p.id == phase_id) (fail_phase now (error_text error) retryable)
          w.phases in
      elim (Bool-cases (holds_lease phase_id token w.phases)) [
        | inl e ↦ rw e (
            omega (
              arith,
              weigh-refresh w changed,
              weigh-update_first (λ p. p.id == phase_id)
                  (fail_phase now (error_text error) retryable) w.phases
                  (of-fail_phase now (error_text error) retryable),
            ))
        | inr e ↦ rw e (omega arith)
      ]
  weigh-step (cancels reason) now w = elim (Bool-cases (is_closed w.status)) [
    | inl e ↦ rw e (omega arith)
    | inr e ↦ rw e (omega (arith, weigh-map (cancel_phase now) w.phases (of-cancel_phase now)))
  ]
  weigh-step (completes phase_id token evidence digest) now w =
      let changed =
        update_first (λ (p : Phase). p.id == phase_id) (complete_phase now evidence digest)
          w.phases in
      elim (Option-cases (evidence_error evidence)) [
        | inr (x, f) ↦ rw f (omega arith)
        | inl f ↦ elim (Bool-cases (holds_lease phase_id token w.phases)) [
          | inl e ↦
              rw (f, e)
                (omega (
                  arith,
                  weigh-refresh w changed,
                  weigh-update_first (λ p. p.id == phase_id) (complete_phase now evidence digest)
                      w.phases (of-complete_phase now evidence digest),
                ))
          | inr e ↦ rw (f, e) (omega arith)
        ]
      ]

  pub weigh-run :
      (calls : List (Call × ℕ)) (w : Workflow)
      → weigh g (run calls w).phases ≡ worth_of_calls d calls w + weigh g w.phases
  unfolding run
  weigh-run [] w = omega arith
  weigh-run ((call, now) ∷ calls) w =
      omega (arith, weigh-step call now w, weigh-run calls (step call now w))
