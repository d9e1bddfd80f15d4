-- ===== src/Workflows/Order.antt =====
-- Sequences of calls of workflows/durable.ts keep the phases in order.
use ultra_fabric.Prelude.{
  ℕ, ◌≡◌, ap, sym, ◌∙◌, String, Bool, true, some, List, [], ◌∷◌, inl, inr, arith, find, map,
  Bool-cases, Option-cases, ◌==◌, string_equality, trim, non_empty,
}
use ultra_fabric.Workflows.{
  Phase, Workflow, Claim, is_ready, is_running, is_asked, refresh, release_expired,
  release_expired_leases, update_first, claim_phase, claim_update, claim, resume, holds_lease,
  error_text, fail, cancel_phase, cancel, evidence_error, complete,
}
use ultra_fabric.Workflows.Status.{is_over, is_closed}
use ultra_fabric.Workflows.Attempts.{
  is_found_ready, Call, claims, resumes, fails, cancels, completes, step, run,
}
use ultra_fabric.Workflows.Dependencies.{
  AreInOrder, Keeps, AreInOrder-Evolves, refresh_ready-AreInOrder, Evolves-map,
  Evolves-update_first,
}
use ultra_fabric.Workflows.Changes.{
  Keeps-release_expired, Keeps-claim_phase, Keeps-fail_phase, Keeps-cancel_phase,
  Keeps-complete_phase,
}

map-AreInOrder :
    (change : Phase → Phase)
    → ((p : Phase) → Keeps p (change p))
    → (ps : List Phase) → AreInOrder ps
    → AreInOrder (map change ps)
map-AreInOrder change keep ps = AreInOrder-Evolves ps (map change ps) (Evolves-map change keep ps)

update_first-AreInOrder :
    (test : Phase → Bool) (change : Phase → Phase) (ps : List Phase)
    → ((p : Phase) → find test ps ≡ some p → Keeps p (change p))
    → AreInOrder ps
    → AreInOrder (update_first test change ps)
update_first-AreInOrder test change ps keep =
    AreInOrder-Evolves ps (update_first test change ps) (Evolves-update_first test change ps keep)

refresh-AreInOrder :
    (w : Workflow) (ps : List Phase) → AreInOrder ps → AreInOrder (refresh w ps).phases
unfolding refresh
refresh-AreInOrder w ps h = refresh_ready-AreInOrder ps h

release_expired_leases-AreInOrder :
    (w : Workflow) (now : ℕ)
    → AreInOrder w.phases
    → AreInOrder (release_expired_leases w now).phases
unfolding release_expired_leases
release_expired_leases-AreInOrder w now h =
    refresh-AreInOrder w (map (release_expired now) w.phases)
      (map-AreInOrder (release_expired now) (λ p. Keeps-release_expired p now) w.phases h)

-- The phase of a lease that is held is running.
holds_lease_running :
    (phase_id token : String) (ps : List Phase) (p : Phase)
    → holds_lease phase_id token ps ≡ true
    → find (λ q. q.id == phase_id) ps ≡ some p
    → is_running p.status ≡ true
unfolding holds_lease
holds_lease_running phase_id token ps p h f = ground arith

claim_update-AreInOrder :
    (token owner : String) (input : Claim) (now : ℕ) (w : Workflow)
    → AreInOrder w.phases
    → AreInOrder (claim_update token owner input now w).0.phases
unfolding claim_update
claim_update-AreInOrder token owner input now w h =
    let released = release_expired_leases w now in
    let k = release_expired_leases-AreInOrder w now h in
    elim (Bool-cases (is_over released.status)) [
      | inl e ↦ rw e k
      | inr e ↦ elim (Option-cases (find (is_asked input.phase_id) released.phases)) [
        | inl f ↦ rw (e, f) k
        | inr (p, f) ↦ elim (Bool-cases (is_ready p.status)) [
          | inr g ↦ rw (e, f, g) k
          | inl g ↦
              rw (e, f, g)
                (update_first-AreInOrder (is_asked input.phase_id)
                  (claim_phase token owner input now released.lease_ms) released.phases
                  (λ q found.
                    Keeps-claim_phase q token owner input now released.lease_ms
                      (ap is_found_ready (sym found ∙ f) ∙ g))
                  k)
        ]
      ]
    ]

step-AreInOrder :
    (call : Call) (now : ℕ) (w : Workflow)
    → AreInOrder w.phases
    → AreInOrder (step call now w).phases
unfolding step claim resume fail cancel complete
step-AreInOrder (claims token input) now w h =
    elim (Bool-cases (non_empty (trim input.owner_run_id))) [
      | inl e ↦ rw e (claim_update-AreInOrder token (trim input.owner_run_id) input now w h)
      | inr e ↦ rw e h
    ]
step-AreInOrder resumes now w h = elim (Bool-cases (is_closed w.status)) [
  | inl e ↦ rw e h
  | inr e ↦ rw e (release_expired_leases-AreInOrder w now h)
]
step-AreInOrder (fails phase_id token error retryable) now w h =
    elim (Bool-cases (holds_lease phase_id token w.phases)) [
      | inl e ↦ rw e (
          refresh-AreInOrder w _ (
            update_first-AreInOrder _ _ w.phases
              (λ p f.
                Keeps-fail_phase p now (error_text error) retryable
                  (holds_lease_running phase_id token w.phases p e f))
              h))
      | inr e ↦ rw e h
    ]
step-AreInOrder (cancels reason) now w h = elim (Bool-cases (is_closed w.status)) [
  | inl e ↦ rw e h
  | inr e ↦ rw e (map-AreInOrder (cancel_phase now) (λ p. Keeps-cancel_phase p now) w.phases h)
]
step-AreInOrder (completes phase_id token evidence digest) now w h =
    elim (Option-cases (evidence_error evidence)) [
      | inr (x, f) ↦ rw f h
      | inl f ↦ elim (Bool-cases (holds_lease phase_id token w.phases)) [
        | inl e ↦
            rw (f, e)
              (refresh-AreInOrder w _ (
                update_first-AreInOrder _ _ w.phases
                  (λ p g.
                    Keeps-complete_phase p now evidence digest
                      (holds_lease_running phase_id token w.phases p e g))
                  h))
        | inr e ↦ rw (f, e) h
      ]
    ]

-- When every phase that is ready, running, completed or failed depends on completed phases only, this
-- holds after any calls, by any runs in any order and at any times.
pub run-AreInOrder :
    (calls : List (Call × ℕ)) (w : Workflow) → AreInOrder w.phases → AreInOrder (run calls w).phases
unfolding run
run-AreInOrder [] w h = h
run-AreInOrder ((call, now) ∷ calls) w h =
    run-AreInOrder calls (step call now w) (step-AreInOrder call now w h)
