-- ===== src/Prewalk/Lifecycle/Retention.antt =====
-- What prewalk/lifecycle.ts keeps of a plan when a handoff fails, is retried or is sent back.
use ultra_fabric.Prelude.{
  ℕ, ◌+◌, ◌<◌, ◌≡◌, refl, String, Option, some, arith, or_default, true, keep_truthy, eq_refl, ◌⊎◌,
  inl, inr, eq_iff, ◌==◌, string_equality, sym, ap, Bool-cases,
}
use ultra_fabric.Prewalk.Lifecycle.States.{
  Active, Handoff, Status, armed, handing_off, continuation, blocked, verifying, handoff_failed,
  retry_requested, verification_revision, BlockError, task_superseded, Event, Arm, Rearm,
  armed_event, cancelled, task_observed,
}
use ultra_fabric.Prewalk.Lifecycle.{to_armed, revise, reduce}

-- `b` is armed again with the plan of `a`: the same configuration, session, task, checklist and attempts.
pub record KeepsPlan (a b : Active) : Type 0 where
  pub model : b.model ≡ a.model
  pub session_id : b.session_id ≡ a.session_id
  pub arm : b.arm ≡ a.arm
  pub fallback_models : b.fallback_models ≡ a.fallback_models
  pub task : b.task ≡ keep_truthy a.task
  pub checklist : b.checklist ≡ a.checklist
  pub verification_mode : b.verification_mode ≡ a.verification_mode
  pub max_phase_revisions : b.max_phase_revisions ≡ a.max_phase_revisions
  pub attempt : b.attempt ≡ a.attempt

abbrev pub ArmedWithPlan : Active → ℕ → Option ℕ → Status → Type 0
ArmedWithPlan a at revision s =
    (b : Active) × (s ≡ armed b) × KeepsPlan a b × (b.armed_at ≡ at) × (b.revision ≡ revision)

-- The three ways back to the planner keep the plan and the attempts: a failed handoff, a retry of a
-- blocked task, and, while revisions are left, a verification that asks for one, which counts it and
-- records its gate.
reduce-ArmedWithPlan :
    (a : Active) (h : Handoff) (at : ℕ)
    → ((id : String)
        → ArmedWithPlan a at a.revision (reduce (handing_off a id) (handoff_failed at)))
      × ((since : ℕ) (error : BlockError)
          → ArmedWithPlan a at a.revision
              (reduce (blocked a h since error) (retry_requested a.session_id at)))
      × ((gate feedback : String)
          → or_default a.revision 0 < or_default a.max_phase_revisions 0
          → ArmedWithPlan a at (some (or_default a.revision 0 + 1)) (
              reduce
                (continuation verifying a h)
                (verification_revision a.session_id at gate feedback)))
unfolding reduce to_armed revise
reduce-ArmedWithPlan a h at = (
  λ id. (_, refl, ground arith, refl, refl),
  λ since error. rw (eq_refl a.session_id) (_, refl, ground arith, refl, refl),
  λ gate feedback more. (
    record (to_armed a at true a.attempt) {
      revision = some (or_default a.revision 0 + 1);
      revision_gate = some gate;
      revision_feedback = some feedback;
    },
    ground (arith, eq_refl a.session_id),
    ground arith,
    refl,
    refl,
  ),
)

-- A blocked task is left only by arming, cancelling, superseding or a retry in its own session: any
-- other event leaves it blocked as it was.
blocked_left_only :
    (a : Active) (h : Handoff) (since : ℕ) (error : BlockError) (e : Event)
    → let s = blocked a h since error in
      (reduce s e ≡ s)
      ⊎ ((arm : Arm) × (e ≡ armed_event arm))
      ⊎ (e ≡ cancelled)
      ⊎ ((at : ℕ) × (rearm : Option Rearm) × (e ≡ task_superseded at rearm))
      ⊎ ((at : ℕ) × (e ≡ retry_requested a.session_id at))
unfolding reduce
blocked_left_only a h since error (task_observed id t) = inl refl
blocked_left_only a h since error (armed_event arm) = inr (inl (arm, refl))
blocked_left_only a h since error cancelled = inr (inr (inl refl))
blocked_left_only a h since error (task_superseded at rearm) =
    inr (inr (inr (inl (at, rearm, refl))))
blocked_left_only a h since error (retry_requested id at) = elim (Bool-cases (a.session_id == id)) [
  | inl same ↦
      inr (
        inr
          (inr (inr (at, ap (λ s. retry_requested s at) (sym ((eq_iff a.session_id id).0 same))))))
  | inr other ↦ inl (rw other)
]
blocked_left_only a h since error e = inl refl
