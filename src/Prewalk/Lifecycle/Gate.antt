-- ===== src/Prewalk/Lifecycle/Gate.antt =====
-- What holds of a status of prewalk/lifecycle.ts after any events.
use ultra_fabric.Prelude.{
  ◌+◌, refl, leb, ◌==◌, string_equality, Bool-cases, inl, inr, ℕ, ◌≤◌, ◌<◌, ◌≡◌, true, false,
  Option, none, some, List, [], ◌∷◌, String, arith, or_default, is_some,
}
use ultra_fabric.Prewalk.Lifecycle.States.{
  Rearm, Active, Handoff, Stage, Status, idle, armed, handing_off, continuation, blocked, Event,
  continuation_pending, continuing, verification_pending, verifying, armed_event, is_gated,
  task_settled, task_superseded, handoff_succeeded, handoff_failed, retry_requested,
  continuation_settled, verification_revision,
}
use ultra_fabric.Prewalk.Lifecycle.{
  to_armed, apply_rearm, finish, from_arm, settle_task, revise, succeed, reduce, run,
}

-- The revisions used are within the limit.
abbrev pub RevisionsWithin : Active → Type 0
RevisionsWithin a = or_default a.revision 0 ≤ or_default a.max_phase_revisions 0

-- The stages of a gated task are those that verify it, and it continues only on accepted evidence;
-- a task that is not gated is never verified.
abbrev pub StageFits : Stage → Active → Handoff → Type 0
StageFits continuation_pending a h =
    (is_gated a.verification_mode ≡ false) × (h.verification_gate ≡ none)
StageFits continuing a h = is_gated a.verification_mode ≡ is_some h.verification_gate
StageFits verification_pending a h =
    (is_gated a.verification_mode ≡ true) × (h.verification_gate ≡ none)
StageFits verifying a h = (is_gated a.verification_mode ≡ true) × (h.verification_gate ≡ none)

abbrev pub IsSound : Status → Type 0
IsSound idle = Unit {0}
IsSound (armed a) = RevisionsWithin a
IsSound (handing_off a h) = RevisionsWithin a × (0 < a.attempt)
IsSound (continuation stage a h) = RevisionsWithin a × (0 < a.attempt) × StageFits stage a h
IsSound (blocked a h at error) =
    RevisionsWithin a × (0 < a.attempt) × (is_gated a.verification_mode ≡ true)

finish-IsSound :
    (a : Active) (at : ℕ) (rearm : Option Rearm) → RevisionsWithin a → IsSound (finish a at rearm)
unfolding finish to_armed apply_rearm
finish-IsSound a at none v = ground arith
finish-IsSound a at (some rearm) v = ground arith

settle_task-IsSound :
    (a : Active) (id : String) (at : ℕ) (rearm : Option Rearm)
    → RevisionsWithin a
    → IsSound (settle_task a id at rearm)
unfolding settle_task
settle_task-IsSound a id at rearm v = ground (arith, finish-IsSound a at rearm v)

revise-IsSound :
    (a : Active) (h : Handoff) (at : ℕ) (gate feedback : String)
    → RevisionsWithin a
    → 0 < a.attempt
    → is_gated a.verification_mode ≡ true
    → IsSound (revise a h at gate feedback)
unfolding revise to_armed
revise-IsSound a h at gate feedback v n g = ground arith

-- The events that any status but `idle` meets alike.
reduce-IsSound : (s : Status) (e : Event) → IsSound s → IsSound (reduce s e)
unfolding reduce
reduce-IsSound idle (armed_event arm) v = unfold from_arm in ground arith
reduce-IsSound (armed a) (armed_event arm) v = unfold from_arm in ground arith
reduce-IsSound (handing_off a h) (armed_event arm) v = unfold from_arm in ground arith
reduce-IsSound (continuation stage a h) (armed_event arm) v = unfold from_arm in ground arith
reduce-IsSound (blocked a h since error) (armed_event arm) v = unfold from_arm in ground arith
reduce-IsSound (armed a) (task_settled id at rearm) v = settle_task-IsSound a id at rearm v
reduce-IsSound (armed a) (task_superseded at rearm) v = finish-IsSound a at rearm v
reduce-IsSound (handing_off a h) (task_superseded at rearm) v = finish-IsSound a at rearm v.0
reduce-IsSound (continuation stage a h) (task_superseded at rearm) v = finish-IsSound a at rearm v.0
reduce-IsSound (blocked a h since error) (task_superseded at rearm) v =
    finish-IsSound a at rearm v.0
reduce-IsSound (handing_off a h) (handoff_succeeded id m t) v = unfold succeed in ground arith
reduce-IsSound (handing_off a h) (handoff_failed at) v = unfold to_armed in v.0
reduce-IsSound (blocked a h since error) (retry_requested id at) v = unfold to_armed in ground arith
reduce-IsSound (continuation continuing a h) (continuation_settled id at rearm) v =
    ground (arith, finish-IsSound a at rearm v.0)
reduce-IsSound (continuation verifying a h) (verification_revision id at gate feedback) v =
    ground (arith, revise-IsSound a h at gate feedback v.0 v.1 v.2.0)
reduce-IsSound idle e v = ground arith
reduce-IsSound (armed a) e v = ground arith
reduce-IsSound (handing_off a h) e v = ground arith
reduce-IsSound (continuation continuation_pending a h) e v = ground arith
reduce-IsSound (continuation continuing a h) e v = ground arith
reduce-IsSound (continuation verification_pending a h) e v = ground arith
reduce-IsSound (continuation verifying a h) e v = ground arith
reduce-IsSound (blocked a h at error) e v = ground arith

-- A revision that is given counts one more than there were.
abbrev pub CountsRevision : Status → Status → Type 0
CountsRevision (continuation verifying a h) (armed b) =
    b.revision ≡ some (or_default a.revision 0 + 1)
CountsRevision _ _ = Unit {0}

reduce-CountsRevision :
    (s : Status) (session : String) (at : ℕ) (gate feedback : String)
    → CountsRevision s (reduce s (verification_revision session at gate feedback))
unfolding reduce revise
reduce-CountsRevision idle session at gate feedback = tt
reduce-CountsRevision (armed a) session at gate feedback = tt
reduce-CountsRevision (handing_off a h) session at gate feedback = tt
reduce-CountsRevision (blocked a h since error) session at gate feedback = tt
reduce-CountsRevision (continuation continuation_pending a h) session at gate feedback = tt
reduce-CountsRevision (continuation continuing a h) session at gate feedback = tt
reduce-CountsRevision (continuation verification_pending a h) session at gate feedback = tt
reduce-CountsRevision (continuation verifying a h) session at gate feedback =
    elim (Bool-cases (a.session_id == session)) [
      | inr e ↦ rw e tt
      | inl e ↦
          elim (Bool-cases (leb (or_default a.max_phase_revisions 0) (or_default a.revision 0))) [
            | inl f ↦ rw (e, f) tt
            | inr f ↦ rw (e, f) refl
          ]
    ]

run_from-IsSound : (s : Status) (es : List Event) → IsSound s → IsSound (run s es)
unfolding run
run_from-IsSound s [] v = v
run_from-IsSound s (e ∷ es) v = run_from-IsSound (reduce s e) es (reduce-IsSound s e v)

-- After any events, the count of revisions is within the limit, and a further revision that is given to
-- a task that is being verified counts one more; a status past the claim has counted an attempt, a
-- gated task continues only with a gate that passed, an ungated one is never verified, and only a
-- gated task is ever blocked.
pub run-IsSound :
    (s : Status) (es : List Event)
    → IsSound s
    → IsSound (run s es)
      × ((session : String) (at : ℕ) (gate feedback : String)
          → CountsRevision
              (run s es)
              (reduce (run s es) (verification_revision session at gate feedback)))
run-IsSound s es v = (
  run_from-IsSound s es v,
  λ session at gate feedback. reduce-CountsRevision _ session at gate feedback,
)
