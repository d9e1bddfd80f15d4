-- ===== src/Prewalk/Lifecycle.antt =====
-- prewalk/lifecycle.ts: the state machine of a handoff, as a reducer over events. The times of
-- `handoff_succeeded` and the error of `handoff_failed`, which the reducer does not read, are left out.
pub mod States
pub mod Sessions
pub mod Gate
pub mod Edges
pub mod Retention
mod Tests
use ultra_fabric.Prelude.{
  ℕ, ◌+◌, String, Bool, true, false, ◌&&◌, ◌||◌, not, Option, none, some, List, [], ◌∷◌, leb, ltb,
  ◌==◌, string_equality, if◌then◌else◌, or_default, truthy, keep_truthy,
}
use States.{
  Arm, Rearm, Active, Handoff, Status, idle, armed, handing_off, continuation, blocked,
  continuation_pending, continuing, verification_pending, verifying, Event, is_off, is_task,
  is_gated, armed_event, task_observed, checklist_ready, task_settled, handoff_claimed,
  executor_selected, task_superseded, handoff_succeeded, continuation_accepted,
  continuation_settled, verification_revision, verification_passed, verification_failed,
  handoff_failed, retry_requested, cancelled, settled_without_acceptance, revision_limit_exhausted,
  verification_error,
}

-- The fields that are copied as they are need no line.
to_armed : Active → ℕ → Bool → ℕ → Active
to_armed status at preserve_task attempt = record status {
  armed_at = at;
  attempt = attempt;
  task = if preserve_task then keep_truthy status.task else none;
  checklist = if preserve_task then status.checklist else none;
  revision_gate = keep_truthy status.revision_gate;
  revision_feedback = keep_truthy status.revision_feedback;
}

non_empty_models : Option (List String) → Option (List String)
non_empty_models none = none
non_empty_models (some []) = none
non_empty_models (some (m ∷ ms)) = some (m ∷ ms)

apply_rearm : Active → Rearm → Active
unfolding non_empty_models
apply_rearm status rearm = record {
  model = or_default rearm.model status.model;
  session_id = status.session_id;
  armed_at = status.armed_at;
  arm = rearm.arm;
  fallback_models = non_empty_models rearm.fallback_models;
  task = none;
  checklist = none;
  thinking = rearm.thinking;
  verification_mode = rearm.verification_mode;
  max_phase_revisions = rearm.max_phase_revisions;
  revision = none;
  revision_gate = none;
  revision_feedback = none;
  attempt = status.attempt;
}

finish : Active → ℕ → Option Rearm → Status
unfolding to_armed apply_rearm
finish status at none = if is_off status.arm then idle else armed (to_armed status at false 0)
finish status at (some rearm) =
    if is_off rearm.arm then idle else armed (apply_rearm (to_armed status at false 0) rearm)

from_arm : Arm → Active
from_arm arm = record {
  model = arm.model;
  session_id = arm.session_id;
  armed_at = arm.armed_at;
  arm = arm.arm;
  fallback_models = arm.fallback_models;
  task = arm.task;
  checklist = arm.checklist;
  thinking = arm.thinking;
  verification_mode = arm.verification_mode;
  max_phase_revisions = arm.max_phase_revisions;
  revision = if is_gated arm.verification_mode then some 0 else none;
  revision_gate = none;
  revision_feedback = none;
  attempt = 0;
}

rearms_on_task : Active → Option Rearm → Bool
rearms_on_task status none = is_task status.arm
rearms_on_task status (some rearm) = is_task rearm.arm

settle_task : Active → String → ℕ → Option Rearm → Status
unfolding finish rearms_on_task
settle_task a session_id at rearm =
    if not (a.session_id == session_id) || not (truthy a.task)
    then armed a
    else if ltb 0 a.attempt
    then armed a
    else if rearms_on_task a rearm
    then finish a at rearm
    else armed a

revise : Active → Handoff → ℕ → String → String → Status
unfolding to_armed
revise a h at gate feedback =
    let revision = or_default a.revision 0 in
    let max_revisions = or_default a.max_phase_revisions 0 in
    if leb max_revisions revision
    then blocked a h at (revision_limit_exhausted max_revisions)
    else armed (record (to_armed a at true a.attempt) {
      revision = some (revision + 1);
      revision_gate = some gate;
      revision_feedback = some feedback;
    })

-- The fields that are not given keep no value: a handoff that is claimed has none of them yet.
succeed : Active → String → Option String → Option String → Status
succeed a handoff_id return_model return_thinking =
    continuation
      (if is_gated a.verification_mode then verification_pending else continuation_pending) a
      (record {
        handoff_id = handoff_id;
        return_model = keep_truthy return_model;
        return_thinking = keep_truthy return_thinking;
        verification_gate = none;
      })

pub reduce : Status → Event → Status
reduce s (armed_event arm) = armed (from_arm arm)
reduce (armed a) (task_observed session_id task) =
    if a.session_id == session_id && not (truthy a.task)
    then armed (record a { task = some task })
    else armed a
reduce (armed a) (checklist_ready session_id checklist) =
    if a.session_id == session_id then armed (record a { checklist = some checklist }) else armed a
reduce (armed a) (task_settled session_id at rearm) = settle_task a session_id at rearm
reduce (armed a) (handoff_claimed session_id handoff_id) =
    if a.session_id == session_id
    then handing_off (record a { attempt = a.attempt + 1 }) handoff_id
    else armed a
reduce (handing_off a h) (executor_selected model) = handing_off (record a { model = model }) h
reduce idle (task_superseded at rearm) = idle
reduce (armed a) (task_superseded at rearm) = finish a at rearm
reduce (handing_off a h) (task_superseded at rearm) = finish a at rearm
reduce (continuation stage a h) (task_superseded at rearm) = finish a at rearm
reduce (blocked a h since error) (task_superseded at rearm) = finish a at rearm
reduce (handing_off a h) (handoff_succeeded handoff_id return_model return_thinking) =
    if h == handoff_id then succeed a h return_model return_thinking else handing_off a h
reduce (continuation continuation_pending a h) (continuation_accepted session_id handoff_id) =
    if a.session_id == session_id && h.handoff_id == handoff_id
    then continuation continuing a h
    else continuation continuation_pending a h
reduce (continuation verification_pending a h) (continuation_accepted session_id handoff_id) =
    if a.session_id == session_id && h.handoff_id == handoff_id
    then continuation verifying a h
    else continuation verification_pending a h
reduce (continuation continuing a h) (continuation_settled session_id at rearm) =
    if a.session_id == session_id then finish a at rearm else continuation continuing a h
reduce (continuation verifying a h) (continuation_settled session_id at rearm) =
    if a.session_id == session_id
    then blocked a h at settled_without_acceptance
    else continuation verifying a h
reduce (continuation verifying a h) (verification_revision session_id at gate feedback) =
    if a.session_id == session_id then revise a h at gate feedback else continuation verifying a h
reduce (continuation verifying a h) (verification_passed session_id gate) =
    if a.session_id == session_id
    then continuation continuing a (record h { verification_gate = some gate })
    else continuation verifying a h
reduce (continuation verifying a h) (verification_failed session_id at error) =
    if a.session_id == session_id
    then blocked a h at (verification_error error)
    else continuation verifying a h
reduce (handing_off a h) (handoff_failed at) = armed (to_armed a at true a.attempt)
reduce (blocked a h since error) (retry_requested session_id at) =
    if a.session_id == session_id
    then armed (to_armed a at true a.attempt)
    else blocked a h since error
reduce s cancelled = idle
reduce s event = s

pub run : Status → List Event → Status
run s [] = s
run s (e ∷ es) = run (reduce s e) es
