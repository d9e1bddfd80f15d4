-- ===== src/Prewalk/Lifecycle/States.antt =====
-- The statuses and events of prewalk/lifecycle.ts.
use ultra_fabric.Prelude.{ℕ, String, Bool, true, false, Option, none, some, List}
use ultra_fabric.Prewalk.Plan.{Checklist}

pub data ArmMode : Type 0 where
  off session task : ArmMode

abbrev pub is_off : ArmMode → Bool
is_off off = true
is_off _ = false

abbrev pub is_task : ArmMode → Bool
is_task task = true
is_task _ = false

pub data Thinking : Type 0 where
  off minimal low medium high xhigh max : Thinking

pub data VerificationMode : Type 0 where
  gated : VerificationMode

abbrev pub is_gated : Option VerificationMode → Bool
is_gated none = false
is_gated (some gated) = true

-- `FabricPrewalkArm`
pub record Arm : Type 0 where
  pub model : String
  pub session_id : String
  pub armed_at : ℕ
  pub arm : ArmMode
  pub fallback_models : Option (List String)
  pub task : Option String
  pub checklist : Option Checklist
  pub thinking : Option Thinking
  pub verification_mode : Option VerificationMode
  pub max_phase_revisions : Option ℕ

-- `FabricPrewalkRearmDefaults`
pub record Rearm : Type 0 where
  pub model : Option String
  pub arm : ArmMode
  pub fallback_models : Option (List String)
  pub thinking : Option Thinking
  pub verification_mode : Option VerificationMode
  pub max_phase_revisions : Option ℕ

-- The fields that every status but `idle` has: the arm's, those of the phase, and the attempt.
pub record Active : Type 0 where
  pub model : String
  pub session_id : String
  pub armed_at : ℕ
  pub arm : ArmMode
  pub fallback_models : Option (List String)
  pub task : Option String
  pub checklist : Option Checklist
  pub thinking : Option Thinking
  pub verification_mode : Option VerificationMode
  pub max_phase_revisions : Option ℕ
  pub revision : Option ℕ
  pub revision_gate : Option String
  pub revision_feedback : Option String
  pub attempt : ℕ

pub data Stage : Type 0 where
  continuation_pending continuing verification_pending verifying : Stage

-- The fields that a status has from the handoff on.
pub record Handoff : Type 0 where
  pub handoff_id : String
  pub return_model : Option String
  pub return_thinking : Option String
  pub verification_gate : Option String

-- The `error` of a blocked status.
pub data BlockError : Type 0 where
  settled_without_acceptance : BlockError
  revision_limit_exhausted : ℕ → BlockError
  verification_error : String → BlockError

pub data Status : Type 0 where
  idle : Status
  armed : Active → Status
  handing_off : Active → (handoff_id : String) → Status
  continuation : Stage → Active → Handoff → Status
  blocked : Active → Handoff → (blocked_at : ℕ) → BlockError → Status

pub data Event : Type 0 where
  armed_event : Arm → Event
  task_observed : (session_id task : String) → Event
  checklist_ready : (session_id : String) → Checklist → Event
  task_settled : (session_id : String) → (at : ℕ) → Option Rearm → Event
  handoff_claimed : (session_id handoff_id : String) → Event
  executor_selected : (model : String) → Event
  task_superseded : (at : ℕ) → Option Rearm → Event
  handoff_succeeded : (handoff_id : String) (return_model return_thinking : Option String) → Event
  continuation_accepted : (session_id handoff_id : String) → Event
  continuation_settled : (session_id : String) → (at : ℕ) → Option Rearm → Event
  verification_revision : (session_id : String) → (at : ℕ) → (gate feedback : String) → Event
  verification_passed : (session_id gate : String) → Event
  verification_failed : (session_id : String) → (at : ℕ) → (error : String) → Event
  handoff_failed : (at : ℕ) → Event
  retry_requested : (session_id : String) → (at : ℕ) → Event
  cancelled : Event
