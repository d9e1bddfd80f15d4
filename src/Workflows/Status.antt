-- ===== src/Workflows/Status.antt =====
-- The status of a workflow of workflows/durable.ts.
use ultra_fabric.Prelude.{Bool, true, false}

pub data WorkflowStatus : Type 0 where
  queued running completed partial failed cancelled : WorkflowStatus

abbrev pub is_cancelled : WorkflowStatus → Bool
is_cancelled cancelled = true
is_cancelled _ = false

-- The test of `resume` and `cancel`.
abbrev pub is_closed : WorkflowStatus → Bool
is_closed completed = true
is_closed cancelled = true
is_closed _ = false

-- The test of `claim`.
abbrev pub is_over : WorkflowStatus → Bool
is_over queued = false
is_over running = false
is_over _ = true
