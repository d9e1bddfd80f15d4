-- ===== src/Prewalk/Lifecycle/Edges.antt =====
-- The diagram of prewalk/lifecycle.ts: which kind of status may follow which.
use ultra_fabric.Prelude.{ℕ, String, Option, none, some, arith}
use ultra_fabric.Prewalk.Lifecycle.States.{
  Rearm, Active, Stage, Status, idle, armed, handing_off, continuation, blocked, Event,
  continuation_pending, continuing, verification_pending, verifying, task_settled, task_superseded,
  handoff_succeeded, continuation_settled, verification_revision,
}
use ultra_fabric.Prewalk.Lifecycle.{finish, settle_task, revise, succeed, reduce}

pub data Kind : Type 0 where
  is_idle is_armed is_handing_off is_blocked : Kind
  at_stage : Stage → Kind

abbrev pub kind : Status → Kind
kind idle = is_idle
kind (armed a) = is_armed
kind (handing_off a h) = is_handing_off
kind (continuation stage a h) = at_stage stage
kind (blocked a h at error) = is_blocked

-- Arming, cancelling and superseding apply in every status; the other edges are the protocol.
pub data Edge : Kind → Kind → Type 0 where
  stay : {k : Kind} → Edge k k
  arm : {k : Kind} → Edge k is_armed
  clear : {k : Kind} → Edge k is_idle
  claim : Edge is_armed is_handing_off
  hand_off : Edge is_handing_off (at_stage continuation_pending)
  hand_off_gated : Edge is_handing_off (at_stage verification_pending)
  accept : Edge (at_stage continuation_pending) (at_stage continuing)
  accept_gated : Edge (at_stage verification_pending) (at_stage verifying)
  pass : Edge (at_stage verifying) (at_stage continuing)
  block : Edge (at_stage verifying) is_blocked

ruleset edges =
    (stay, arm, clear, claim, hand_off, hand_off_gated, accept, accept_gated, pass, block)

finish-Edge :
    {k : Kind} (a : Active) (at : ℕ) (rearm : Option Rearm) → Edge k (kind (finish a at rearm))
unfolding finish
finish-Edge a at none = grind (arith, arm, clear)
finish-Edge a at (some rearm) = grind (arith, arm, clear)

settle_task-Edge :
    (a : Active) (id : String) (at : ℕ) (rearm : Option Rearm)
    → Edge is_armed (kind (settle_task a id at rearm))
unfolding settle_task
settle_task-Edge a id at rearm =
    ground (arith, finish-Edge {k = is_armed} a at rearm, stay {k = is_armed})

-- Every event moves along an edge of the diagram.
reduce-Edge : (s : Status) (e : Event) → Edge (kind s) (kind (reduce s e))
unfolding reduce
reduce-Edge (armed a) (task_settled id at rearm) = settle_task-Edge a id at rearm
reduce-Edge (armed a) (task_superseded at rearm) = finish-Edge a at rearm
reduce-Edge (handing_off a h) (task_superseded at rearm) = finish-Edge a at rearm
reduce-Edge (continuation stage a h) (task_superseded at rearm) = finish-Edge a at rearm
reduce-Edge (blocked a h since error) (task_superseded at rearm) = finish-Edge a at rearm
reduce-Edge (handing_off a h) (handoff_succeeded id m t) = unfold succeed in grind (arith, edges)
reduce-Edge (continuation continuing a h) (continuation_settled id at rearm) =
    ground (arith, finish-Edge {k = at_stage continuing} a at rearm, stay {k = at_stage continuing})
reduce-Edge (continuation verifying a h) (verification_revision id at gate feedback) =
    unfold revise in grind (arith, edges)
reduce-Edge idle e = grind (arith, edges)
reduce-Edge (armed a) e = grind (arith, edges)
reduce-Edge (handing_off a h) e = grind (arith, edges)
reduce-Edge (continuation continuation_pending a h) e = grind (arith, edges)
reduce-Edge (continuation continuing a h) e = grind (arith, edges)
reduce-Edge (continuation verification_pending a h) e = grind (arith, edges)
reduce-Edge (continuation verifying a h) e = grind (arith, edges)
reduce-Edge (blocked a h at error) e = grind (arith, edges)
