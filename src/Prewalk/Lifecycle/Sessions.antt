-- ===== src/Prewalk/Lifecycle/Sessions.antt =====
-- Which events a status of prewalk/lifecycle.ts ignores.
use ultra_fabric.Prelude.{
  String, Bool, true, false, ◌≡◌, refl, ◌≢◌, Option, none, some, arith, eq_iff,
}
use ultra_fabric.Prewalk.Lifecycle.States.{
  Status, idle, armed, handing_off, continuation, blocked, Event, task_observed, checklist_ready,
  task_settled, handoff_claimed, handoff_succeeded, continuation_accepted, continuation_settled,
  armed_event, verification_revision, verification_passed, verification_failed, retry_requested,
}
use ultra_fabric.Prewalk.Lifecycle.{settle_task, reduce}

-- The session that an event names, and that of a status.
abbrev pub event_session : Event → Option String
event_session (armed_event arm) = some arm.session_id
event_session (task_observed s _) = some s
event_session (checklist_ready s _) = some s
event_session (task_settled s _ _) = some s
event_session (handoff_claimed s _) = some s
event_session (continuation_accepted s _) = some s
event_session (continuation_settled s _ _) = some s
event_session (verification_revision s _ _ _) = some s
event_session (verification_passed s _) = some s
event_session (verification_failed s _ _) = some s
event_session (retry_requested s _) = some s
event_session _ = none

abbrev pub status_session : Status → Option String
status_session idle = none
status_session (armed a) = some a.session_id
status_session (handing_off a _) = some a.session_id
status_session (continuation _ a _) = some a.session_id
status_session (blocked a _ _ _) = some a.session_id

-- The handoff that an event names, and that of a status.
abbrev pub event_handoff : Event → Option String
event_handoff (handoff_succeeded h _ _) = some h
event_handoff (continuation_accepted _ h) = some h
event_handoff _ = none

abbrev pub status_handoff : Status → Option String
status_handoff (handing_off _ h) = some h
status_handoff (continuation _ _ h) = some h.handoff_id
status_handoff (blocked _ h _ _) = some h.handoff_id
status_handoff _ = none

abbrev is_arming : Event → Bool
is_arming (armed_event _) = true
is_arming _ = false

-- An event of another session, other than an arming, changes nothing, in any status.
pub reduce_other_session :
    (s : Status) (e : Event) (session : String)
    → is_arming e ≡ false
    → event_session e ≡ some session
    → status_session s ≢ some session
    → reduce s e ≡ s
unfolding reduce settle_task
reduce_other_session idle (task_observed session task) id n p q = refl
reduce_other_session (armed a) e id n p q = ground (arith, eq_iff a.session_id id)
reduce_other_session (handing_off a h) e id n p q = ground (arith, eq_iff a.session_id id)
reduce_other_session (continuation stage a h) e id n p q = ground (arith, eq_iff a.session_id id)
reduce_other_session (blocked a h at error) e id n p q = ground (arith, eq_iff a.session_id id)
reduce_other_session idle e id n p q = ground arith

-- A handoff that succeeds or is accepted under another identity changes nothing, in any status.
reduce_other_handoff :
    (s : Status) (e : Event) (handoff : String)
    → event_handoff e ≡ some handoff
    → status_handoff s ≢ some handoff
    → reduce s e ≡ s
unfolding reduce
reduce_other_handoff idle (task_observed session task) id p q = refl
reduce_other_handoff (handing_off a h) e id p q = ground (arith, eq_iff h id)
reduce_other_handoff (continuation stage a h) e id p q = ground (arith, eq_iff h.handoff_id id)
reduce_other_handoff s e id p q = ground arith
