-- ===== src/Prewalk/Lifecycle/Tests.antt =====
-- Runs of prewalk/lifecycle.ts at concrete events.
use ultra_fabric.Prelude.{ℕ, String, ◌≡◌, refl, none, some, List, [], ◌∷◌, eq_iff, arith}
use ultra_fabric.Prewalk.Lifecycle.States.{
  Arm, Active, Handoff, idle, continuation, verifying, Event, session, gated, armed_event,
  task_observed, handoff_claimed, handoff_succeeded, continuation_accepted, continuation_settled,
  verification_revision,
}
use ultra_fabric.Prewalk.Lifecycle.{from_arm, succeed, reduce, run}
use ultra_fabric.Prewalk.Lifecycle.Sessions.{reduce_other_session}
use ultra_fabric.Prewalk.Lifecycle.Gate.{IsSound, CountsRevision, run-IsSound}

abbrev gated_arm : Arm
gated_arm = record {
  model = "fast/executor";
  session_id = "s1";
  armed_at = 10;
  arm = session;
  fallback_models = none;
  task = none;
  checklist = none;
  thinking = none;
  verification_mode = some gated;
  max_phase_revisions = some 1;
}

abbrev to_verification : List Event
to_verification =
    armed_event gated_arm
    ∷ task_observed "s1" "port it"
    ∷ handoff_claimed "s1" "h1"
    ∷ handoff_succeeded "h1" (some "main/model") none
    ∷ continuation_accepted "s1" "h1"
    ∷ []

abbrev at_verification : Active
at_verification = record {
  model = "fast/executor";
  session_id = "s1";
  armed_at = 10;
  arm = session;
  fallback_models = none;
  task = some "port it";
  checklist = none;
  thinking = none;
  verification_mode = some gated;
  max_phase_revisions = some 1;
  revision = some 0;
  revision_gate = none;
  revision_feedback = none;
  attempt = 1;
}

abbrev handoff : Handoff
handoff = record {
  handoff_id = "h1";
  return_model = some "main/model";
  return_thinking = none;
  verification_gate = none;
}

reaches_verification : run idle to_verification ≡ continuation verifying at_verification handoff
unfolding run reduce from_arm succeed
reaches_verification = refl

run-IsSound_example :
    IsSound (run idle to_verification)
    × ((session : String) (at : ℕ) (gate feedback : String)
        → CountsRevision
            (run idle to_verification)
            (reduce (run idle to_verification) (verification_revision session at gate feedback)))
run-IsSound_example = run-IsSound idle to_verification tt

reduce_other_session_example :
    reduce (continuation verifying at_verification handoff) (continuation_settled "s2" 5 none)
    ≡ continuation verifying at_verification handoff
reduce_other_session_example =
    reduce_other_session (continuation verifying at_verification handoff)
      (continuation_settled "s2" 5 none) "s2" refl refl (λ e. ground (arith, eq_iff "s1" "s2"))
