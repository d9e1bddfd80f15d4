-- ===== src/Compact/Tests.antt =====
-- core/compact-controller.ts at concrete events.
use ultra_fabric.Prelude.{
  joined, ◌≡◌, refl, String, false, none, some, List, [], ◌∷◌, arith, text_length,
}
use ultra_fabric.Compact.Instructions.{TypedRequest, utf8_bytes, encode_request, bounds_error}
use ultra_fabric.Compact.{
  Intent, Pending, Controller, Event, cancelled, requests, cancels, reaches_boundary, settles,
  resumes, completed, errored, aborted, new_controller, new_pending, request, finish_callback,
  resume_commit, report, maybe_commit, commit_instructions, step, run,
}
use ultra_fabric.Compact.Sound.{AtMostOneOpen, run-AtMostOneOpen}
use ultra_fabric.Compact.Requests.{committed_intent, request_waits}

abbrev json : TypedRequest → String
json r = elim r.instructions [ none ↦ "{}" | some i ↦ "{i}" ]

abbrev plain : String → Intent
plain text = record {
  reason = none;
  instructions = some text;
  preserve = none;
  requested_by = none;
}

abbrev keeping : Intent
keeping = record {
  reason = none;
  instructions = some "";
  preserve = some ("a" ∷ []);
  requested_by = some "skill";
}

abbrev busy_events : List Event
busy_events = requests (plain "first") 1 ∷ reaches_boundary false 2 ∷ []

abbrev busy : Controller
busy = run json busy_events new_controller

abbrev waiting : Pending
waiting = new_pending 1 keeping 3

abbrev after_request : Controller
after_request = record busy { pending = some waiting; made = 2 }

-- The first callback settles the commit, the second one and a late one do nothing.
only_first_callback :
    (run json
      (settles 0 (errored (some "Already compacted")) 4
        ∷ settles 0 (completed "late" 9 none) 5
        ∷ resumes 0
        ∷ settles 0 aborted 6
        ∷ [])
      busy).reports
    ≡ report (errored (some "Already compacted")) 4 "model" ∷ []
unfolding run step request finish_callback resume_commit report maybe_commit commit_instructions
    bounds_error text_length utf8_bytes new_controller
only_first_callback = refl

was_cancelled : (report (errored (some "Already compacted")) 4 "model").status ≡ cancelled
unfolding report
was_cancelled = refl

run-AtMostOneOpen_example : AtMostOneOpen (run json (cancels ∷ busy_events) new_controller)
run-AtMostOneOpen_example = run-AtMostOneOpen json (cancels ∷ busy_events)

request_waits_example :
    let u = run json (settles 0 (completed "done" 9 none) 4 ∷ resumes 0 ∷ []) after_request in
    (u.pending ≡ some waiting)
    × (u.in_flight ≡ none)
    × (committed_intent (step json (reaches_boundary false 5) u) ≡ some waiting)
request_waits_example =
    request_waits json (λ items. unfold utf8_bytes in omega arith) busy after_request keeping
      waiting 0 3 4 5 (completed "done" 9 none) (run-AtMostOneOpen json busy_events)
      (unfold run step request maybe_commit commit_instructions bounds_error text_length utf8_bytes
          new_controller in
        refl)
      (unfold run step request maybe_commit commit_instructions bounds_error encode_request joined
          text_length utf8_bytes new_controller in
        refl)
