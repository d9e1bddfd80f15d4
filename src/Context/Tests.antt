-- ===== src/Context/Tests.antt =====
-- context/qos.ts on a short session that reads the same file twice.
use ultra_fabric.Prelude.{
  true, ◌<◌, ◌≡◌, refl, ◌⊎◌, String, false, Option, none, some, List, [], ◌∷◌, count, drop, lookup,
  insert, includes, trim, text_length, joined,
}
use ultra_fabric.Context.{
  object_details, other_content, pre_handoff_retirement, Message, Content, text_content, part_list,
  Part, object_part, other_details, superseded_success, Options, QosFormat, protected_boundary,
  identities, identify_parts, boundary_from, result_identity, short_name, after_last_dot, text_body,
  part_texts, evidence_bearing, collect_results,
}
use ultra_fabric.Context.Boundary.{is_user, protected_boundary-count}
use ultra_fabric.Context.Fate.{Fates, apply_context_qos-Fates}
use ultra_fabric.Context.Again.{apply_handoff_retirement-again}
use ultra_fabric.Context.Handoff.{
  HandoffOptions, continue_message_type, continuation_boundary, retire_before, retire_planned,
  apply_handoff_retirement,
}
use ultra_fabric.Context.Retire.{
  has_changed, retired, retire_at, retire_superseded, retire_oversized, apply_context_qos,
}

abbrev call : String → Part (Unit {0})
call id = object_part (record {
  type_name = some "toolCall";
  text = none;
  id = some id;
  name = some "fs.read";
  arguments = none;
})

abbrev message : String → Content (Unit {0}) → Option String → Message (Unit {0}) (Unit {0})
message role content tool_call_id = record {
  role = role;
  custom_type = none;
  content = content;
  tool_call_id = tool_call_id;
  tool_name = some "read";
  is_error = false;
  details = other_details;
  other = tt;
}

abbrev first_read : Message (Unit {0}) (Unit {0})
first_read = message "toolResult" (text_content "old text") (some "1")

abbrev later_messages : List (Message (Unit {0}) (Unit {0}))
later_messages =
    message "toolResult" (text_content "new text") (some "2")
    ∷ message "user" (text_content "go on") none
    ∷ []

abbrev calls : Message (Unit {0}) (Unit {0})
calls = message "assistant" (part_list (call "1" ∷ call "2" ∷ [])) none

abbrev session : List (Message (Unit {0}) (Unit {0}))
session = calls ∷ first_read ∷ later_messages

abbrev format : QosFormat (Unit {0})
format = record { arguments_text = λ a. "{}"; marker_text = λ name reason. "retired" }

abbrev options : Options
options = record { turn_window = 1; min_result_chars = 4; max_result_chars = some 100 }

old_read_is_marked :
    (apply_context_qos format session options).messages
    ≡ calls ∷ retired format first_read "read" (superseded_success "2" 8) ∷ later_messages
unfolding apply_context_qos protected_boundary boundary_from identities identify_parts
    collect_results result_identity short_name after_last_dot text_body part_texts evidence_bearing
    retire_at retire_superseded retire_oversized lookup insert includes trim text_length joined
old_read_is_marked = refl

apply_context_qos-Fates_example :
    Fates format
      (identities format session [])
      session
      (protected_boundary session options.turn_window)
      0
      session
      (apply_context_qos format session options).messages
apply_context_qos-Fates_example = apply_context_qos-Fates format session options

protected_boundary-count_example :
    ((count is_user session < 1) × (protected_boundary session 1 ≡ 0))
    ⊎ (count is_user (drop (protected_boundary session 1) session) ≡ 1)
protected_boundary-count_example = protected_boundary-count session 1

-- The executor goes on after the first read.
abbrev continuation : Message (Unit {0}) (Unit {0})
continuation = record {
  role = "custom";
  custom_type = some continue_message_type;
  content = other_content;
  tool_call_id = none;
  tool_name = none;
  is_error = false;
  details = object_details (record {
    kind = none;
    gates_are_listed = false;
    evidence_is_listed = false;
    has_trace = false;
    reason = none;
    continuation_id = some "c1";
  });
  other = tt;
}

abbrev handed_off : List (Message (Unit {0}) (Unit {0}))
handed_off = calls ∷ first_read ∷ continuation ∷ later_messages

abbrev handoff_options : HandoffOptions
handoff_options = record { continuation_id = "c1"; enabled = true }

planned_read_is_marked :
    (apply_handoff_retirement format handed_off handoff_options).messages
    ≡ calls
      ∷ retired format first_read "read" (pre_handoff_retirement 8)
      ∷ continuation
      ∷ later_messages
unfolding apply_handoff_retirement continuation_boundary retire_before retire_planned short_name
    after_last_dot text_body part_texts evidence_bearing includes trim text_length
planned_read_is_marked = refl

apply_handoff_retirement-again_example :
    let out = apply_handoff_retirement format handed_off handoff_options in
    let again = apply_handoff_retirement format out.messages handoff_options in
    (again.messages ≡ out.messages) × (has_changed again ≡ false)
apply_handoff_retirement-again_example =
    apply_handoff_retirement-again format handed_off handoff_options
