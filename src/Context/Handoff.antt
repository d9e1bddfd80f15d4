-- ===== src/Context/Handoff.antt =====
-- context/handoff-retirement.ts: the results of the planning phase are retired once an executor goes on. What
-- the file shares with context/qos.ts word for word is taken from there.
use ultra_fabric.Prelude.{
  ℕ, zero, suc, ◌+◌, String, Bool, false, ◌&&◌, ◌||◌, not, Option, none, some, List, [], ◌∷◌, ◌==◌,
  string_equality, if◌then◌else◌, includes, text_length, is_some,
}
use ultra_fabric.Context.{
  Message, Details, object_details, other_details, pre_handoff_retirement, retirable, is_text,
  if_filled, short_name, evidence_bearing, text_body, ContextQosReport, count_retired, QosFormat,
}
use ultra_fabric.Context.Retire.{Output, cons_output, retired}

abbrev pub continue_message_type : String
continue_message_type = "pi-fabric-prewalk-continue"

abbrev pub continues : String → Details → Bool
continues id other_details = false
continues id (object_details d) = is_text d.continuation_id id

abbrev pub next_index : Option ℕ → Option ℕ
next_index none = none
next_index (some index) = some (index + 1)

abbrev pub no_report : ContextQosReport
no_report = record { retired_results = 0; retired_chars = 0; protected_results = 0 }

pub record HandoffOptions : Type 0 where
  pub continuation_id : String
  pub enabled : Bool

module _ {J R : Type 0} where
  abbrev pub is_continuation : String → Message J R → Bool
  is_continuation id m =
      m.role == "custom" && is_text m.custom_type continue_message_type && continues id m.details

  -- `none` is -1.
  unfoldable pub continuation_boundary : String → List (Message J R) → Option ℕ
  continuation_boundary id [] = none
  continuation_boundary id (m ∷ messages) =
      let later = next_index (continuation_boundary id messages) in
      if is_continuation id m then some 0 else later

module _ {J R : Type 0} (format : QosFormat J) where
  abbrev pub handoff_at :
      Message J R
      → Option String
      → Option String
      → ContextQosReport
      → Message J R × ContextQosReport
  handoff_at m none body r = (m, r)
  handoff_at m (some name) none r = (m, r)
  handoff_at m (some name) (some body) r =
      if not (includes name retirable)
      then (m, r)
      else if m.is_error || evidence_bearing m.details
      then (m, record r { protected_results = r.protected_results + 1 })
      else (
        retired format m name (pre_handoff_retirement (text_length body)),
        count_retired (text_length body) r,
      )

  -- One round of the loop.
  unfoldable pub retire_planned : Message J R → ContextQosReport → Message J R × ContextQosReport
  retire_planned m r =
      if m.role == "toolResult" && is_some m.tool_call_id
      then handoff_at m (if_filled (short_name m.tool_name)) (text_body m.content) r
      else (m, r)

  -- The loop over the messages before the boundary.
  unfoldable pub retire_before : ℕ → List (Message J R) → ContextQosReport → Output J R
  retire_before zero messages r = record { messages = messages; report = r }
  retire_before (suc boundary) [] r = record { messages = []; report = r }
  retire_before (suc boundary) (m ∷ messages) r =
      let at = retire_planned m r in cons_output at.0 (retire_before boundary messages at.1)

  abbrev pub retire_to : Option ℕ → List (Message J R) → Output J R
  retire_to none messages = record { messages = messages; report = no_report }
  retire_to (some boundary) messages = retire_before boundary messages no_report

  unfoldable pub apply_handoff_retirement : List (Message J R) → HandoffOptions → Output J R
  apply_handoff_retirement messages options =
      if options.enabled
      then retire_to (continuation_boundary options.continuation_id messages) messages
      else record { messages = messages; report = no_report }
