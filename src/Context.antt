-- ===== src/Context.antt =====
-- context/qos.ts: old tool results are taken out of the messages that a model sees. The texts of canonical
-- JSON arguments and of the markers are parameters.
pub mod Retire
pub mod Handoff
mod Again
mod Collecting
mod Fate
mod Boundary
mod Tests
use ultra_fabric.Prelude.{
  ℕ, zero, suc, ◌+◌, ◌-◌, String, Bool, true, false, ◌&&◌, ◌||◌, not, Option, none, some, List, [],
  ◌∷◌, ◌++◌, ◌==◌, nat_equality, string_equality, if◌then◌else◌, ltb, leb, max, length, Dict,
  lookup, insert, includes, non_empty, trim, text_length, joined, is_some,
}
use Prim.Native.Char.{Char, code}
use Prim.Native.String

-- The fields of a part of a content that are texts, and its arguments.
pub record PartFields (J : Type 0) : Type 0 where
  pub type_name : Option String
  pub text : Option String
  pub id : Option String
  pub name : Option String
  pub arguments : Option J

pub data Part (J : Type 0) : Type 0 where
  object_part : PartFields J → Part J
  other_part : Part J

pub data Content (J : Type 0) : Type 0 where
  text_content : String → Content J
  part_list : List (Part J) → Content J
  other_content : Content J

-- Why a result was retired: the id of the newer result, if one took its place, and the characters that
-- it had.
pub data RetirementReason : Type 0 where
  superseded_success : String → ℕ → RetirementReason
  oversized_result : ℕ → RetirementReason
  pre_handoff_retirement : ℕ → RetirementReason

pub record DetailFields : Type 0 where
  pub kind : Option String
  pub gates_are_listed : Bool
  pub evidence_is_listed : Bool
  pub has_trace : Bool
  pub reason : Option RetirementReason
  pub continuation_id : Option String

pub data Details : Type 0 where
  object_details : DetailFields → Details
  other_details : Details

-- `R` is what else a message has.
pub record Message (J R : Type 0) : Type 0 where
  pub role : String
  pub custom_type : Option String
  pub content : Content J
  pub tool_call_id : Option String
  pub tool_name : Option String
  pub is_error : Bool
  pub details : Details
  pub other : R

abbrev pub retirable : List String
retirable = "read" ∷ "grep" ∷ "find" ∷ "ls" ∷ []

abbrev pub oversized_retirable : List String
oversized_retirable = "read" ∷ "grep" ∷ "find" ∷ "ls" ∷ "fabric_exec" ∷ "codemap" ∷ []

abbrev pub marker_kind : String
marker_kind = "pi-fabric.context-qos"

-- What follows the last dot; `name` where there is none.
unfoldable pub after_last_dot : String → String → String
after_last_dot name String.[] = name
after_last_dot name (String.◌∷◌ c s) = after_last_dot (if code c == b'.' then s else name) s

abbrev pub filled : String → Option String
filled s = if non_empty s then some s else none

unfoldable pub short_name : Option String → Option String
short_name none = none
short_name (some value) =
    let name = trim value in if non_empty name then some (after_last_dot name name) else none

-- The name where the source tests that it is true.
abbrev pub if_filled : Option String → Option String
if_filled none = none
if_filled (some name) = filled name

abbrev pub is_marker : Option String → Bool
is_marker none = false
is_marker (some kind) = kind == marker_kind

unfoldable pub evidence_bearing : Details → Bool
evidence_bearing other_details = false
evidence_bearing (object_details d) =
    is_marker d.kind || d.gates_are_listed || d.evidence_is_listed || d.has_trace

abbrev pub join_line : String → List String → String
join_line line [] = line
join_line line (next ∷ lines) = joined line (joined "\n" (join_line next lines))

abbrev pub join_lines : List String → String
join_lines [] = ""
join_lines (line ∷ lines) = join_line line lines

abbrev pub is_text : Option String → String → Bool
is_text none wanted = false
is_text (some found) wanted = found == wanted

abbrev pub cons_text : Option String → Option (List String) → Option (List String)
cons_text none rest = none
cons_text (some text) none = none
cons_text (some text) (some rest) = some (text ∷ rest)

abbrev pub map_lines : Option (List String) → Option String
map_lines none = none
map_lines (some lines) = some (join_lines lines)

module _ {J : Type 0} where
  abbrev pub part_text : Part J → Option String
  part_text other_part = none
  part_text (object_part p) = if is_text p.type_name "text" then p.text else none

  unfoldable pub part_texts : List (Part J) → Option (List String)
  part_texts [] = some []
  part_texts (p ∷ parts) = cons_text (part_text p) (part_texts parts)

  unfoldable pub text_body : Content J → Option String
  text_body (text_content text) = some text
  text_body (part_list parts) = map_lines (part_texts parts)
  text_body other_content = none

pub record Identified : Type 0 where
  pub id : String
  pub identity : String
  pub name : String

pub record QosCandidate : Type 0 where
  pub index : ℕ
  pub identified : Identified
  pub chars : ℕ

-- The index and the id of the newest result with an identity.
pub record Latest : Type 0 where
  pub index : ℕ
  pub id : String

pub record Collected : Type 0 where
  pub latest : Dict Latest
  pub candidates : List QosCandidate
  pub protected_results : ℕ

pub record ContextQosReport : Type 0 where
  pub retired_results : ℕ
  pub retired_chars : ℕ
  pub protected_results : ℕ

abbrev pub count_retired : ℕ → ContextQosReport → ContextQosReport
count_retired chars r = record r {
  retired_results = r.retired_results + 1;
  retired_chars = r.retired_chars + chars;
}

pub record Options : Type 0 where
  pub turn_window : ℕ
  pub min_result_chars : ℕ
  pub max_result_chars : Option ℕ

-- `JSON.stringify` of the canonical arguments, and the text of a marker.
pub record QosFormat (J : Type 0) : Type 0 where
  pub arguments_text : Option J → String
  pub marker_text : String → RetirementReason → String

abbrev pub or_zero : Option ℕ → ℕ
or_zero none = 0
or_zero (some n) = n

abbrev pub identified_as : String → Option String → Option String → Option Identified
identified_as id none name = none
identified_as id (some identity) none = none
identified_as id (some identity) (some name) =
    if non_empty identity then some (record { id = id; identity = identity; name = name }) else none

abbrev pub identified_call : Dict String → Option String → Option String → Option Identified
identified_call calls none name = none
identified_call calls (some id) name = identified_as id (lookup id calls) name

abbrev pub count_protected : Bool → Collected → Collected
count_protected is_protected s =
    if is_protected then record s { protected_results = s.protected_results + 1 } else s

abbrev pub add_candidate : ℕ → ℕ → Identified → Collected → Collected
add_candidate index chars result s = record s {
  latest = insert result.identity (record { index = index; id = result.id }) s.latest;
  candidates = s.candidates ++ record { index = index; identified = result; chars = chars } ∷ [];
}

module _ {J : Type 0} (format : QosFormat J) where
  abbrev pub add_call : Option String → Option String → Option J → Dict String → Dict String
  add_call none name arguments calls = calls
  add_call (some id) none arguments calls = calls
  add_call (some id) (some name) arguments calls =
      insert id (joined name (joined ":" (format.arguments_text arguments))) calls

  abbrev pub identify_part : Part J → Dict String → Dict String
  identify_part other_part calls = calls
  identify_part (object_part p) calls =
      if is_text p.type_name "toolCall"
      then add_call p.id (if_filled (short_name p.name)) p.arguments calls
      else calls

  unfoldable pub identify_parts : List (Part J) → Dict String → Dict String
  identify_parts [] calls = calls
  identify_parts (p ∷ parts) calls = identify_parts parts (identify_part p calls)

  abbrev pub identify_content : Content J → Dict String → Dict String
  identify_content (text_content text) calls = calls
  identify_content (part_list parts) calls = identify_parts parts calls
  identify_content other_content calls = calls

  unfoldable pub identities : {R : Type 0} → List (Message J R) → Dict String → Dict String
  identities [] calls = calls
  identities (m ∷ messages) calls =
      identities messages
        (if m.role == "assistant" then identify_content m.content calls else calls)

module _ {J R : Type 0} where
  -- The loop over the messages from the last one: the boundary, or the users that remain to be passed.
  abbrev pub pass_message : ℕ → Message J R → Option ℕ → ℕ → Option ℕ × ℕ
  pass_message index m (some boundary) remaining = (some boundary, remaining)
  pass_message index m none remaining =
      if m.role == "user"
      then (if remaining - 1 == 0 then some index else none, remaining - 1)
      else (none, remaining)

  unfoldable pub boundary_from : ℕ → ℕ → List (Message J R) → Option ℕ × ℕ
  boundary_from window index [] = (none, window)
  boundary_from window index (m ∷ messages) =
      let later = boundary_from window (index + 1) messages in pass_message index m later.0 later.1

  unfoldable pub protected_boundary : List (Message J R) → ℕ → ℕ
  protected_boundary messages turn_window = or_zero (boundary_from (max 1 turn_window) 0 messages).0

  unfoldable pub result_identity : Dict String → Message J R → Option Identified
  result_identity calls m =
      if m.role == "toolResult"
      then identified_call calls m.tool_call_id (if_filled (short_name m.tool_name))
      else none

  abbrev pub is_exact : Message J R → Identified → Bool
  is_exact m result =
      not (includes result.name retirable) || m.is_error || evidence_bearing m.details

  -- One round of the first loop.
  abbrev pub collect_result :
      ℕ → ℕ → ℕ → Message J R → Option Identified → Option String → Collected → Collected
  collect_result boundary minimum index m none body s = s
  collect_result boundary minimum index m (some result) none s = s
  collect_result boundary minimum index m (some result) (some body) s =
      if ltb (text_length body) minimum
      then s
      else let s' = count_protected (is_exact m result || leb boundary index) s in
        if is_exact m result then s' else add_candidate index (text_length body) result s'

  unfoldable pub collect_results :
      Dict String → ℕ → ℕ → ℕ → List (Message J R) → Collected → Collected
  collect_results calls boundary minimum index [] s = s
  collect_results calls boundary minimum index (m ∷ messages) s =
      collect_results calls boundary minimum (index + 1) messages
        (collect_result boundary minimum index m (result_identity calls m) (text_body m.content) s)
