-- ===== src/Context/Retire.antt =====
-- The two loops of context/qos.ts that retire results, and `applyContextQos`.
use ultra_fabric.Prelude.{
  ℕ, zero, suc, ◌+◌, String, Bool, false, ◌||◌, not, Option, none, some, List, [], ◌∷◌, ◌==◌,
  nat_equality, if◌then◌else◌, ltb, leb, max, Dict, lookup, includes, text_length,
}
use ultra_fabric.Context.{
  Message, part_list, object_part, object_details, Details, Content, RetirementReason,
  superseded_success, oversized_result, oversized_retirable, marker_kind, evidence_bearing,
  text_body, Identified, QosCandidate, Latest, ContextQosReport, count_retired, Options, QosFormat,
  protected_boundary, identities, result_identity, collect_results,
}

abbrev pub marker_details : RetirementReason → Details
marker_details reason = object_details (record {
  kind = some marker_kind;
  gates_are_listed = false;
  evidence_is_listed = false;
  has_trace = false;
  reason = some reason;
  continuation_id = none;
})

abbrev pub marker_content : {J : Type 0} → String → Content J
marker_content text = part_list (
    object_part (record {
      type_name = some "text";
      text = some text;
      id = none;
      name = none;
      arguments = none;
    })
    ∷ [])

pub record Output (J R : Type 0) : Type 0 where
  pub messages : List (Message J R)
  pub report : ContextQosReport

abbrev pub cons_output : {J R : Type 0} → Message J R → Output J R → Output J R
cons_output m out = record out { messages = m ∷ out.messages }

-- `changed`
abbrev pub has_changed : {J R : Type 0} → Output J R → Bool
has_changed out = ltb 0 out.report.retired_results

module _ {J R : Type 0} (format : QosFormat J) where
  abbrev pub retired : Message J R → String → RetirementReason → Message J R
  retired m name reason = record m {
    content = marker_content (format.marker_text name reason);
    details = marker_details reason;
  }

  -- `output[index] = …`, made of `messages[index]`.
  unfoldable pub retire_at :
      ℕ → String → RetirementReason → List (Message J R) → List (Message J R) → List (Message J R)
  retire_at index name reason [] output = output
  retire_at index name reason (m ∷ messages) [] = []
  retire_at zero name reason (m ∷ messages) (o ∷ output) = retired m name reason ∷ output
  retire_at (suc index) name reason (m ∷ messages) (o ∷ output) =
      o ∷ retire_at index name reason messages output

  abbrev pub retire_candidate :
      ℕ → List (Message J R) → QosCandidate → Option Latest → Output J R → Output J R
  retire_candidate boundary messages c none out = out
  retire_candidate boundary messages c (some latest) out =
      if latest.index == c.index || leb boundary c.index then out else record {
        messages =
            retire_at c.index c.identified.name (superseded_success latest.id c.chars) messages
              out.messages;
        report = count_retired c.chars out.report;
      }

  unfoldable pub retire_superseded :
      ℕ → Dict Latest → List (Message J R) → List QosCandidate → Output J R → Output J R
  retire_superseded boundary latest messages [] out = out
  retire_superseded boundary latest messages (c ∷ candidates) out =
      retire_superseded boundary latest messages candidates
        (retire_candidate boundary messages c (lookup c.identified.identity latest) out)

  -- One round of the last loop: the message at the index, and the counts.
  abbrev pub oversized_at :
      ℕ
      → ℕ
      → ℕ
      → Message J R
      → Message J R
      → Option Identified
      → Option String
      → ContextQosReport
      → Message J R × ContextQosReport
  oversized_at boundary ceiling index original m none body r = (m, r)
  oversized_at boundary ceiling index original m (some result) none r = (m, r)
  oversized_at boundary ceiling index original m (some result) (some body) r =
      if leb (text_length body) ceiling
      then (m, r)
      else if leb boundary index || m.is_error || evidence_bearing m.details
      then (m, record r { protected_results = r.protected_results + 1 })
      else if not (includes result.name oversized_retirable)
      then (m, r)
      else (
        retired original result.name (oversized_result (text_length body)),
        count_retired (text_length body) r,
      )

  -- The last loop, over the positions of both lists. It writes only where it stands.
  unfoldable pub retire_oversized :
      Dict String
      → ℕ
      → ℕ
      → ℕ
      → List (Message J R)
      → List (Message J R)
      → ContextQosReport
      → Output J R
  retire_oversized calls boundary ceiling index [] output r = record {
    messages = output;
    report = r;
  }
  retire_oversized calls boundary ceiling index (original ∷ messages) [] r = record {
    messages = [];
    report = r;
  }
  retire_oversized calls boundary ceiling index (original ∷ messages) (m ∷ output) r =
      let at =
        oversized_at boundary ceiling index original m (result_identity calls m)
          (text_body m.content) r in
      cons_output at.0 (retire_oversized calls boundary ceiling (index + 1) messages output at.1)

  abbrev pub retire_above :
      Dict String → ℕ → Option ℕ → List (Message J R) → Output J R → Output J R
  retire_above calls boundary none messages out = out
  retire_above calls boundary (some limit) messages out =
      retire_oversized calls boundary (max 1 limit) 0 messages out.messages out.report

  unfoldable pub apply_context_qos : List (Message J R) → Options → Output J R
  apply_context_qos messages options =
      let calls = identities format messages [] in
      let boundary = protected_boundary messages options.turn_window in
      let collected =
        collect_results calls boundary (max 1 options.min_result_chars) 0 messages
          (record { latest = []; candidates = []; protected_results = 0 }) in
      let superseded =
        retire_superseded boundary collected.latest messages collected.candidates (record {
          messages = messages;
          report = record {
            retired_results = 0;
            retired_chars = 0;
            protected_results = collected.protected_results;
          };
        }) in
      retire_above calls boundary options.max_result_chars messages superseded
