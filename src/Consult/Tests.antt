-- ===== src/Consult/Tests.antt =====
-- consult/policy.ts and consult/reducer.ts at concrete requests and workers.
use ultra_fabric.Prelude.{
  ◌≡◌, refl, String, true, none, some, List, [], ◌∷◌, All, includes, trim, text_length, joined,
}
use ultra_fabric.Consult.Values.{
  JsonValue, text, array, object, no_values, value_then, no_fields, field_then,
  ConsultReductionLimits, field_in, bounded_text, collect_texts, bounded_strings, parse_evidence,
  parse_all_evidence, parse_finding, parse_findings, parse_worker_value,
}
use ultra_fabric.Consult.Policy.{
  ConsultMode, ResolvedConsultMode, independent_verification, ConsultPerspective, ConsultRequest,
  ConsultContextSnapshot, ConsultPolicyLimits, admitted, admit_consult, admit_mode, paths_overlap,
  starts_with, declared_scopes_overlap, has_overlapping_perspectives,
}
use ultra_fabric.Consult.Request.{
  parse_request, parse_intent, parse_perspectives, parse_perspective, normalize_scope,
  collect_paths, normalize_consult_path, is_perspective_id,
}
use ultra_fabric.Consult.Reduce.{
  ConsultWorkerStatus, ConsultWorkerInput, partial, accept_findings, accept_evidence,
}
use ultra_fabric.Consult.Perspectives.{
  Host, reduce_perspective, reduce_perspectives, reduce_workers,
}
use ultra_fabric.Consult.Result.{aggregate_status, reduced, reduce_consult}
use ultra_fabric.Consult.Grounds.{IsGrounded, reduce_workers-IsGrounded}

abbrev about : String → List String → ConsultPerspective
about id scope = record { id = id; question = "?"; scope = scope; model = none }

abbrev two : List ConsultPerspective
two = about "a" ("src/a" ∷ []) ∷ about "b" ("src/b" ∷ []) ∷ []

abbrev split_work : ConsultRequest
split_work = record {
  objective = "o";
  decision = "d";
  mode = ConsultMode.partition;
  proposal = none;
  justification = independent_verification;
  independence = "i";
  could_change = "c";
  perspectives = two;
}

abbrev context : ConsultContextSnapshot
context = record { tokens = none; context_window = 0; ratio = none }

abbrev policy : ConsultPolicyLimits
policy = record { enabled = true; max_workers = 3; context_pressure_threshold = 50; one = 100 }

abbrev perspective_json : String → String → JsonValue
perspective_json id path = object (
    field_then "id" (text id) (
      field_then "question" (text "?")
        (field_then "scope" (array (value_then (text path) no_values)) no_fields)))

abbrev intent_json : JsonValue
intent_json = object (
    field_then "justification" (text "independent_verification")
      (field_then "independence" (text "i") (field_then "couldChange" (text "c") no_fields)))

abbrev request_json : JsonValue
request_json = object (
    field_then "objective" (text " o ") (
      field_then "decision" (text "d") (
        field_then "mode" (text "partition") (
          field_then "admission" intent_json (
            field_then "perspectives"
              (array (
                value_then (perspective_json "a" "./src/a/")
                  (value_then (perspective_json "b" "src\\b") no_values)))
              no_fields)))))

is_parsed : parse_request request_json ≡ some split_work
unfolding parse_request parse_intent parse_perspectives parse_perspective normalize_scope
    collect_paths normalize_consult_path is_perspective_id field_in bounded_text trim text_length
    includes joined
is_parsed = refl

is_admitted :
    admit_consult request_json context policy
    ≡ admitted ResolvedConsultMode.partition split_work context
unfolding admit_consult admit_mode has_overlapping_perspectives declared_scopes_overlap
    paths_overlap starts_with joined parse_request parse_intent parse_perspectives parse_perspective
    normalize_scope collect_paths normalize_consult_path is_perspective_id field_in bounded_text
    trim text_length includes
is_admitted = refl

abbrev host : Host
host = record {
  resolve_evidence = λ c p. some (record { candidate = c; reference = c.path });
  nfkc = λ s. s;
  to_lower_case = λ s. s;
}

abbrev limits : ConsultReductionLimits
limits = record { max_findings_per_worker = 2; max_evidence_per_finding = 2 }

abbrev evidence : JsonValue
evidence = object (field_then "path" (text "a.ts") (field_then "claim" (text " it ") no_fields))

abbrev finding : JsonValue
finding = object (
    field_then "summary" (text "s") (
      field_then "confidence" (text "low")
        (field_then "evidence" (array (value_then evidence no_values)) no_fields)))

abbrev answer : JsonValue
answer = object (
    field_then "stance" (text "support") (
      field_then "risks" (array no_values) (
        field_then "uncertainty" (array no_values)
          (field_then "findings" (array (value_then finding no_values)) no_fields))))

abbrev one_worker : ConsultWorkerInput
one_worker = record {
  perspective_id = "a";
  status = ConsultWorkerStatus.completed;
  value = some answer;
  error = none;
  model = none;
  usage = none;
}

reduce_workers-IsGrounded_example :
    All
      (IsGrounded host)
      (reduce_workers host limits ResolvedConsultMode.partition two (one_worker ∷ [])).findings
reduce_workers-IsGrounded_example =
    reduce_workers-IsGrounded host limits ResolvedConsultMode.partition two (one_worker ∷ [])

partly_answered :
    (reduce_consult host limits
      (one_worker ∷ [])
      (admitted ResolvedConsultMode.partition split_work context)).outcome
    ≡ reduced partial
unfolding reduce_consult aggregate_status reduce_workers reduce_perspectives reduce_perspective
    parse_worker_value field_in bounded_strings collect_texts bounded_text parse_findings
    parse_finding parse_all_evidence parse_evidence accept_findings accept_evidence trim text_length
    includes
partly_answered = refl
