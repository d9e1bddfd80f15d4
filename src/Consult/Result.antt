-- ===== src/Consult/Result.antt =====
-- consult/reducer.ts: the result of `reduceConsult`, after its loop.
use ultra_fabric.Prelude.{
  ℕ, String, Bool, true, false, ◌&&◌, not, Option, none, some, List, [], ◌∷◌, ◌++◌, ltb, ◌==◌,
  nat_equality, string_equality, if◌then◌else◌, length, all, map, unique, trim, keep_truthy,
}
use ultra_fabric.Consult.Values.{has_none}
use ultra_fabric.Consult.Policy.{
  ResolvedConsultMode, ConsultContextSnapshot, ConsultAdmissionCode, ConsultAdmissionDecision,
  admitted, not_admitted,
}
use ultra_fabric.Consult.Values.{ConsultReductionLimits}
use ultra_fabric.Consult.Reduce.{
  ConsultWorkerStatus, ConsultWorkerInput, ConsultFinding, ConsultRecommendation, ConsultCoverage,
  PerspectiveStatus, of_worker, ConsultPerspectiveResult, ConsultStatus, success, partial,
  inconclusive, cancelled, Reduction, empty_reduction,
}
use ultra_fabric.Consult.Perspectives.{Host, collapse_spaces, reduce_workers}

abbrev pub is_stopped : PerspectiveStatus → Bool
is_stopped (of_worker ConsultWorkerStatus.stopped) = true
is_stopped _ = false

abbrev pub is_timed_out : PerspectiveStatus → Bool
is_timed_out (of_worker ConsultWorkerStatus.timed_out) = true
is_timed_out _ = false

abbrev pub is_exhausted : PerspectiveStatus → Bool
is_exhausted (of_worker ConsultWorkerStatus.budget_exhausted) = true
is_exhausted _ = false

unfoldable pub aggregate_status : ConsultCoverage → List ConsultPerspectiveResult → ConsultStatus
aggregate_status c workers =
    if c.accepted == c.requested && c.failed == 0 && c.rejected == 0
    then success
    else if ltb 0 c.accepted
    then partial
    else if ltb 0 c.completed
    then inconclusive
    else if not (has_none workers) && all (λ w. is_stopped w.status) workers
    then cancelled
    else if not (has_none workers) && all (λ w. is_timed_out w.status) workers
    then ConsultStatus.timed_out
    else if not (has_none workers) && all (λ w. is_exhausted w.status) workers
    then ConsultStatus.budget_exhausted
    else ConsultStatus.failed

unfoldable pub normalize_recommendation : Host → String → String
normalize_recommendation host value =
    host.to_lower_case (collapse_spaces false (trim (host.nfkc value)))

-- `normalized.every((value) => value === normalized[0])`
abbrev pub all_same : List String → Bool
all_same [] = true
all_same (x ∷ xs) = all (λ y. y == x) (x ∷ xs)

abbrev pub first_recommendation : List ConsultRecommendation → Option String
first_recommendation [] = none
first_recommendation (r ∷ rs) = some r.recommendation

unfoldable pub consensus_of : Host → Reduction → Option String
consensus_of host s =
    if s.coverage.accepted == s.coverage.requested
      && length s.recommendations == s.coverage.requested
      && all_same (map (λ r. normalize_recommendation host r.recommendation) s.recommendations)
    then first_recommendation s.recommendations
    else none

unfoldable pub disagreements_of : Host → Reduction → List ConsultRecommendation
disagreements_of host s =
    if ltb 1 (
      length (unique (map (λ r. normalize_recommendation host r.recommendation) s.recommendations)))
    then s.recommendations
    else []

unfoldable pub references_of : List ConsultFinding → List String
references_of [] = []
references_of (f ∷ fs) = map (λ e. e.reference) f.evidence ++ references_of fs

pub data ConsultOutcome : Type 0 where
  reduced : ConsultStatus → ConsultOutcome
  was_not_admitted : ConsultAdmissionCode → ConsultOutcome

-- The reduction holds the coverage, the findings, the recommendations, the risks, the uncertainty, the
-- perspectives, the usage and whether a worker was silent.
pub record ConsultResult : Type 0 where
  pub outcome : ConsultOutcome
  pub mode : Option ResolvedConsultMode
  pub decision : Option String
  pub could_change : Option String
  pub context : ConsultContextSnapshot
  pub evidence_count : ℕ
  pub consensus : Option String
  pub disagreements : List ConsultRecommendation
  pub reduction : Reduction

unfoldable pub reduce_consult :
    Host
    → ConsultReductionLimits
    → List ConsultWorkerInput
    → ConsultAdmissionDecision
    → ConsultResult
reduce_consult host limits workers (not_admitted code context) = record {
  outcome = was_not_admitted code;
  mode = none;
  decision = none;
  could_change = none;
  context = context;
  evidence_count = 0;
  consensus = none;
  disagreements = [];
  reduction = empty_reduction 0;
}
reduce_consult host limits workers (admitted mode request context) =
    let s = reduce_workers host limits mode request.perspectives workers in
    record {
      outcome = reduced (aggregate_status s.coverage s.perspectives);
      mode = some mode;
      decision = some request.decision;
      could_change = some request.could_change;
      context = context;
      evidence_count = length (unique (references_of s.findings));
      consensus = keep_truthy (consensus_of host s);
      disagreements = disagreements_of host s;
      reduction = s;
    }
