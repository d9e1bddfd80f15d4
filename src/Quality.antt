-- ===== src/Quality.antt =====
-- quality/policy.ts: which checks the changed files need, and what their outcomes quality_decision. `lower` is
-- JavaScript's `toLowerCase`.
pub mod Enforced
pub mod Files
mod Tests
use ultra_fabric.Prelude.{
  ℕ, String, Bool, true, false, ◌&&◌, ◌||◌, not, Option, none, some, List, [], ◌∷◌, ◌++◌, ◌==◌,
  string_equality, if◌then◌else◌, map, filter, includes, unique, trim, non_empty, Dict, insert,
  lookup,
}

pub data QualityMode : Type 0 where
  off audit enforce : QualityMode

-- `no_file` is `none` in the source.
pub data QualityFileMode : Type 0 where
  append no_file : QualityFileMode

pub data QualityCheckOutcome : Type 0 where
  passed failed timed_out crashed : QualityCheckOutcome

pub record QualityCheckDefinition : Type 0 where
  pub id : String
  pub languages : List String
  pub command : String
  pub args : List String
  pub file_mode : QualityFileMode
  pub timeout_ms : ℕ

pub record QualityChangedFile : Type 0 where
  pub path : String
  pub language : String

pub record PlannedQualityCheck : Type 0 where
  pub definition : QualityCheckDefinition
  pub languages : List String
  pub paths : List String

pub record QualityCheckPlan : Type 0 where
  pub languages : List String
  pub checks : List PlannedQualityCheck
  pub uncovered_languages : List String

-- What `evaluateQualityPolicy` reads of an execution.
pub record QualityCheckExecution : Type 0 where
  pub check_id : String
  pub outcome : QualityCheckOutcome

pub data QualityPolicyIssue : Type 0 where
  uncovered : (language : String) → QualityPolicyIssue
  check : (check_id : String) → QualityCheckOutcome → QualityPolicyIssue

pub data QualityDecision : Type 0 where
  off pass warn block : QualityDecision

pub record QualityPolicyEvaluation : Type 0 where
  pub decision : QualityDecision
  pub issues : List QualityPolicyIssue

abbrev pub check_for : QualityCheckDefinition → List QualityChangedFile → List PlannedQualityCheck
check_for d [] = []
check_for d (f ∷ fs) =
    record {
      definition = d;
      languages = unique (map (λ g. g.language) (f ∷ fs));
      paths = map (λ g. g.path) (f ∷ fs);
    }
    ∷ []

unfoldable pub covered_languages : List PlannedQualityCheck → List String
covered_languages [] = []
covered_languages (c ∷ cs) = c.languages ++ covered_languages cs

module _ (lower : String → String) where
  abbrev pub normal_language : String → String
  normal_language language = lower (trim language)

  abbrev pub or_unknown : String → String
  or_unknown language = if non_empty language then language else "unknown"

  -- The map from paths to files: the last file of a path counts, at the place of the first one.
  unfoldable pub files_by_path :
      Dict QualityChangedFile → List QualityChangedFile → Dict QualityChangedFile
  files_by_path known [] = known
  files_by_path known (f ∷ fs) =
      files_by_path
        (insert f.path
          (record { path = f.path; language = or_unknown (normal_language f.language) }) known)
        fs

  unfoldable pub files_to_check : List String → List QualityChangedFile → List QualityChangedFile
  files_to_check ignored changed =
      filter (λ f. not (includes f.language (map normal_language ignored)))
        (map (λ e. e.1) (files_by_path [] changed))

  unfoldable pub accepts : QualityCheckDefinition → String → Bool
  accepts d language =
      includes "*" (map normal_language d.languages)
      || includes language (map normal_language d.languages)

  unfoldable pub plan_checks :
      List QualityChangedFile → List QualityCheckDefinition → List PlannedQualityCheck
  plan_checks files [] = []
  plan_checks files (d ∷ ds) =
      check_for d (filter (λ f. accepts d f.language) files) ++ plan_checks files ds

  unfoldable pub plan_quality_checks :
      List QualityChangedFile → List QualityCheckDefinition → List String → QualityCheckPlan
  plan_quality_checks changed definitions ignored =
      let files = files_to_check ignored changed in
      let languages = unique (map (λ f. f.language) files) in
      let checks = plan_checks files definitions in
      record {
        languages = languages;
        checks = checks;
        uncovered_languages = filter (λ l. not (includes l (covered_languages checks))) languages;
      }

-- The map from ids to executions: the last one of an id counts.
unfoldable pub results_by_id :
    Dict QualityCheckExecution → List QualityCheckExecution → Dict QualityCheckExecution
results_by_id known [] = known
results_by_id known (e ∷ es) = results_by_id (insert e.check_id e known) es

abbrev pub outcome_or_crashed : Option QualityCheckExecution → QualityCheckOutcome
outcome_or_crashed none = crashed
outcome_or_crashed (some e) = e.outcome

abbrev pub outcome_of : Dict QualityCheckExecution → PlannedQualityCheck → QualityCheckOutcome
outcome_of results c = outcome_or_crashed (lookup c.definition.id results)

abbrev pub is_passed : QualityCheckOutcome → Bool
is_passed passed = true
is_passed _ = false

unfoldable pub check_issues :
    Dict QualityCheckExecution → List PlannedQualityCheck → List QualityPolicyIssue
check_issues results [] = []
check_issues results (c ∷ cs) =
    let rest = check_issues results cs in
    if is_passed (outcome_of results c)
    then rest
    else check c.definition.id (outcome_of results c) ∷ rest

abbrev pub quality_decision : QualityMode → List QualityPolicyIssue → QualityDecision
quality_decision mode [] = pass
quality_decision enforce (i ∷ issues) = block
quality_decision _ (i ∷ issues) = warn

abbrev pub is_mode_off : QualityMode → Bool
is_mode_off off = true
is_mode_off _ = false

unfoldable pub evaluate_quality_policy :
    QualityMode → QualityCheckPlan → List QualityCheckExecution → QualityPolicyEvaluation
evaluate_quality_policy mode plan executions =
    let issues =
      map uncovered plan.uncovered_languages
      ++ check_issues (results_by_id [] executions) plan.checks in
    if is_mode_off mode
    then record { decision = QualityDecision.off; issues = [] }
    else record { decision = quality_decision mode issues; issues = issues }
