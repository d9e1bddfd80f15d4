-- ===== src/Quality/Tests.antt =====
-- quality/policy.ts at concrete files and checks.
use ultra_fabric.Prelude.{
  ◌≡◌, refl, true, List, [], ◌∷◌, any, includes, unique, insert, lookup, trim,
}
use ultra_fabric.Quality.{
  QualityMode, no_file, passed, failed, QualityCheckDefinition, QualityChangedFile,
  QualityCheckExecution, uncovered, files_by_path, files_to_check, accepts, plan_checks,
  covered_languages, plan_quality_checks, results_by_id, check_issues, evaluate_quality_policy,
}
use ultra_fabric.Quality.Enforced.{is_checked}
use ultra_fabric.Quality.Files.{evaluate_quality_policy-pass}

abbrev lint : QualityCheckDefinition
lint = record {
  id = "lint";
  languages = "ts" ∷ [];
  command = "lint";
  args = [];
  file_mode = no_file;
  timeout_ms = 1_000;
}

abbrev source : QualityChangedFile
source = record { path = "a.ts"; language = "ts" }

abbrev image : QualityChangedFile
image = record { path = "a.png"; language = "binary" }

abbrev runs : List QualityCheckExecution
runs =
    record { check_id = "lint"; outcome = failed }
    ∷ record { check_id = "lint"; outcome = passed }
    ∷ []

unknown_language_blocks :
    (evaluate_quality_policy QualityMode.enforce
      (plan_quality_checks (λ s. s) (record { path = "x"; language = " " } ∷ []) (lint ∷ []) [])
      runs).issues
    ≡ uncovered "unknown" ∷ []
unfolding evaluate_quality_policy plan_quality_checks plan_checks files_to_check files_by_path
    accepts covered_languages results_by_id check_issues includes unique insert lookup trim
unknown_language_blocks = refl

evaluate_quality_policy-pass_example :
    any
      (is_checked (λ s. s) (results_by_id [] runs) "a.ts")
      (plan_quality_checks (λ s. s) (image ∷ source ∷ []) (lint ∷ []) ("binary" ∷ [])).checks
    ≡ true
evaluate_quality_policy-pass_example =
    evaluate_quality_policy-pass (λ s. s) QualityMode.enforce (image ∷ []) [] (lint ∷ [])
      ("binary" ∷ []) runs source
      (unfold evaluate_quality_policy plan_quality_checks plan_checks files_to_check files_by_path
          accepts covered_languages results_by_id check_issues includes unique insert lookup trim in
        refl)
      (unfold includes in refl) (unfold includes trim in refl)
