-- ===== src/Quality/Enforced.antt =====
-- What a passing evaluation of quality/policy.ts means.
use ultra_fabric.Prelude.{
  false, Option, none, some, lookup, ◌≡◌, refl, sym, ap, ◌∙◌, subst, String, Bool, true, ◌&&◌, ◌||◌,
  not, List, [], ◌∷◌, ◌++◌, arith, string_equality, map, filter, any, all, includes, unique, eq_iff,
  eq_refl, includes-unique, append-nil, append_assoc, Bool-cases, inl, inr, Dict,
}
use ultra_fabric.Quality.{
  QualityMode, off, QualityCheckDefinition, QualityChangedFile, PlannedQualityCheck,
  QualityCheckExecution, pass, QualityPolicyIssue, files_to_check, accepts, check_for, plan_checks,
  covered_languages, plan_quality_checks, results_by_id, outcome_of, outcome_or_crashed, is_passed,
  check_issues, quality_decision, is_mode_off, evaluate_quality_policy, uncovered,
}

includes-append :
    (k : String) (xs ys : List String) → includes k (xs ++ ys) ≡ (includes k xs || includes k ys)
unfolding includes
includes-append k [] ys = refl
includes-append k (x ∷ xs) ys = ground (arith, includes-append k xs ys)

abbrev languages_of : List QualityChangedFile → List String
languages_of fs = map (λ f. f.language) fs

abbrev pub paths_of : List QualityChangedFile → List String
paths_of fs = map (λ f. f.path) fs

filter-accepts :
    (lower : String → String) (d : QualityCheckDefinition) (k : String)
    (fs : List QualityChangedFile)
    → includes k (languages_of (filter (λ f. accepts lower d f.language) fs)) ≡ true
    → accepts lower d k ≡ true
unfolding includes
filter-accepts lower d k [] h = absurd (ground arith)
filter-accepts lower d k (f ∷ fs) h = elim (Bool-cases (accepts lower d f.language)) [
  | inl q ↦ ground (arith, filter-accepts lower d k fs, eq_iff f.language k)
  | inr q ↦ filter-accepts lower d k fs (ground arith)
]

includes-filter_path :
    (p : QualityChangedFile → Bool) (pre post : List QualityChangedFile) (f : QualityChangedFile)
    → p f ≡ true
    → includes f.path (paths_of (filter p (pre ++ f ∷ post))) ≡ true
unfolding includes
includes-filter_path p [] post f h = ground (arith, eq_refl f.path)
includes-filter_path p (g ∷ pre) post f h = ground (arith, includes-filter_path p pre post f h)

module _ {A : Type 0} (p : A → Bool) where
  any-append : (xs ys : List A) → any p (xs ++ ys) ≡ (any p xs || any p ys)
  any-append [] ys = refl
  any-append (x ∷ xs) ys = ground (arith, any-append xs ys)

  all-append : (xs ys : List A) → all p (xs ++ ys) ≡ (all p xs && all p ys)
  all-append [] ys = refl
  all-append (x ∷ xs) ys = ground (arith, all-append xs ys)

covered_languages-append :
    (cs ds : List PlannedQualityCheck)
    → covered_languages (cs ++ ds) ≡ covered_languages cs ++ covered_languages ds
unfolding covered_languages
covered_languages-append [] ds = refl
covered_languages-append (c ∷ cs) ds =
    ap (λ x. c.languages ++ x) (covered_languages-append cs ds)
    ∙ sym (append_assoc c.languages (covered_languages cs) (covered_languages ds))

-- Is there an execution, and did it pass?
abbrev pub has_passed : Option QualityCheckExecution → Bool
has_passed none = false
has_passed (some e) = is_passed e.outcome

has_passed_lem :
    (o : Option QualityCheckExecution)
    → is_passed (outcome_or_crashed o) ≡ true
    → has_passed o ≡ true
has_passed_lem none h = absurd (cc h)
has_passed_lem (some e) h = h

module _ (lower : String → String) (results : Dict QualityCheckExecution) where
  -- The check is for the path, and it was run and passed.
  abbrev pub is_checked : String → PlannedQualityCheck → Bool
  is_checked path c = includes path c.paths && has_passed (lookup c.definition.id results)

  check_for_languages :
      (d : QualityCheckDefinition) (ms : List QualityChangedFile) (k : String)
      → includes k (covered_languages (check_for d ms)) ≡ includes k (languages_of ms)
  unfolding covered_languages
  check_for_languages d [] k = refl
  check_for_languages d (m ∷ ms) k =
      ap (includes k) (append-nil (unique (languages_of (m ∷ ms))))
      ∙ includes-unique k (languages_of (m ∷ ms))

  check_for-any :
      (d : QualityCheckDefinition) (ms : List QualityChangedFile) (path : String)
      → includes path (paths_of ms) ≡ true
      → all (λ c. is_passed (outcome_of results c)) (check_for d ms) ≡ true
      → any (is_checked path) (check_for d ms) ≡ true
  unfolding includes
  check_for-any d [] path h passed = absurd (cc h)
  check_for-any d (m ∷ ms) path h passed = ground (arith, has_passed_lem (lookup d.id results))

  plan_checks-any :
      (pre post : List QualityChangedFile) (f : QualityChangedFile)
      (ds : List QualityCheckDefinition)
      → let cs = plan_checks lower (pre ++ f ∷ post) ds in
        includes f.language (covered_languages cs) ≡ true
        → all (λ c. is_passed (outcome_of results c)) cs ≡ true
        → any (is_checked f.path) cs ≡ true
  unfolding plan_checks
  plan_checks-any pre post f [] h passed = absurd (unfold covered_languages includes in cc h)
  plan_checks-any pre post f (d ∷ ds) h passed =
      let ms = filter (λ g. accepts lower d g.language) (pre ++ f ∷ post) in
      let own = check_for d ms in
      let rest = plan_checks lower (pre ++ f ∷ post) ds in
      let all_passed = all-append (λ c. is_passed (outcome_of results c)) own rest in
      any-append (is_checked f.path) own rest
      ∙ (elim (Bool-cases (includes f.language (covered_languages own))) [
        | inl q ↦
            let accepted =
              filter-accepts lower d f.language (pre ++ f ∷ post)
                (sym (check_for_languages d ms f.language) ∙ q) in
            let found =
              check_for-any d ms f.path
                (includes-filter_path (λ g. accepts lower d g.language) pre post f accepted)
                (ground arith) in
            ground arith
        | inr q ↦
            let later =
              plan_checks-any pre post f ds
                (ground (
                  arith,
                  includes-append f.language (covered_languages own) (covered_languages rest),
                  covered_languages-append own rest,
                ))
                (ground arith) in
            ground arith
      ])

  check_issues_none :
      (cs : List PlannedQualityCheck)
      → check_issues results cs ≡ []
      → all (λ c. is_passed (outcome_of results c)) cs ≡ true
  unfolding check_issues
  check_issues_none [] h = refl
  check_issues_none (c ∷ cs) h = elim (Bool-cases (is_passed (outcome_of results c))) [
    | inl q ↦ ground (arith, check_issues_none cs)
    | inr q ↦ absurd (ground arith)
  ]

filter_none :
    (covered : List String) (ls : List String) (k : String)
    → filter (λ l. not (includes l covered)) ls ≡ []
    → includes k ls ≡ true
    → includes k covered ≡ true
unfolding includes
filter_none covered [] k h i = absurd (cc i)
filter_none covered (l ∷ ls) k h i = elim (Bool-cases (includes l covered)) [
  | inl q ↦ ground (arith, filter_none covered ls k, eq_iff l k)
  | inr q ↦ absurd (ground arith)
]

map_none :
    (ls : List String) (is : List QualityPolicyIssue)
    → map uncovered ls ++ is ≡ []
    → (ls ≡ []) × (is ≡ [])
map_none [] is h = (refl, h)
map_none (l ∷ ls) is h = absurd (ground arith)

quality_decision_pass :
    (mode : QualityMode) (issues : List QualityPolicyIssue)
    → quality_decision mode issues ≡ pass
    → issues ≡ []
quality_decision_pass mode [] h = refl
quality_decision_pass off (i ∷ issues) h = absurd (ground arith)
quality_decision_pass QualityMode.audit (i ∷ issues) h = absurd (ground arith)
quality_decision_pass QualityMode.enforce (i ∷ issues) h = absurd (ground arith)

includes-language :
    (pre post : List QualityChangedFile) (f : QualityChangedFile)
    → includes f.language (languages_of (pre ++ f ∷ post)) ≡ true
unfolding includes
includes-language [] post f = ground (arith, eq_refl f.language)
includes-language (g ∷ pre) post f = ground (arith, includes-language pre post f)

-- When the policy lets the changes pass, every file to be checked was checked: a check
-- that is planned for its path was run, and its last outcome under that check's id is that it passed.
pub evaluate_quality_policy-checks :
    (lower : String → String) (mode : QualityMode) (changed pre post : List QualityChangedFile)
    (definitions : List QualityCheckDefinition) (ignored : List String)
    (executions : List QualityCheckExecution) (f : QualityChangedFile)
    → let plan = plan_quality_checks lower changed definitions ignored in
      (evaluate_quality_policy mode plan executions).decision ≡ pass
      → files_to_check lower ignored changed ≡ pre ++ f ∷ post
      → any (is_checked lower (results_by_id [] executions) f.path) plan.checks ≡ true
unfolding evaluate_quality_policy plan_quality_checks
evaluate_quality_policy-checks lower mode changed pre post definitions ignored executions f h at =
    elim (Bool-cases (is_mode_off mode)) [
      | inl q ↦ absurd (ground arith)
      | inr q ↦
          let files = files_to_check lower ignored changed in
          let checks = plan_checks lower files definitions in
          let results = results_by_id [] executions in
          let languages = unique (languages_of files) in
          let (all_covered, none_failed) =
            map_none (filter (λ l. not (includes l (covered_languages checks))) languages)
              (check_issues results checks) (quality_decision_pass mode _ (ground arith)) in
          let known : includes f.language languages ≡ true =
            includes-unique f.language (languages_of files)
            ∙ ap (λ fs. includes f.language (languages_of fs)) at
            ∙ includes-language pre post f in
          let is_covered =
            filter_none (covered_languages checks) languages f.language all_covered known in
          let all_passed = check_issues_none lower results checks none_failed in
          subst
            (λ fs. any (is_checked lower results f.path) (plan_checks lower fs definitions) ≡ true)
            (sym at)
            (plan_checks-any lower results pre post f definitions
              (subst
                (λ fs.
                  includes f.language (covered_languages (plan_checks lower fs definitions)) ≡ true)
                at is_covered)
              (subst
                (λ fs.
                  all (λ c. is_passed (outcome_of results c)) (plan_checks lower fs definitions)
                  ≡ true)
                at all_passed))
    ]
