-- ===== src/Quality/Files.antt =====
-- The changed files that quality/policy.ts looks at, the last one of each path.
use ultra_fabric.Prelude.{
  ◌≡◌, refl, ap, ◌∙◌, String, Bool, true, false, not, some, List, [], ◌∷◌, ◌++◌, arith,
  string_equality, ◌==◌, any, map, filter, includes, lookup, insert, lookup-insert, eq_iff, eq_refl,
  Bool-cases, inl, inr, Dict,
}
use ultra_fabric.Quality.{
  QualityChangedFile, QualityMode, QualityCheckDefinition, QualityCheckExecution, pass,
  normal_language, or_unknown, files_by_path, files_to_check, plan_quality_checks, results_by_id,
  evaluate_quality_policy,
}
use ultra_fabric.Quality.Enforced.{paths_of, is_checked, evaluate_quality_policy-checks}

lookup_split :
    {V : Type 0} (k : String) (v : V) (d : Dict V)
    → lookup k d ≡ some v
    → (pre : List V) × (post : List V) × (map (λ e. e.1) d ≡ pre ++ v ∷ post)
unfolding lookup
lookup_split k v [] h = absurd (cc h)
lookup_split k v ((key, x) ∷ d) h = elim (Bool-cases (key == k)) [
  | inl q ↦
      let same : x ≡ v = ground arith in ([], map (λ e. e.1) d, ap (λ y. y ∷ map (λ e. e.1) d) same)
  | inr q ↦
      let (pre, post, e) = lookup_split k v d (ground arith) in (x ∷ pre, post, ap (λ l. x ∷ l) e)
]

filter_split :
    {A : Type 0} (p : A → Bool) (pre post : List A) (x : A)
    → p x ≡ true
    → filter p (pre ++ x ∷ post) ≡ filter p pre ++ x ∷ filter p post
filter_split p [] post x h = rw h refl
filter_split p (y ∷ pre) post x h = elim (Bool-cases (p y)) [
  | inl q ↦ rw (q, filter_split p pre post x h) refl
  | inr q ↦ rw (q, filter_split p pre post x h) refl
]

module _ (lower : String → String) where
  abbrev pub normal_file : QualityChangedFile → QualityChangedFile
  normal_file f = record {
    path = f.path;
    language = or_unknown lower (normal_language lower f.language);
  }

  files_by_path-others :
      (known : Dict QualityChangedFile) (fs : List QualityChangedFile) (k : String)
      → includes k (paths_of fs) ≡ false
      → lookup k (files_by_path lower known fs) ≡ lookup k known
  unfolding files_by_path includes
  files_by_path-others known [] k h = refl
  files_by_path-others known (f ∷ fs) k h =
      files_by_path-others (insert f.path (normal_file f) known) fs k (ground arith)
      ∙ ground (arith, lookup-insert f.path k (normal_file f) known, eq_iff f.path k)

  files_by_path-last :
      (known : Dict QualityChangedFile) (pre post : List QualityChangedFile)
      (f : QualityChangedFile)
      → includes f.path (paths_of post) ≡ false
      → lookup f.path (files_by_path lower known (pre ++ f ∷ post)) ≡ some (normal_file f)
  unfolding files_by_path
  files_by_path-last known [] post f h =
      files_by_path-others (insert f.path (normal_file f) known) post f.path h
      ∙ ground (arith, lookup-insert f.path f.path (normal_file f) known, eq_refl f.path)
  files_by_path-last known (g ∷ pre) post f h =
      files_by_path-last (insert g.path (normal_file g) known) pre post f h

  files_to_check_last :
      (ignored : List String) (pre post : List QualityChangedFile) (f : QualityChangedFile)
      → includes f.path (paths_of post) ≡ false
      → includes (normal_file f).language (map (normal_language lower) ignored) ≡ false
      → (before : List QualityChangedFile) × (behind : List QualityChangedFile) × (files_to_check
            lower ignored
            (pre ++ f ∷ post)
          ≡ before ++ normal_file f ∷ behind)
  unfolding files_to_check
  files_to_check_last ignored pre post f last kept =
      let (before, behind, e) =
        lookup_split f.path (normal_file f) (files_by_path lower [] (pre ++ f ∷ post))
          (files_by_path-last [] pre post f last) in
      let is_kept = λ (g : QualityChangedFile).
        not (includes g.language (map (normal_language lower) ignored)) in
      (
        filter is_kept before,
        filter is_kept behind,
        ap (filter is_kept) e ∙ filter_split is_kept before behind (normal_file f) (ap not kept),
      )

-- When the policy lets the changes pass, every changed file was checked that is the last one of its path
-- and whose language, in its normal form and `unknown` if there is none, is not ignored: a check that is
-- planned for its path was run, and its last outcome under that check's id is that it passed.
pub evaluate_quality_policy-pass :
    (lower : String → String) (mode : QualityMode) (pre post : List QualityChangedFile)
    (definitions : List QualityCheckDefinition) (ignored : List String)
    (executions : List QualityCheckExecution) (f : QualityChangedFile)
    → let plan = plan_quality_checks lower (pre ++ f ∷ post) definitions ignored in
      (evaluate_quality_policy mode plan executions).decision ≡ pass
      → includes f.path (paths_of post) ≡ false
      → includes
          (or_unknown lower (normal_language lower f.language))
          (map (normal_language lower) ignored)
        ≡ false
      → any (is_checked lower (results_by_id [] executions) f.path) plan.checks ≡ true
evaluate_quality_policy-pass lower mode pre post definitions ignored executions f h last kept =
    let (before, behind, e) = files_to_check_last lower ignored pre post f last kept in
    evaluate_quality_policy-checks lower mode (pre ++ f ∷ post) before behind definitions ignored
      executions (normal_file lower f) h e
