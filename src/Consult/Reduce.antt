-- ===== src/Consult/Reduce.antt =====
-- consult/reducer.ts: `reduceConsult` for an admitted consultation. `resolve_evidence` gives nothing where
-- the resolver rejects or throws. A count of tokens or a cost that is negative or not finite is 0.
use ultra_fabric.Prelude.{
  ℕ, ◌+◌, String, Bool, true, false, ◌&&◌, ◌||◌, not, Option, none, some, List, [], ◌∷◌, ◌++◌, ◌==◌,
  nat_equality, string_equality, if◌then◌else◌, is_some, any, filter, includes, keep_truthy,
  non_empty,
}
use ultra_fabric.Consult.Values.{
  JsonValue, ConsultStance, Confidence, ConsultEvidenceCandidate, ParsedFinding,
}
use ultra_fabric.Consult.Policy.{ConsultPerspective, perspectives_overlap}

pub data ConsultWorkerStatus : Type 0 where
  completed failed stopped timed_out budget_exhausted not_started : ConsultWorkerStatus

pub record ConsultUsage : Type 0 where
  pub tokens : ℕ
  pub cost : ℕ

pub record ConsultWorkerInput : Type 0 where
  pub perspective_id : String
  pub status : ConsultWorkerStatus
  pub value : Option JsonValue
  pub error : Option String
  pub model : Option String
  pub usage : Option ConsultUsage

pub record ValidatedConsultEvidence : Type 0 where
  pub candidate : ConsultEvidenceCandidate
  pub reference : String

pub record ConsultFinding : Type 0 where
  pub perspective_id : String
  pub summary : String
  pub confidence : Confidence
  pub evidence : List ValidatedConsultEvidence

pub record ConsultRecommendation : Type 0 where
  pub perspective_id : String
  pub recommendation : String

pub record ConsultCoverage : Type 0 where
  pub requested : ℕ
  pub started : ℕ
  pub completed : ℕ
  pub accepted : ℕ
  pub failed : ℕ
  pub rejected : ℕ
  pub missing : List String

pub data PerspectiveStatus : Type 0 where
  of_worker : ConsultWorkerStatus → PerspectiveStatus
  accepted silent rejected : PerspectiveStatus

pub record ConsultPerspectiveResult : Type 0 where
  pub perspective_id : String
  pub status : PerspectiveStatus
  pub stance : Option ConsultStance
  pub accepted_findings : ℕ
  pub rejected_evidence : ℕ
  pub model : Option String
  pub error : Option String
  pub usage : Option ConsultUsage

pub data ConsultStatus : Type 0 where
  success partial inconclusive failed cancelled timed_out budget_exhausted : ConsultStatus

-- The variables of `reduceConsult` that its loop over the perspectives changes.
pub record Reduction : Type 0 where
  pub coverage : ConsultCoverage
  pub findings : List ConsultFinding
  pub recommendations : List ConsultRecommendation
  pub risks : List String
  pub uncertainty : List String
  pub perspectives : List ConsultPerspectiveResult
  pub usage : ConsultUsage
  pub silent : Bool

abbrev pub empty_coverage : ℕ → ConsultCoverage
empty_coverage requested = record {
  requested = requested;
  started = 0;
  completed = 0;
  accepted = 0;
  failed = 0;
  rejected = 0;
  missing = [];
}

abbrev pub empty_reduction : ℕ → Reduction
empty_reduction requested = record {
  coverage = empty_coverage requested;
  findings = [];
  recommendations = [];
  risks = [];
  uncertainty = [];
  perspectives = [];
  usage = record { tokens = 0; cost = 0 };
  silent = false;
}

abbrev pub is_completed_worker : ConsultWorkerStatus → Bool
is_completed_worker completed = true
is_completed_worker _ = false

abbrev pub is_started : ConsultWorkerStatus → Bool
is_started not_started = false
is_started _ = true

-- `matching.length === 1 ? matching[0] : undefined`
abbrev pub only_one {ℓ} : {A : Type ℓ} → List A → Option A
only_one [] = none
only_one (x ∷ []) = some x
only_one (x ∷ y ∷ xs) = none

abbrev pub matching_workers : String → List ConsultWorkerInput → List ConsultWorkerInput
matching_workers id workers = filter (λ w. w.perspective_id == id) workers

-- Two workers of a comparison that are not known to have had different models.
abbrev pub same_model : Option String → Option String → Bool
same_model (some left) (some right) = not (non_empty left) || not (non_empty right) || left == right
same_model _ _ = true

abbrev pub collapses : Option ConsultWorkerInput → Option ConsultWorkerInput → Bool
collapses (some left) (some right) =
    is_completed_worker left.status
    && is_completed_worker right.status
    && same_model left.model right.model
collapses _ _ = false

module _ (workers : List ConsultWorkerInput) where
  abbrev pub pair_collapses : ConsultPerspective → ConsultPerspective → Bool
  pair_collapses left right =
      perspectives_overlap left right
      && collapses (only_one (matching_workers left.id workers))
          (only_one (matching_workers right.id workers))

  -- The inner loop, over the perspectives after `left`.
  unfoldable pub collapsed_with : ConsultPerspective → List ConsultPerspective → List String
  collapsed_with left [] = []
  collapsed_with left (right ∷ rest) =
      let later = collapsed_with left rest in
      if pair_collapses left right then left.id ∷ right.id ∷ later else later

  -- `collapsedCompareIds`; an id may be there more than once.
  unfoldable pub collapsed_ids : List ConsultPerspective → List String
  collapsed_ids [] = []
  collapsed_ids (left ∷ rest) = collapsed_with left rest ++ collapsed_ids rest

abbrev pub result_of :
    String
    → PerspectiveStatus
    → Option String
    → Option ConsultWorkerInput
    → ConsultPerspectiveResult
result_of id status error none = record {
  perspective_id = id;
  status = status;
  stance = none;
  accepted_findings = 0;
  rejected_evidence = 0;
  model = none;
  error = error;
  usage = none;
}
result_of id status error (some w) = record {
  perspective_id = id;
  status = status;
  stance = none;
  accepted_findings = 0;
  rejected_evidence = 0;
  model = keep_truthy w.model;
  error = error;
  usage = w.usage;
}

abbrev pub add_result : ConsultPerspectiveResult → Reduction → Reduction
add_result result s = record s { perspectives = s.perspectives ++ result ∷ [] }

-- `coverage.failed++` and `coverage.missing.push`
abbrev pub count_failed : String → ConsultCoverage → ConsultCoverage
count_failed id c = record c { failed = c.failed + 1; missing = c.missing ++ id ∷ [] }

abbrev pub count_completed : ConsultCoverage → ConsultCoverage
count_completed c = record c { completed = c.completed + 1 }

abbrev pub count_rejected : ConsultCoverage → ConsultCoverage
count_rejected c = record c { rejected = c.rejected + 1 }

abbrev pub count_accepted : ConsultCoverage → ConsultCoverage
count_accepted c = record c { accepted = c.accepted + 1 }

abbrev pub add_usage : Option ConsultUsage → ConsultUsage → ConsultUsage
add_usage none total = total
add_usage (some u) total = record { tokens = total.tokens + u.tokens; cost = total.cost + u.cost }

-- What every worker that is found adds, whatever became of it.
abbrev pub count_worker : ConsultWorkerInput → Reduction → Reduction
count_worker w s =
    let c = s.coverage in
    record s {
      coverage = record c { started = c.started + (if is_started w.status then 1 else 0) };
      usage = add_usage w.usage s.usage;
    }

-- Entries that are new go to the end.
unfoldable pub merge_new : List String → List String → List String
merge_new known [] = known
merge_new known (x ∷ xs) = merge_new (if includes x known then known else known ++ x ∷ []) xs

abbrev pub new_recommendation : String → Option String → List ConsultRecommendation
new_recommendation id none = []
new_recommendation id (some r) = record { perspective_id = id; recommendation = r } ∷ []

module _
    (resolve_evidence : ConsultEvidenceCandidate
      → ConsultPerspective
      → Option ValidatedConsultEvidence) where
  abbrev pub add_evidence :
      Option ValidatedConsultEvidence
      → List ValidatedConsultEvidence
      → List ValidatedConsultEvidence
  add_evidence none known = known
  add_evidence (some e) known =
      if any (λ k. k.reference == e.reference) known then known else known ++ e ∷ []

  -- The loop over the evidence of a finding: what is accepted.
  unfoldable pub accept_evidence :
      ConsultPerspective
      → List ValidatedConsultEvidence
      → List ConsultEvidenceCandidate
      → List ValidatedConsultEvidence
  accept_evidence p known [] = known
  accept_evidence p known (c ∷ cs) =
      accept_evidence p (add_evidence (resolve_evidence c p) known) cs

  unfoldable pub count_rejected_evidence : ConsultPerspective → List ConsultEvidenceCandidate → ℕ
  count_rejected_evidence p [] = 0
  count_rejected_evidence p (c ∷ cs) =
      (if is_some (resolve_evidence c p) then 0 else 1) + count_rejected_evidence p cs

  abbrev pub new_finding :
      ConsultPerspective → ParsedFinding → List ValidatedConsultEvidence → List ConsultFinding
  new_finding p finding [] = []
  new_finding p finding (e ∷ es) =
      record {
        perspective_id = p.id;
        summary = finding.summary;
        confidence = finding.confidence;
        evidence = e ∷ es;
      }
      ∷ []

  unfoldable pub accept_findings : ConsultPerspective → List ParsedFinding → List ConsultFinding
  accept_findings p [] = []
  accept_findings p (f ∷ fs) =
      new_finding p f (accept_evidence p [] f.evidence) ++ accept_findings p fs

  unfoldable pub rejected_evidence_of : ConsultPerspective → List ParsedFinding → ℕ
  rejected_evidence_of p [] = 0
  rejected_evidence_of p (f ∷ fs) = count_rejected_evidence p f.evidence + rejected_evidence_of p fs
