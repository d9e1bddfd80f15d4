-- ===== src/Consult/Grounds.antt =====
-- The evidence behind the findings of consult/reducer.ts.
use ultra_fabric.Prelude.{
  ℕ, ◌≤◌, ◌≡◌, refl, String, Option, none, some, List, [], ◌∷◌, arith, ◌==◌, string_equality,
  if◌then◌else◌, length, any, includes, inl, inr, Bool-cases, All, All-append,
}
use ultra_fabric.Consult.Values.{
  ConsultEvidenceCandidate, ParsedFinding, ParsedWorkerValue, ConsultReductionLimits, is_silent,
  parse_worker_value,
}
use ultra_fabric.Consult.Policy.{ResolvedConsultMode, ConsultPerspective, is_challenge, is_compare}
use ultra_fabric.Consult.Reduce.{
  ValidatedConsultEvidence, ConsultWorkerInput, ConsultFinding, Reduction, empty_reduction,
  is_completed_worker, only_one, matching_workers, collapsed_ids, add_evidence, accept_evidence,
  new_finding, accept_findings,
}
use ultra_fabric.Consult.Perspectives.{
  Host, reduce_findings, reduce_parsed, reduce_found, reduce_perspective, reduce_perspectives,
  reduce_workers,
}

-- The resolver gave the evidence, for the perspective with the id.
abbrev pub IsResolved : Host → String → ValidatedConsultEvidence → Type 0
IsResolved host id e =
    (c : ConsultEvidenceCandidate) × ((p : ConsultPerspective) × (p.id ≡ id)
      × (host.resolve_evidence c p ≡ some e))

abbrev pub IsGrounded : Host → ConsultFinding → Type 0
IsGrounded host f = (1 ≤ length f.evidence) × All (IsResolved host f.perspective_id) f.evidence

module _ (host : Host) where
  add_evidence-IsResolved :
      (id : String) (e : Option ValidatedConsultEvidence) (known : List ValidatedConsultEvidence)
      → ((v : ValidatedConsultEvidence) → e ≡ some v → IsResolved host id v)
      → All (IsResolved host id) known
      → All (IsResolved host id) (add_evidence host.resolve_evidence e known)
  add_evidence-IsResolved id none known g h = h
  add_evidence-IsResolved id (some e) known g h =
      elim (Bool-cases (any (λ k. k.reference == e.reference) known)) [
        | inl q ↦ rw q h
        | inr q ↦ rw q (All-append (IsResolved host id) known (e ∷ []) h (g e refl, tt))
      ]

  accept_evidence-IsResolved :
      (p : ConsultPerspective) (known : List ValidatedConsultEvidence)
      (cs : List ConsultEvidenceCandidate)
      → All (IsResolved host p.id) known
      → All (IsResolved host p.id) (accept_evidence host.resolve_evidence p known cs)
  unfolding accept_evidence
  accept_evidence-IsResolved p known [] h = h
  accept_evidence-IsResolved p known (c ∷ cs) h =
      accept_evidence-IsResolved p
        (add_evidence host.resolve_evidence (host.resolve_evidence c p) known) cs
        (add_evidence-IsResolved p.id (host.resolve_evidence c p) known (λ v e. (c, (p, refl, e)))
          h)

  new_finding-IsGrounded :
      (p : ConsultPerspective) (f : ParsedFinding) (es : List ValidatedConsultEvidence)
      → All (IsResolved host p.id) es
      → All (IsGrounded host) (new_finding host.resolve_evidence p f es)
  new_finding-IsGrounded p f [] h = tt
  new_finding-IsGrounded p f (e ∷ es) h = ((omega arith, h), tt)

  accept_findings-IsGrounded :
      (p : ConsultPerspective) (fs : List ParsedFinding)
      → All (IsGrounded host) (accept_findings host.resolve_evidence p fs)
  unfolding accept_findings
  accept_findings-IsGrounded p [] = tt
  accept_findings-IsGrounded p (f ∷ fs) =
      All-append (IsGrounded host) _ _
        (new_finding-IsGrounded p f _ (accept_evidence-IsResolved p [] f.evidence tt))
        (accept_findings-IsGrounded p fs)

  module _ (limits : ConsultReductionLimits) (mode : ResolvedConsultMode)
      (workers : List ConsultWorkerInput) (collapsed : List String) where
    reduce_findings-IsGrounded :
        (p : ConsultPerspective) (w : ConsultWorkerInput) (v : ParsedWorkerValue)
        (fs : List ConsultFinding) (s : Reduction)
        → All (IsGrounded host) fs
        → All (IsGrounded host) s.findings
        → All
            (IsGrounded host)
            (reduce_findings host limits mode workers collapsed p w v fs s).findings
    reduce_findings-IsGrounded p w v [] s g h = h
    reduce_findings-IsGrounded p w v (f ∷ fs) s g h =
        All-append (IsGrounded host) s.findings (f ∷ fs) h g

    reduce_parsed-IsGrounded :
        (p : ConsultPerspective) (w : ConsultWorkerInput) (v : Option ParsedWorkerValue)
        (s : Reduction)
        → All (IsGrounded host) s.findings
        → All (IsGrounded host) (reduce_parsed host limits mode workers collapsed p w v s).findings
    reduce_parsed-IsGrounded p w none s h = h
    reduce_parsed-IsGrounded p w (some v) s h = elim (Bool-cases (is_silent v.stance)) [
      | inr q ↦
          rw q (reduce_findings-IsGrounded p w v _ s (accept_findings-IsGrounded p v.findings) h)
      | inl q ↦ elim (Bool-cases (is_challenge mode)) [ inl m ↦ rw (q, m) h | inr m ↦ rw (q, m) h ]
    ]

    reduce_found-IsGrounded :
        (p : ConsultPerspective) (k : ℕ) (m : Option ConsultWorkerInput) (s : Reduction)
        → All (IsGrounded host) s.findings
        → All (IsGrounded host) (reduce_found host limits mode workers collapsed p k m s).findings
    reduce_found-IsGrounded p k none s h = h
    reduce_found-IsGrounded p k (some w) s h = elim (Bool-cases (is_completed_worker w.status)) [
      | inr q ↦ rw q h
      | inl q ↦ elim (Bool-cases (includes p.id collapsed)) [
        | inl c ↦ rw (q, c) h
        | inr c ↦ rw (q, c) (reduce_parsed-IsGrounded p w (parse_worker_value limits w.value) _ h)
      ]
    ]

    reduce_perspectives-IsGrounded :
        (ps : List ConsultPerspective) (s : Reduction)
        → All (IsGrounded host) s.findings
        → All
            (IsGrounded host)
            (reduce_perspectives host limits mode workers collapsed ps s).findings
    unfolding reduce_perspectives reduce_perspective
    reduce_perspectives-IsGrounded [] s h = h
    reduce_perspectives-IsGrounded (p ∷ ps) s h =
        reduce_perspectives-IsGrounded ps
          (reduce_found host limits mode workers collapsed p
            (length (matching_workers p.id workers)) (only_one (matching_workers p.id workers)) s)
          (reduce_found-IsGrounded p _ _ s h)

-- Every finding that a consultation reports has evidence, and all its evidence was given by the
-- resolver, for a perspective with the id of the finding's, whatever the workers said.
pub reduce_workers-IsGrounded :
    (host : Host) (limits : ConsultReductionLimits) (mode : ResolvedConsultMode)
    (ps : List ConsultPerspective) (workers : List ConsultWorkerInput)
    → All (IsGrounded host) (reduce_workers host limits mode ps workers).findings
unfolding reduce_workers
reduce_workers-IsGrounded host limits mode ps workers =
    reduce_perspectives-IsGrounded host limits mode workers
      (if is_compare mode then collapsed_ids workers ps else []) ps (empty_reduction (length ps)) tt
