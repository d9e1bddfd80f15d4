-- ===== src/Consult/Perspectives.antt =====
-- consult/reducer.ts: the loop of `reduceConsult` over the perspectives, and its result.
use Prim.Native.Char.{code}
use ultra_fabric.Prelude.{
  ℕ, String, Bool, true, ◌&&◌, not, Option, none, some, List, [], ◌∷◌, ◌++◌, ltb, nat_equality,
  string_equality, if◌then◌else◌, length, includes, is_space, joined,
}
use ultra_fabric.Consult.Values.{
  text, is_silent, ConsultEvidenceCandidate, ParsedWorkerValue, ConsultReductionLimits,
  parse_worker_value, bounded_text,
}
use ultra_fabric.Consult.Policy.{ResolvedConsultMode, is_challenge, is_compare, ConsultPerspective}
use ultra_fabric.Consult.Reduce.{
  not_started, ConsultWorkerInput, ValidatedConsultEvidence, ConsultFinding, PerspectiveStatus,
  of_worker, accepted, rejected, ConsultPerspectiveResult, Reduction, empty_reduction,
  is_completed_worker, only_one, matching_workers, collapsed_ids, result_of, add_result,
  count_failed, count_completed, count_rejected, count_accepted, count_worker, merge_new,
  new_recommendation, accept_findings, rejected_evidence_of,
}

-- The resolver of evidence, and what JavaScript makes of a text by `normalize("NFKC")` and
-- `toLowerCase()`.
pub record Host : Type 0 where
  pub resolve_evidence :
      ConsultEvidenceCandidate → ConsultPerspective → Option ValidatedConsultEvidence
  pub nfkc : String → String
  pub to_lower_case : String → String

-- `replace(/\s+/g, " ")`; the first argument says whether a space came just before.
unfoldable pub collapse_spaces : Bool → String → String
collapse_spaces after String.[] = String.[]
collapse_spaces after (String.◌∷◌ c s) =
    let rest = collapse_spaces (is_space (code c)) s in
    if not (is_space (code c)) then String.◌∷◌ c rest else if after then rest else joined " " rest

abbrev pub worker_error_text : Option String → Option String
worker_error_text none = none
worker_error_text (some s) = bounded_text 2_048 (some (text s))

module _ (host : Host) (limits : ConsultReductionLimits) (mode : ResolvedConsultMode)
    (workers : List ConsultWorkerInput) (collapsed : List String) where
  abbrev pub reject : ConsultPerspectiveResult → Reduction → Reduction
  reject result s = add_result result (record s { coverage = count_rejected s.coverage })

  -- What follows once the findings of a worker are known.
  abbrev pub reduce_findings :
      ConsultPerspective
      → ConsultWorkerInput
      → ParsedWorkerValue
      → List ConsultFinding
      → Reduction
      → Reduction
  reduce_findings p w parsed [] s =
      reject
        (record (result_of p.id rejected (some "no finding resolved to host evidence") (some w)) {
          stance = some parsed.stance;
          rejected_evidence = rejected_evidence_of host.resolve_evidence p parsed.findings;
        })
        s
  reduce_findings p w parsed (f ∷ fs) s =
      add_result
        (record (result_of p.id accepted none (some w)) {
          stance = some parsed.stance;
          accepted_findings = length (f ∷ fs);
          rejected_evidence = rejected_evidence_of host.resolve_evidence p parsed.findings;
        })
        (record s {
          coverage = count_accepted s.coverage;
          findings = s.findings ++ f ∷ fs;
          recommendations = s.recommendations ++ new_recommendation p.id parsed.recommendation;
          risks = merge_new s.risks parsed.risks;
          uncertainty = merge_new s.uncertainty parsed.uncertainty;
        })

  abbrev pub reduce_parsed :
      ConsultPerspective → ConsultWorkerInput → Option ParsedWorkerValue → Reduction → Reduction
  reduce_parsed p w none s =
      reject
        (result_of p.id rejected (some "malformed or mode-incompatible worker result") (some w)) s
  reduce_parsed p w (some parsed) s =
      if is_silent parsed.stance && not (is_challenge mode)
      then reject
          (result_of p.id rejected (some "malformed or mode-incompatible worker result") (some w)) s
      else if is_silent parsed.stance
      then add_result
          (record (result_of p.id PerspectiveStatus.silent none (some w)) {
            stance = some parsed.stance;
          })
          (record s { coverage = count_accepted s.coverage; silent = true })
      else reduce_findings p w parsed (accept_findings host.resolve_evidence p parsed.findings) s

  abbrev pub reduce_worker : ConsultPerspective → ConsultWorkerInput → Reduction → Reduction
  reduce_worker p w s =
      if is_completed_worker w.status && includes p.id collapsed
      then reject
          (result_of p.id rejected (some "resolved Compare model diversity collapsed") (some w))
          (record s { coverage = count_completed s.coverage })
      else if not (is_completed_worker w.status)
      then add_result (result_of p.id (of_worker w.status) (worker_error_text w.error) (some w))
          (record s { coverage = count_failed p.id s.coverage })
      else reduce_parsed p w (parse_worker_value limits w.value)
          (record s { coverage = count_completed s.coverage })

  abbrev pub reduce_found :
      ConsultPerspective → (matching : ℕ) → Option ConsultWorkerInput → Reduction → Reduction
  reduce_found p matching none s =
      let error = if ltb 1 matching then "duplicate worker result" else "missing worker result" in
      add_result (result_of p.id (of_worker not_started) (some error) none)
        (record s { coverage = count_failed p.id s.coverage })
  reduce_found p matching (some w) s = reduce_worker p w (count_worker w s)

  unfoldable pub reduce_perspective : ConsultPerspective → Reduction → Reduction
  reduce_perspective p s =
      let matching = matching_workers p.id workers in
      reduce_found p (length matching) (only_one matching) s

  unfoldable pub reduce_perspectives : List ConsultPerspective → Reduction → Reduction
  reduce_perspectives [] s = s
  reduce_perspectives (p ∷ ps) s = reduce_perspectives ps (reduce_perspective p s)

unfoldable pub reduce_workers :
    Host
    → ConsultReductionLimits
    → ResolvedConsultMode
    → List ConsultPerspective
    → List ConsultWorkerInput
    → Reduction
reduce_workers host limits mode perspectives workers =
    reduce_perspectives host limits mode workers
      (if is_compare mode then collapsed_ids workers perspectives else []) perspectives
      (empty_reduction (length perspectives))
