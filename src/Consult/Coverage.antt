-- ===== src/Consult/Coverage.antt =====
-- The counts that consult/reducer.ts keeps.
use ultra_fabric.Prelude.{
  ℕ, ◌+◌, ◌≤◌, ◌≡◌, refl, sym, ap, ◌∙◌, subst, String, true, Option, none, some, List, [], ◌∷◌,
  ◌++◌, arith, nat_equality, if◌then◌else◌, length, length-append, map, includes, inl, inr,
  Bool-cases, append-nil, append_assoc,
}
use ultra_fabric.Consult.Values.{
  ParsedWorkerValue, ConsultReductionLimits, is_silent, parse_worker_value,
}
use ultra_fabric.Consult.Policy.{ResolvedConsultMode, ConsultPerspective, is_challenge, is_compare}
use ultra_fabric.Consult.Reduce.{
  ConsultWorkerInput, ConsultFinding, Reduction, empty_reduction, is_completed_worker,
  ConsultWorkerStatus, completed, failed, stopped, timed_out, budget_exhausted, not_started,
  ConsultPerspectiveResult, only_one, matching_workers, collapsed_ids, count_worker, is_started,
}
use ultra_fabric.Consult.Perspectives.{
  Host, reduce_findings, reduce_parsed, reduce_worker, reduce_found, reduce_perspective,
  reduce_perspectives, reduce_workers,
}

-- The counts after a number of perspectives.
abbrev pub Tallies : ℕ → Reduction → Type 0
Tallies done s =
    (s.coverage.completed ≡ s.coverage.accepted + s.coverage.rejected)
    × (s.coverage.completed + s.coverage.failed ≡ done)
    × (length s.coverage.missing ≡ s.coverage.failed)
    × (s.coverage.completed ≤ s.coverage.started)
    × (s.coverage.started ≤ done)

-- One of the completed workers is not yet accepted or rejected.
abbrev IsOpen : ℕ → Reduction → Type 0
IsOpen done s =
    (s.coverage.completed ≡ s.coverage.accepted + s.coverage.rejected + 1)
    × (s.coverage.completed + s.coverage.failed ≡ done)
    × (length s.coverage.missing ≡ s.coverage.failed)
    × (s.coverage.completed ≤ s.coverage.started)
    × (s.coverage.started ≤ done)

abbrev pub result_ids : List ConsultPerspectiveResult → List String
result_ids rs = map (λ r. r.perspective_id) rs

abbrev pub perspective_ids : List ConsultPerspective → List String
perspective_ids ps = map (λ p. p.id) ps

result_ids-append_one :
    (rs : List ConsultPerspectiveResult) (r : ConsultPerspectiveResult)
    → result_ids (rs ++ r ∷ []) ≡ result_ids rs ++ r.perspective_id ∷ []
result_ids-append_one [] r = refl
result_ids-append_one (x ∷ rs) r = ap (λ ids. x.perspective_id ∷ ids) (result_ids-append_one rs r)

-- The reduction got a result for the perspective, and its counts go on.
abbrev Adds : ConsultPerspective → ℕ → Reduction → Reduction → Type 0
Adds p done s t =
    Tallies done t
    × ((r : ConsultPerspectiveResult) × (r.perspective_id ≡ p.id)
        × (t.perspectives ≡ s.perspectives ++ r ∷ [])
        × (t.coverage.requested ≡ s.coverage.requested))

completed_is_started :
    (w : ConsultWorkerStatus) → is_completed_worker w ≡ true → is_started w ≡ true
completed_is_started completed h = refl
completed_is_started failed h = refl
completed_is_started stopped h = refl
completed_is_started timed_out h = refl
completed_is_started budget_exhausted h = refl
completed_is_started not_started h = absurd (cc h)

module _ (host : Host) (limits : ConsultReductionLimits) (mode : ResolvedConsultMode)
    (workers : List ConsultWorkerInput) (collapsed : List String) where
  reduce_findings-Adds :
      (p : ConsultPerspective) (w : ConsultWorkerInput) (v : ParsedWorkerValue)
      (fs : List ConsultFinding) (s : Reduction) (n : ℕ)
      → IsOpen n s
      → Adds p n s (reduce_findings host limits mode workers collapsed p w v fs s)
  reduce_findings-Adds p w v [] s n (a, b, c, d, e) =
      ((omega (arith, a), b, c, d, e), (_, refl, refl, refl))
  reduce_findings-Adds p w v (f ∷ fs) s n (a, b, c, d, e) =
      ((omega (arith, a), b, c, d, e), (_, refl, refl, refl))

  reduce_parsed-Adds :
      (p : ConsultPerspective) (w : ConsultWorkerInput) (v : Option ParsedWorkerValue)
      (s : Reduction) (n : ℕ)
      → IsOpen n s
      → Adds p n s (reduce_parsed host limits mode workers collapsed p w v s)
  reduce_parsed-Adds p w none s n (a, b, c, d, e) =
      ((omega (arith, a), b, c, d, e), (_, refl, refl, refl))
  reduce_parsed-Adds p w (some v) s n (a, b, c, d, e) = elim (Bool-cases (is_silent v.stance)) [
    | inr q ↦ rw q (reduce_findings-Adds p w v _ s n (a, b, c, d, e))
    | inl q ↦ elim (Bool-cases (is_challenge mode)) [
      | inl m ↦ rw (q, m) ((omega (arith, a), b, c, d, e), (_, refl, refl, refl))
      | inr m ↦ rw (q, m) ((omega (arith, a), b, c, d, e), (_, refl, refl, refl))
    ]
  ]

  reduce_worker-Adds :
      (p : ConsultPerspective) (w : ConsultWorkerInput) (s : Reduction) (n : ℕ)
      → Tallies n s
      → Adds p (n + 1) s (reduce_worker host limits mode workers collapsed p w (count_worker w s))
  reduce_worker-Adds p w s n (a, b, c, d, e) = elim (Bool-cases (is_completed_worker w.status)) [
    | inr q ↦ rw q (
      (
        a,
        omega (arith, b),
        ground (arith, length-append s.coverage.missing (p.id ∷ [])),
        ground arith,
        ground arith,
      ),
      (_, refl, refl, refl),
    )
    | inl q ↦
        let begun : is_started w.status ≡ true = completed_is_started w.status q in
        elim (Bool-cases (includes p.id collapsed)) [
          | inl k ↦
              rw (q, k)
                (
                  (omega (arith, a), omega (arith, b), c, ground arith, ground arith),
                  (_, refl, refl, refl),
                )
          | inr k ↦
              rw (q, k)
                (reduce_parsed-Adds p w (parse_worker_value limits w.value) _ (n + 1)
                  (omega (arith, a), omega (arith, b), c, ground arith, ground arith))
        ]
  ]

  reduce_found-Adds :
      (p : ConsultPerspective) (k : ℕ) (m : Option ConsultWorkerInput) (s : Reduction) (n : ℕ)
      → Tallies n s
      → Adds p (n + 1) s (reduce_found host limits mode workers collapsed p k m s)
  reduce_found-Adds p k none s n (a, b, c, d, e) = (
    (
      a,
      omega (arith, b),
      ground (arith, length-append s.coverage.missing (p.id ∷ [])),
      d,
      omega (arith, e),
    ),
    (_, refl, refl, refl),
  )
  reduce_found-Adds p k (some w) s n h = reduce_worker-Adds p w s n h

  reduce_perspectives-Tallies :
      (ps : List ConsultPerspective) (s : Reduction) (n : ℕ)
      → Tallies n s
      → let t = reduce_perspectives host limits mode workers collapsed ps s in
        Tallies (n + length ps) t
        × (result_ids t.perspectives ≡ result_ids s.perspectives ++ perspective_ids ps)
        × (t.coverage.requested ≡ s.coverage.requested)
  unfolding reduce_perspectives reduce_perspective
  reduce_perspectives-Tallies [] s n h =
      (subst (λ k. Tallies k s) (omega arith) h, sym (append-nil (result_ids s.perspectives)), refl)
  reduce_perspectives-Tallies (p ∷ ps) s n h =
      let matching = matching_workers p.id workers in
      let t =
        reduce_found host limits mode workers collapsed p (length matching) (only_one matching) s in
      let (now, (r, own, grown, same)) =
        reduce_found-Adds p (length matching) (only_one matching) s n h in
      let (later, ids, kept) = reduce_perspectives-Tallies ps t (n + 1) now in
      (
        subst (λ k. Tallies k (reduce_perspectives host limits mode workers collapsed ps t))
            (omega arith) later,
        ids
            ∙ ap (λ x. x ++ perspective_ids ps)
                (ap result_ids grown
                  ∙ result_ids-append_one s.perspectives r
                  ∙ ap (λ id. result_ids s.perspectives ++ id ∷ []) own)
            ∙ append_assoc (result_ids s.perspectives) (p.id ∷ []) (perspective_ids ps),
        kept ∙ same,
      )

-- Every perspective of a consultation has one result, in their order, and is counted as accepted,
-- rejected or failed; the completed ones are those accepted or rejected, and the missing ones those that
-- failed; and no more workers are counted as started than there are perspectives.
reduce_workers-Tallies :
    (host : Host) (limits : ConsultReductionLimits) (mode : ResolvedConsultMode)
    (ps : List ConsultPerspective) (workers : List ConsultWorkerInput)
    → let s = reduce_workers host limits mode ps workers in
      Tallies (length ps) s
      × (result_ids s.perspectives ≡ perspective_ids ps)
      × (s.coverage.requested ≡ length ps)
unfolding reduce_workers
reduce_workers-Tallies host limits mode ps workers =
    let (counts, ids, requested) =
      reduce_perspectives-Tallies host limits mode workers
        (if is_compare mode then collapsed_ids workers ps else []) ps (empty_reduction (length ps))
        0 (refl, refl, refl, omega arith, omega arith) in
    (
      subst (λ k. Tallies k (reduce_workers host limits mode ps workers)) (omega arith) counts,
      ids,
      requested,
    )
