-- ===== src/Consult/Policy.antt =====
-- consult/policy.ts: the admission of a request. Ratios are counted in parts of `one`.
use ultra_fabric.Prelude.{
  ℕ, ◌≤◌, ◌≡◌, String, Bool, true, false, ◌&&◌, ◌||◌, not, Option, none, some, List, [], ◌∷◌, arith,
  max, min, ltb, ◌==◌, string_equality, if◌then◌else◌, or_default, length, any, all, truthy, joined,
  Bool-cases, inl, inr, subst, sym,
}
use ultra_fabric.Consult.Values.{JsonValue}
use ultra_fabric.Consult.Request.{parse_request}
pub use ultra_fabric.Consult.Request.{
  ConsultMode, ConsultJustification, context_capacity, independent_verification,
  structural_diversity, ConsultPerspective, ConsultRequest,
}

pub data ResolvedConsultMode : Type 0 where
  partition challenge compare : ResolvedConsultMode

pub record ConsultContextSnapshot : Type 0 where
  pub tokens : Option ℕ
  pub context_window : ℕ
  pub ratio : Option ℕ

pub record ConsultPolicyLimits : Type 0 where
  pub enabled : Bool
  pub max_workers : ℕ
  pub context_pressure_threshold : ℕ
  -- What the ratio 1 is in the parts that ratios are counted in.
  pub one : ℕ

pub data ConsultAdmissionCode : Type 0 where
  disabled invalid_request worker_limit insufficient_perspectives : ConsultAdmissionCode
  challenge_requires_proposal overlapping_scope insufficient_diversity : ConsultAdmissionCode
  context_not_pressured : ConsultAdmissionCode

pub data ConsultAdmissionDecision : Type 0 where
  admitted :
      ResolvedConsultMode → ConsultRequest → ConsultContextSnapshot → ConsultAdmissionDecision
  not_admitted : ConsultAdmissionCode → ConsultContextSnapshot → ConsultAdmissionDecision

-- `text.startsWith(start)`
unfoldable pub starts_with : String → String → Bool
starts_with String.[] text = true
starts_with (String.◌∷◌ c start) String.[] = false
starts_with (String.◌∷◌ c start) (String.◌∷◌ d text) =
    String.◌∷◌ c String.[] == String.◌∷◌ d String.[] && starts_with start text

unfoldable pub paths_overlap : String → String → Bool
paths_overlap left right =
    left == right || starts_with (joined right "/") left || starts_with (joined left "/") right

unfoldable pub declared_scopes_overlap : ConsultPerspective → ConsultPerspective → Bool
declared_scopes_overlap left right = any (λ l. any (λ r. paths_overlap l r) right.scope) left.scope

abbrev pub is_unscoped : ConsultPerspective → Bool
is_unscoped p = elim p.scope [ [] ↦ true | x ∷ xs ↦ false ]

unfoldable pub perspectives_overlap : ConsultPerspective → ConsultPerspective → Bool
perspectives_overlap left right =
    is_unscoped left || is_unscoped right || declared_scopes_overlap left right

unfoldable pub has_overlapping_perspectives : List ConsultPerspective → Bool
has_overlapping_perspectives [] = false
has_overlapping_perspectives (left ∷ rest) =
    any (λ right. declared_scopes_overlap left right) rest || has_overlapping_perspectives rest

abbrev pub resolve_mode : ConsultMode → ConsultJustification → ResolvedConsultMode
resolve_mode ConsultMode.partition j = partition
resolve_mode ConsultMode.challenge j = challenge
resolve_mode ConsultMode.compare j = compare
resolve_mode ConsultMode.auto independent_verification = challenge
resolve_mode ConsultMode.auto structural_diversity = compare
resolve_mode ConsultMode.auto context_capacity = partition

abbrev pub is_challenge : ResolvedConsultMode → Bool
is_challenge challenge = true
is_challenge _ = false

abbrev pub is_partition : ResolvedConsultMode → Bool
is_partition partition = true
is_partition _ = false

abbrev pub is_compare : ResolvedConsultMode → Bool
is_compare compare = true
is_compare _ = false

abbrev pub needs_capacity : ConsultJustification → Bool
needs_capacity context_capacity = true
needs_capacity _ = false

abbrev pub has_distinct_models : Option String → Option String → Bool
has_distinct_models (some left) (some right) =
    truthy (some left) && truthy (some right) && not (left == right)
has_distinct_models _ _ = false

abbrev pub is_diverse : ConsultPerspective → ConsultPerspective → Bool
is_diverse left right =
    not (perspectives_overlap left right) || has_distinct_models left.model right.model

unfoldable pub is_pairwise_distinct : List ConsultPerspective → Bool
is_pairwise_distinct [] = true
is_pairwise_distinct (left ∷ rest) =
    all (λ right. is_diverse left right) rest && is_pairwise_distinct rest

-- `admitConsult` after the mode is resolved.
unfoldable pub admit_mode :
    ConsultPolicyLimits
    → ConsultContextSnapshot
    → ConsultRequest
    → ResolvedConsultMode
    → ConsultAdmissionDecision
admit_mode limits context request mode =
    let workers = length request.perspectives in
    let max_workers = max 1 limits.max_workers in
    let overlap = has_overlapping_perspectives request.perspectives in
    let is_mixed =
      any (λ p. is_unscoped p) request.perspectives
      && any (λ p. not (is_unscoped p)) request.perspectives in
    let threshold = max 0 (min limits.one limits.context_pressure_threshold) in
    let is_structured =
      is_partition mode && all (λ p. not (is_unscoped p)) request.perspectives && not overlap in
    if ltb workers (if is_challenge mode then 1 else 2)
      || ltb (if is_challenge mode then 1 else max_workers) workers
    then not_admitted insufficient_perspectives context
    else if is_challenge mode && not (truthy request.proposal)
    then not_admitted challenge_requires_proposal context
    else if is_partition mode && (overlap || is_mixed)
    then not_admitted overlapping_scope context
    else if is_compare mode && not (is_pairwise_distinct request.perspectives)
    then not_admitted insufficient_diversity context
    else if needs_capacity request.justification
        && ltb (or_default context.ratio 0) threshold
        && not is_structured
    then not_admitted context_not_pressured context
    else admitted mode request context

abbrev pub admit_parsed :
    ConsultPolicyLimits → ConsultContextSnapshot → Option ConsultRequest → ConsultAdmissionDecision
admit_parsed limits context none = not_admitted invalid_request context
admit_parsed limits context (some request) =
    if ltb (max 1 limits.max_workers) (length request.perspectives)
    then not_admitted worker_limit context
    else admit_mode limits context request (resolve_mode request.mode request.justification)

-- `admitConsult`, with the normalised context.
unfoldable pub admit_consult :
    JsonValue → ConsultContextSnapshot → ConsultPolicyLimits → ConsultAdmissionDecision
admit_consult input context limits =
    if not limits.enabled
    then not_admitted disabled context
    else admit_parsed limits context (parse_request input)

-- What the workers of a mode are given to do.
abbrev pub IsIndependent : ResolvedConsultMode → ConsultRequest → Type 0
IsIndependent challenge r = (length r.perspectives ≡ 1) × (truthy r.proposal ≡ true)
IsIndependent partition r =
    (2 ≤ length r.perspectives) × (has_overlapping_perspectives r.perspectives ≡ false)
IsIndependent compare r = (2 ≤ length r.perspectives) × (is_pairwise_distinct r.perspectives ≡ true)

admit_mode_lem :
    (limits : ConsultPolicyLimits) (c d : ConsultContextSnapshot) (request r : ConsultRequest)
    (mode m : ResolvedConsultMode)
    → admit_mode limits c request mode ≡ admitted m r d
    → (r ≡ request) × (m ≡ mode) × IsIndependent mode request
unfolding admit_mode
admit_mode_lem limits c d request r challenge m h = ground arith
admit_mode_lem limits c d request r partition m h = ground arith
admit_mode_lem limits c d request r compare m h = ground arith

admit_parsed_lem :
    (limits : ConsultPolicyLimits) (c d : ConsultContextSnapshot) (parsed : Option ConsultRequest)
    (r : ConsultRequest) (m : ResolvedConsultMode)
    → admit_parsed limits c parsed ≡ admitted m r d
    → (parsed ≡ some r)
      × (length r.perspectives ≤ max 1 limits.max_workers)
      × (m ≡ resolve_mode r.mode r.justification)
      × IsIndependent m r
admit_parsed_lem limits c d none r m h = absurd (ground arith)
admit_parsed_lem limits c d (some request) r m h =
    elim (Bool-cases (ltb (max 1 limits.max_workers) (length request.perspectives))) [
      | inl q ↦ absurd (ground arith)
      | inr q ↦
          let (same, mode, fit) =
            admit_mode_lem limits c d request r (resolve_mode request.mode request.justification) m
              (ground arith) in
          (
            ground arith,
            ground arith,
            ground arith,
            subst (IsIndependent m) (sym same)
                (subst (λ n. IsIndependent n request) (sym mode) fit),
          )
    ]

-- A consultation is admitted only when consultations are enabled, with at most the allowed workers and
-- the mode that its request asks for; a challenge has one worker and a proposal, and in the other modes
-- there are two workers or more, in a partition none of which are scoped to overlapping paths, and in a
-- comparison any two of which have scopes apart or distinct models.
admit_consult-IsIndependent :
    (limits : ConsultPolicyLimits) (c d : ConsultContextSnapshot) (input : JsonValue)
    (r : ConsultRequest) (m : ResolvedConsultMode)
    → admit_consult input c limits ≡ admitted m r d
    → (limits.enabled ≡ true)
      × (parse_request input ≡ some r)
      × (length r.perspectives ≤ max 1 limits.max_workers)
      × (m ≡ resolve_mode r.mode r.justification)
      × IsIndependent m r
unfolding admit_consult
admit_consult-IsIndependent limits c d input r m h = elim (Bool-cases limits.enabled) [
  | inr off ↦ absurd (ground arith)
  | inl on ↦
      let (same, few, mode, fit) =
        admit_parsed_lem limits c d (parse_request input) r m (ground arith) in
      (on, same, few, mode, fit)
]
