-- ===== src/Workflows/Claims.antt =====
-- How often the claims of workflows/durable.ts hand out a phase.
use ultra_fabric.Prelude.{
  ℕ, ◌+◌, ◌≤◌, ◌≡◌, refl, String, Option, none, some, List, [], ◌∷◌, ◌⊎◌, inl, inr, arith, All,
  string_equality, ◌==◌, if◌then◌else◌,
}
use ultra_fabric.Workflows.Weights.{worth_of_claim, worth_of_call, worth_of_calls, weigh, weigh-run}
use ultra_fabric.Workflows.{Phase, Workflow, Error, claim}
use ultra_fabric.Workflows.Attempts.{
  Call, claims, resumes, fails, cancels, completes, step, run, IsLimited, run_from-IsLimited,
}

abbrev pub one_at : String → String → ℕ
one_at k id = if id == k then 1 else 0

-- How often the claims among the calls handed out a phase with the id.
abbrev pub handed_out : String → List (Call × ℕ) → Workflow → ℕ
handed_out k calls w = worth_of_calls (one_at k) calls w

-- The attempts counted by the phases with the id, and the attempts that they allow.
abbrev pub attempts_at : String → List Phase → ℕ
attempts_at k [] = 0
attempts_at k (p ∷ ps) = (if p.id == k then p.attempt else 0) + attempts_at k ps

abbrev pub allowed_at : String → List Phase → ℕ
allowed_at k [] = 0
allowed_at k (p ∷ ps) = (if p.id == k then p.max_attempts else 0) + allowed_at k ps

abbrev attempt_weight : String → String → ℕ → ℕ → ℕ
attempt_weight k id a m = if id == k then a else 0

abbrev allowed_weight : String → String → ℕ → ℕ → ℕ
allowed_weight k id a m = if id == k then m else 0

attempts_at_lem : (k : String) (ps : List Phase) → weigh (attempt_weight k) ps ≡ attempts_at k ps
attempts_at_lem k [] = refl
attempts_at_lem k (p ∷ ps) = omega (arith, attempts_at_lem k ps)

allowed_at_lem : (k : String) (ps : List Phase) → weigh (allowed_weight k) ps ≡ allowed_at k ps
allowed_at_lem k [] = refl
allowed_at_lem k (p ∷ ps) = omega (arith, allowed_at_lem k ps)

worth_nothing : (calls : List (Call × ℕ)) (w : Workflow) → worth_of_calls (λ id. 0) calls w ≡ 0
worth_nothing [] w = refl
worth_nothing ((call, now) ∷ calls) w =
    omega (arith, worth_of_one call now w, worth_nothing calls (step call now w))
  where
    worth_of_one : (c : Call) (t : ℕ) (v : Workflow) → worth_of_call (λ id. 0) c t v ≡ 0
    worth_of_one (claims token input) t v = none_of (claim token input t v)
      where
        none_of : (r : Error ⊎ (Workflow × Option Phase)) → worth_of_claim (λ id. 0) r ≡ 0
        none_of (inl e) = refl
        none_of (inr (x, none)) = refl
        none_of (inr (x, some p)) = refl
    worth_of_one resumes t v = refl
    worth_of_one (fails a b c r) t v = refl
    worth_of_one (cancels r) t v = refl
    worth_of_one (completes a b c r) t v = refl

attempts_at-le :
    (k : String) (ps : List Phase) → All IsLimited ps → attempts_at k ps ≤ allowed_at k ps
attempts_at-le k [] h = omega arith
attempts_at-le k (p ∷ ps) (h, hs) = let ih = attempts_at-le k ps hs in ground (arith, h.0)

-- From phases that are within their limits, whatever calls are made, by any runs in any order and at
-- any times: the claims hand out a phase with a given id as often as the attempts counted by the phases
-- with that id went up, and no more often than these phases allowed at first; and afterwards every phase is
-- within its limit, a phase that may start has an attempt left, and a phase has a lease exactly while
-- it runs.
pub run-IsLimited :
    (k : String) (calls : List (Call × ℕ)) (w : Workflow)
    → All IsLimited w.phases
    → (handed_out k calls w + attempts_at k w.phases ≡ attempts_at k (run calls w).phases)
      × (handed_out k calls w + attempts_at k w.phases ≤ allowed_at k w.phases)
      × All IsLimited (run calls w).phases
run-IsLimited k calls w h =
    let after = (run calls w).phases in
    let limited = run_from-IsLimited calls w h in
    let grown = weigh-run (attempt_weight k) (one_at k) (λ id a m. ground arith) calls w in
    let kept = weigh-run (allowed_weight k) (λ id. 0) (λ id a m. omega arith) calls w in
    let counted : handed_out k calls w + attempts_at k w.phases ≡ attempts_at k after =
      omega (arith, grown, attempts_at_lem k w.phases, attempts_at_lem k after) in
    let within : handed_out k calls w + attempts_at k w.phases ≤ allowed_at k w.phases = omega (
      arith,
      counted,
      kept,
      worth_nothing calls w,
      attempts_at-le k after limited,
      allowed_at_lem k w.phases,
      allowed_at_lem k after,
    ) in
    (counted, within, limited)
