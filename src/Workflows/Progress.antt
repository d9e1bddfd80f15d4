-- ===== src/Workflows/Progress.antt =====
-- No workflow of workflows/durable.ts gets stuck: while it is not over, a phase is running or can be
-- claimed.
use ultra_fabric.Prelude.{
  ℕ, ◌≡◌, refl, sym, ap, ◌∙◌, subst, String, Bool, true, false, ◌&&◌, ◌||◌, not, none, some, List,
  [], ◌∷◌, inl, inr, arith, find, if◌then◌else◌, any, all, includes, Bool-cases, ◌==◌,
  string_equality, eq_iff, All, Distinct, is_some,
}
use ultra_fabric.Workflows.{
  Phase, Workflow, Claim, PhaseStatus, pending, ready, running, completed, failed, cancelled,
  is_ready, is_running, is_pending, is_completed, is_failed, completed_ids, is_asked,
  release_expired_leases, refresh, refreshed_status, claim_update,
}
use ultra_fabric.Workflows.Status
use ultra_fabric.Workflows.Status.{WorkflowStatus, is_over, is_cancelled}
use ultra_fabric.Workflows.Dependencies.{all_done}
use ultra_fabric.Workflows.Definition.{
  WorkflowDefinition, Digests, deps_of, is_none, normalized_definition,
}
use ultra_fabric.Workflows.Attempts.{Call, run}
use ultra_fabric.Workflows.Cycles.{IsOrder}
use ultra_fabric.Workflows.Acyclic.{ids_of, HasPlan, IsNew, normalized_definition-IsAccepted}
use ultra_fabric.Workflows.Shape.{HasPlan-shape, shape-run, shape-release_expired_leases}
use ultra_fabric.Workflows.Held.{
  IsHeld, IsLive, is_called_off, run-IsLive, release_expired_leases-IsLive, refresh-is_cancelled,
}

-- A phase is not done only if it is pending.
abbrev is_idle : Phase → Bool
is_idle p = is_pending p.status || is_completed p.status

-- The phases with the id are completed.
abbrev IsDone : String → Phase → Type 0
IsDone id p = p.id ≡ id → is_completed p.status ≡ true

completed_ids-IsDone :
    (id : String) (ps : List Phase)
    → includes id (ids_of ps) ≡ true
    → All (IsDone id) ps
    → includes id (completed_ids ps) ≡ true
unfolding includes
completed_ids-IsDone id [] i h = i
completed_ids-IsDone id (p ∷ ps) i (h, hs) = elim (Bool-cases (p.id == id)) [
  | inl e ↦ rw (h (ground (arith, eq_iff p.id id))) (ground arith)
  | inr e ↦ elim (Bool-cases (is_completed p.status)) [
    | inl c ↦ rw c (ground (arith, completed_ids-IsDone id ps (ground arith) hs))
    | inr c ↦ rw c (completed_ids-IsDone id ps (ground arith) hs)
  ]
]

deps_of_other :
    (p : Phase) (ps qs : List Phase)
    → includes p.id (ids_of qs) ≡ false
    → All (λ q. deps_of ps q.id ≡ q.deps) qs
    → All (λ q. deps_of (p ∷ ps) q.id ≡ q.deps) qs
unfolding deps_of includes
deps_of_other p ps [] n h = tt
deps_of_other p ps (q ∷ qs) n (h, hs) =
    (ground (arith, eq_iff p.id q.id, eq_iff q.id p.id), deps_of_other p ps qs (ground arith) hs)

-- Each phase has the dependencies that are found under its id.
deps_of_own : (ps : List Phase) → Distinct (ids_of ps) → All (λ p. deps_of ps p.id ≡ p.deps) ps
unfolding deps_of
deps_of_own [] d = tt
deps_of_own (p ∷ ps) (new, d) =
    (ground (arith, eq_iff p.id p.id), deps_of_other p ps ps new (deps_of_own ps d))

all_done_both :
    (deps xs ids done : List String)
    → ((k : String) → includes k xs ≡ true → includes k ids ≡ true → includes k done ≡ true)
    → all_done deps xs ≡ true
    → all_done deps ids ≡ true
    → all_done deps done ≡ true
all_done_both [] xs ids done f a b = refl
all_done_both (d ∷ deps) xs ids done f a b = ground (arith, f d, all_done_both deps xs ids done f)

-- A phase whose dependencies are completed does not wait.
IsDone-IsHeld :
    (deps : String → List String) (done : List String) (x : String) (ps : List Phase)
    → all_done (deps x) done ≡ true
    → All (λ p. deps p.id ≡ p.deps) ps
    → All (IsHeld done) ps
    → All (λ p. is_idle p ≡ true) ps
    → All (IsDone x) ps
IsDone-IsHeld deps done x [] a o h q = tt
IsDone-IsHeld deps done x (p ∷ ps) a (o, os) ((h, _), hs) (q, qs) = (
  λ same. let all_in : all_done p.deps done ≡ true = rw (← o, same) a in ground arith,
  IsDone-IsHeld deps done x ps a os hs qs,
)

all_completed :
    (order : List String) (ps : List Phase)
    → ((k : String) → includes k order ≡ true → All (IsDone k) ps)
    → all_done (ids_of ps) order ≡ true
    → all (λ p. is_completed p.status) ps ≡ true
all_completed order [] f c = refl
all_completed order (p ∷ ps) f c =
    ground (arith, (f p.id (ground arith)).0 refl, all_completed order ps (λ k i. (f k i).1))

module _ (ps : List Phase) (plan : HasPlan (ids_of ps) (deps_of ps))
    (held : All (IsHeld (completed_ids ps)) ps) (idle : All (λ p. is_idle p ≡ true) ps) where
  -- Along the order, every phase is completed.
  order_completed :
      (xs : List String)
      → IsOrder (deps_of ps) xs
      → (k : String) → includes k xs ≡ true
      → All (IsDone k) ps
  unfolding includes
  order_completed [] o k i = absurd (ground arith)
  order_completed (x ∷ xs) (deps_before, o) k i = elim (Bool-cases (x == k)) [
    | inr other ↦ order_completed xs o k (ground arith)
    | inl e ↦
        let same : x ≡ k = ground (arith, eq_iff x k) in
        let deps_done : all_done (deps_of ps x) (completed_ids ps) ≡ true =
          all_done_both (deps_of ps x) xs (ids_of ps) (completed_ids ps)
            (λ d in_order in_ids.
              completed_ids-IsDone d ps in_ids (order_completed xs o d in_order))
            deps_before (plan.known x) in
        subst (λ y. All (IsDone y) ps) same
          (IsDone-IsHeld (deps_of ps) (completed_ids ps) x ps deps_done
            (deps_of_own ps plan.distinct) held idle)
  ]

  idle_completed : all (λ p. is_completed p.status) ps ≡ true
  idle_completed =
      all_completed plan.order ps (order_completed plan.order plan.sorted) plan.complete

idle_status :
    (s : PhaseStatus)
    → (is_ready s
        || is_running s
        || is_failed s
        || is_called_off s
        || (is_pending s || is_completed s))
      ≡ true
idle_status pending = refl
idle_status ready = refl
idle_status running = refl
idle_status completed = refl
idle_status failed = refl
idle_status cancelled = refl

All-idle :
    (done : List String) (ps : List Phase)
    → any (λ p. is_ready p.status) ps ≡ false
    → any (λ p. is_running p.status) ps ≡ false
    → any (λ p. is_failed p.status) ps ≡ false
    → All (IsHeld done) ps
    → All (λ p. is_idle p ≡ true) ps
All-idle done [] r n f h = tt
All-idle done (p ∷ ps) r n f ((_, off), hs) = (
  ground (arith, idle_status p.status),
  All-idle done ps (ground arith) (ground arith) (ground arith) hs,
)

cancelled_over : (s : WorkflowStatus) → (not (is_cancelled s) || is_over s) ≡ true
cancelled_over Status.queued = refl
cancelled_over Status.running = refl
cancelled_over Status.completed = refl
cancelled_over Status.partial = refl
cancelled_over Status.failed = refl
cancelled_over Status.cancelled = refl

open_tests :
    (s : WorkflowStatus) (off all_done some_failed some_done some_running : Bool)
    → is_cancelled s ≡ off
    → is_over (
        if off
        then s
        else if all_done
        then Status.completed
        else if some_failed
        then if some_done then Status.partial else Status.failed
        else if some_running
        then Status.running
        else Status.queued)
      ≡ false
    → (off ≡ false) × (all_done ≡ false) × (some_failed ≡ false)
open_tests s true a f d r c h = absurd (ground (arith, cancelled_over s))
open_tests s false true f d r c h = absurd (ground arith)
open_tests s false false true true r c h = absurd (ground arith)
open_tests s false false true false r c h = absurd (ground arith)
open_tests s false false false d r c h = (refl, refl, refl)

find_ready :
    (ps : List Phase)
    → any (λ p. is_ready p.status) ps ≡ true
    → (p : Phase) × (find (is_asked none) ps ≡ some p) × (is_ready p.status ≡ true)
find_ready [] h = absurd (ground arith)
find_ready (p ∷ ps) h = elim (Bool-cases (is_ready p.status)) [
  | inl e ↦ (p, rw e refl, e)
  | inr e ↦ let (q, found, r) = find_ready ps (ground arith) in (q, rw e found, r)
]

ready_or_running :
    (w : Workflow) (now : ℕ)
    → HasPlan (ids_of w.phases) (deps_of w.phases)
    → IsLive w
    → is_over (release_expired_leases w now).status ≡ false
    → any (λ p. is_running p.status) (release_expired_leases w now).phases ≡ false
    → any (λ p. is_ready p.status) (release_expired_leases w now).phases ≡ true
unfolding release_expired_leases refresh refreshed_status
ready_or_running w now plan live open_still quiet =
    let released = release_expired_leases w now in
    let (not_off, unfinished, none_failed) =
      open_tests w.status (is_cancelled w.status) (all (λ p. is_completed p.status) released.phases)
        (any (λ p. is_failed p.status) released.phases)
        (any (λ p. is_completed p.status) released.phases)
        (any (λ p. is_running p.status) released.phases) refl open_still in
    let held = release_expired_leases-IsLive w now live (refresh-is_cancelled w _ ∙ not_off) in
    let kept =
      HasPlan-shape w.phases released.phases (sym (shape-release_expired_leases w now)) plan in
    elim (Bool-cases (any (λ p. is_ready p.status) released.phases)) [
      | inl found ↦ found
      | inr unready ↦
          let finished = idle_completed released.phases kept held (
            All-idle (completed_ids released.phases) released.phases unready quiet none_failed
              held) in
          absurd (ground arith)
    ]

all_done_none : (deps : List String) → is_none deps ≡ false → all_done deps [] ≡ false
unfolding includes
all_done_none [] h = absurd (ground arith)
all_done_none (d ∷ deps) h = refl

new_status :
    (p : Phase)
    → IsNew p
    → (is_completed p.status ≡ false)
      × ((is_pending p.status && all_done p.deps []) ≡ false)
      × (is_called_off p.status ≡ false)
new_status p (s, _, _, _) = elim (Bool-cases (is_none p.deps)) [
  | inl e ↦
      let free : p.status ≡ ready = s ∙ rw e refl in
      (ap is_completed free, rw free refl, ap is_called_off free)
  | inr e ↦
      let waits : p.status ≡ pending = s ∙ rw e refl in
      (ap is_completed waits, rw (waits, all_done_none p.deps e) refl, ap is_called_off waits)
]

none_completed : (ps : List Phase) → All IsNew ps → completed_ids ps ≡ []
none_completed [] h = refl
none_completed (p ∷ ps) (h, hs) = let (c, _, _) = new_status p h in rw c (none_completed ps hs)

All-IsHeld : (ps : List Phase) → All IsNew ps → All (IsHeld []) ps
All-IsHeld [] h = tt
All-IsHeld (p ∷ ps) (h, hs) = let (_, waits, on) = new_status p h in ((waits, on), All-IsHeld ps hs)

IsLive-IsNew : (w : Workflow) → All IsNew w.phases → IsLive w
IsLive-IsNew w new = λ c. rw (none_completed w.phases new) (All-IsHeld w.phases new)

claim_update_ready :
    (token owner : String) (input : Claim) (now : ℕ) (w : Workflow) (p : Phase)
    → is_over (release_expired_leases w now).status ≡ false
    → find (is_asked input.phase_id) (release_expired_leases w now).phases ≡ some p
    → is_ready p.status ≡ true
    → is_some (claim_update token owner input now w).1 ≡ true
unfolding claim_update
claim_update_ready token owner input now w p open_still found free =
    rw (open_still, found, free) refl

-- A workflow that was accepted never gets stuck, whatever calls were made: at any time, unless it is
-- over or some phase runs under a lease that has not expired, a claim of any phase hands one out.
pub run_progress :
    (digests : Digests) (definition : WorkflowDefinition) (created : ℕ) (w : Workflow)
    (calls : List (Call × ℕ)) (token owner : String) (input : Claim) (now : ℕ)
    → normalized_definition digests definition created ≡ inr w
    → input.phase_id ≡ none
    → is_over (release_expired_leases (run calls w) now).status ≡ false
    → any (λ p. is_running p.status) (release_expired_leases (run calls w) now).phases ≡ false
    → is_some (claim_update token owner input now (run calls w)).1 ≡ true
run_progress digests definition created w calls token owner input now e any_phase open_still quiet =
    let accepted = normalized_definition-IsAccepted digests definition created w e in
    let later = run calls w in
    let plan = HasPlan-shape w.phases later.phases (sym (shape-run calls w)) accepted.plan in
    let live = run-IsLive calls w (IsLive-IsNew w accepted.fresh) in
    let (p, found, is_free) =
      find_ready (release_expired_leases later now).phases
        (ready_or_running later now plan live open_still quiet) in
    claim_update_ready token owner input now later p open_still (rw any_phase found) is_free
