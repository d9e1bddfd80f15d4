-- ===== src/Workflows/Dependencies.antt =====
-- The order of the phases of workflows/durable.ts.
use ultra_fabric.Prelude.{
  ◌≡◌, refl, String, Bool, true, false, ◌&&◌, ◌||◌, not, some, List, [], ◌∷◌, inl, inr, arith, find,
  all, map, includes, All, Bool-cases, ◌==◌, string_equality,
}
use ultra_fabric.Workflows.{
  Phase, PhaseStatus, pending, ready, running, completed, failed, cancelled, is_pending, is_ready,
  is_running, is_completed, ready_when, refresh_ready, completed_ids, update_first,
}

-- The phase was released to be worked on, and was not cancelled.
abbrev pub has_begun : PhaseStatus → Bool
has_begun pending = false
has_begun cancelled = false
has_begun _ = true

abbrev pub all_done : List String → List String → Bool
all_done deps done = all (λ dep. includes dep done) deps

-- A phase that has begun depends on completed phases only.
abbrev pub IsInOrder : List String → Phase → Type 0
IsInOrder done p = has_begun p.status ≡ true → all_done p.deps done ≡ true

pub ready_begun :
    (s : PhaseStatus) → (not (is_ready s) || (has_begun s && not (is_completed s))) ≡ true
ready_begun pending = refl
ready_begun ready = refl
ready_begun running = refl
ready_begun completed = refl
ready_begun failed = refl
ready_begun cancelled = refl

pub running_begun :
    (s : PhaseStatus) → (not (is_running s) || (has_begun s && not (is_completed s))) ≡ true
running_begun pending = refl
running_begun ready = refl
running_begun running = refl
running_begun completed = refl
running_begun failed = refl
running_begun cancelled = refl

pending_open : (s : PhaseStatus) → (not (is_pending s) || not (is_completed s)) ≡ true
pending_open pending = refl
pending_open ready = refl
pending_open running = refl
pending_open completed = refl
pending_open failed = refl
pending_open cancelled = refl

-- What a change of a phase keeps.
abbrev pub Keeps : Phase → Phase → Type 0
Keeps p q =
    (q.id ≡ p.id)
    × (q.deps ≡ p.deps)
    × (is_completed p.status ≡ true → is_completed q.status ≡ true)
    × (has_begun q.status ≡ true → has_begun p.status ≡ true)

abbrev pub Evolves : List Phase → List Phase → Type 0
Evolves [] [] = Unit
Evolves (p ∷ ps) (q ∷ qs) = Keeps p q × Evolves ps qs
Evolves _ _ = ⊥

Evolves-refl : (ps : List Phase) → Evolves ps ps
Evolves-refl [] = tt
Evolves-refl (p ∷ ps) = ((refl, refl, (λ e. e), λ e. e), Evolves-refl ps)

pub Evolves-map :
    (change : Phase → Phase)
    → ((p : Phase) → Keeps p (change p))
    → (ps : List Phase) → Evolves ps (map change ps)
Evolves-map change keep [] = tt
Evolves-map change keep (p ∷ ps) = (keep p, Evolves-map change keep ps)

pub Evolves-update_first :
    (test : Phase → Bool) (change : Phase → Phase) (ps : List Phase)
    → ((p : Phase) → find test ps ≡ some p → Keeps p (change p))
    → Evolves ps (update_first test change ps)
unfolding update_first
Evolves-update_first test change [] keep = tt
Evolves-update_first test change (p ∷ ps) keep = elim (Bool-cases (test p)) [
  | inl e ↦ rw e (keep p (ground arith), Evolves-refl ps)
  | inr e ↦ rw e (
    (refl, refl, (λ c. c), λ b. b),
    Evolves-update_first test change ps (λ q f. keep q (ground arith)),
  )
]

includes-completed_ids :
    (id : String) (p : Phase) (ps : List Phase)
    → includes id (completed_ids (p ∷ ps))
      ≡ ((is_completed p.status && p.id == id) || includes id (completed_ids ps))
unfolding includes
includes-completed_ids id p ps = elim (Bool-cases (is_completed p.status)) [
  | inl e ↦ rw e refl
  | inr e ↦ rw e refl
]

completed-Evolves :
    (id : String) (ps qs : List Phase)
    → Evolves ps qs
    → includes id (completed_ids ps) ≡ true
    → includes id (completed_ids qs) ≡ true
completed-Evolves id [] [] v h = h
completed-Evolves id [] (q ∷ qs) v h = absurd v
completed-Evolves id (p ∷ ps) [] v h = absurd v
completed-Evolves id (p ∷ ps) (q ∷ qs) ((same, _, keeps, _), v) h =
    let named : (q.id == id) ≡ (p.id == id) = rw same refl in
    ground (
      arith,
      keeps,
      includes-completed_ids id p ps,
      includes-completed_ids id q qs,
      completed-Evolves id ps qs v,
    )

pub all_done-grows :
    (deps done more : List String)
    → ((id : String) → includes id done ≡ true → includes id more ≡ true)
    → all_done deps done ≡ true
    → all_done deps more ≡ true
all_done-grows [] done more grow h = refl
all_done-grows (d ∷ deps) done more grow h =
    ground (arith, grow d, all_done-grows deps done more grow)

IsInOrder-Evolves :
    (done : List String) (ps qs : List Phase)
    → Evolves ps qs
    → All (IsInOrder done) ps
    → All (IsInOrder done) qs
IsInOrder-Evolves done [] [] v h = tt
IsInOrder-Evolves done [] (q ∷ qs) v h = absurd v
IsInOrder-Evolves done (p ∷ ps) [] v h = absurd v
IsInOrder-Evolves done (p ∷ ps) (q ∷ qs) ((_, deps, _, begun), v) (h, hs) =
    ((λ b. rw deps (h (begun b))), IsInOrder-Evolves done ps qs v hs)

IsInOrder-grows :
    (done more : List String) (ps : List Phase)
    → ((id : String) → includes id done ≡ true → includes id more ≡ true)
    → All (IsInOrder done) ps
    → All (IsInOrder more) ps
IsInOrder-grows done more [] grow h = tt
IsInOrder-grows done more (p ∷ ps) grow (h, hs) =
    ((λ b. all_done-grows p.deps done more grow (h b)), IsInOrder-grows done more ps grow hs)

-- Every phase that has begun depends on completed phases only.
abbrev pub AreInOrder : List Phase → Type 0
AreInOrder ps = All (IsInOrder (completed_ids ps)) ps

pub AreInOrder-Evolves : (ps qs : List Phase) → Evolves ps qs → AreInOrder ps → AreInOrder qs
AreInOrder-Evolves ps qs v h =
    IsInOrder-grows (completed_ids ps) (completed_ids qs) qs (λ id. completed-Evolves id ps qs v)
      (IsInOrder-Evolves (completed_ids ps) ps qs v h)

-- The phases that are made ready are in order, too.
ready_when-IsInOrder :
    (done : List String) (ps : List Phase)
    → All (IsInOrder done) ps
    → All (IsInOrder done) (map (ready_when done) ps)
unfolding ready_when
ready_when-IsInOrder done [] h = tt
ready_when-IsInOrder done (p ∷ ps) (h, hs) =
    elim (Bool-cases (is_pending p.status && all_done p.deps done)) [
      | inl e ↦ rw e ((λ b. ground arith), ready_when-IsInOrder done ps hs)
      | inr e ↦ rw e (h, ready_when-IsInOrder done ps hs)
    ]

ready_when-kept :
    (done : List String) (p : Phase)
    → ((ready_when done p).id ≡ p.id)
      × (is_completed p.status ≡ true → is_completed (ready_when done p).status ≡ true)
unfolding ready_when
ready_when-kept done p = elim (Bool-cases (is_pending p.status && all_done p.deps done)) [
  | inl e ↦ rw e (refl, λ c. absurd (ground (arith, pending_open p.status)))
  | inr e ↦ rw e (refl, λ c. c)
]

completed_ids-ready_when :
    (done : List String) (id : String) (ps : List Phase)
    → includes id (completed_ids ps) ≡ true
    → includes id (completed_ids (map (ready_when done) ps)) ≡ true
completed_ids-ready_when done id [] h = h
completed_ids-ready_when done id (p ∷ ps) h =
    let (same, keeps) = ready_when-kept done p in
    let named : ((ready_when done p).id == id) ≡ (p.id == id) = rw same refl in
    ground (
      arith,
      keeps,
      includes-completed_ids id p ps,
      includes-completed_ids id (ready_when done p) (map (ready_when done) ps),
      completed_ids-ready_when done id ps,
    )

pub refresh_ready-AreInOrder : (ps : List Phase) → AreInOrder ps → AreInOrder (refresh_ready ps)
unfolding refresh_ready
refresh_ready-AreInOrder ps h =
    IsInOrder-grows (completed_ids ps) _ (map (ready_when (completed_ids ps)) ps)
      (λ id. completed_ids-ready_when (completed_ids ps) id ps)
      (ready_when-IsInOrder (completed_ids ps) ps h)
