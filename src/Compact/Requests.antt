-- ===== src/Compact/Requests.antt =====
-- A request that core/compact-controller.ts takes while a commit is in flight.
use ultra_fabric.Prelude.{
  joined, ℕ, ◌+◌, ◌<◌, ◌≤◌, ◌≡◌, refl, sym, ap, ◌∙◌, subst, String, Bool, true, false, Option, none,
  some, List, [], ◌∷◌, inl, inr, arith, ◌==◌, nat_equality, length, find, map, All, Bool-cases,
  keep_truthy, text_length, ◌⊎◌,
}
use ultra_fabric.Compact.Instructions.{
  TypedRequest, Error, utf8_bytes, encode_request, bounds_error, request_prefix,
  unless_bounds_error,
}
use ultra_fabric.Compact.{
  Intent, Pending, Commit, Controller, CommitOutcome, settles, resumes, reaches_boundary,
  mark_settled, finish_callback, resume_commit, request, maybe_commit, commit_instructions, step,
  run, commit_of, is_flight, new_pending, unless_unencodable,
}
use ultra_fabric.Compact.Sound.{IsFlight, AtMostOneOpen, length-mark, find_number}

utf8_bytes-joined : (a b : String) → utf8_bytes (joined a b) ≡ utf8_bytes a + utf8_bytes b
unfolding utf8_bytes joined
utf8_bytes-joined String.[] b = omega arith
utf8_bytes-joined (String.◌∷◌ c a) b = omega (arith, utf8_bytes-joined a b)

-- The intent that is being committed.
abbrev commit_intent : Option Commit → Option Pending
commit_intent none = none
commit_intent (some c) = some c.committing

abbrev pub committed_intent : Controller → Option Pending
committed_intent s = elim s.in_flight [ none ↦ none | some n ↦ commit_intent (commit_of n s) ]

find_flight :
    (n : ℕ) (cs : List Commit) (reports : ℕ)
    → IsFlight (some n) cs reports
    → (c : Commit) × (find (λ d. d.number == n) cs ≡ some c)
find_flight n [] reports h = absurd (cc h)
find_flight n (c ∷ cs) reports (same, _, _) = (c, ground arith)

find_marked :
    (n : ℕ) (cs : List Commit) (c : Commit)
    → find (λ d. d.number == n) cs ≡ some c
    → (d : Commit) × (find (λ e. e.number == n) (map (mark_settled n) cs) ≡ some d)
      × (d.settled ≡ true)
find_marked n [] c h = absurd (ground arith)
find_marked n (d ∷ cs) c h = elim (Bool-cases (d.number == n)) [
  | inl q ↦ (record d { settled = true }, ground arith, refl)
  | inr q ↦
      let (e, found, settled) = find_marked n cs c (ground arith) in (e, ground arith, settled)
]

find_older :
    (p : Commit → Bool) (made : ℕ) (cs : List Commit) (c : Commit)
    → All (λ d. d.committing.serial < made) cs
    → find p cs ≡ some c
    → c.committing.serial < made
find_older p made [] c h e = absurd (ground arith)
find_older p made (d ∷ cs) c (h, hs) e = elim (Bool-cases (p d)) [
  | inl q ↦ let same : some d ≡ some c = ground arith in ground arith
  | inr q ↦ find_older p made cs c hs (ground arith)
]

-- The commit in flight ends, and the request that is newer than its intent stays.
finish_keeps :
    (n : ℕ) (outcome : CommitOutcome) (now : ℕ) (s : Controller) (c : Commit) (p : Pending)
    → commit_of n s ≡ some c
    → s.pending ≡ some p
    → c.committing.serial < p.serial
    → let t = finish_callback n outcome now s in
      (t.pending ≡ some p)
      × (t.in_flight ≡ s.in_flight)
      × (length t.commits ≡ length s.commits)
      × ((d : Commit) × (commit_of n t ≡ some d) × (d.settled ≡ true))
unfolding finish_callback
finish_keeps n outcome now s c p found waiting older =
    let own = find_number n s.commits c found in
    elim (Bool-cases c.settled) [
      | inl e ↦ rw (finish_callback, found, e) (waiting, refl, refl, (c, found, e))
      | inr e ↦
          rw (finish_callback, found, e)
            (
              rw waiting (ground arith),
              refl,
              length-mark c.number s.commits,
              subst
                  (λ k.
                    (d : Commit) × (find (λ b. b.number == n) (map (mark_settled k) s.commits)
                      ≡ some d)
                    × (d.settled ≡ true))
                  (sym own) (find_marked n s.commits c found),
            )
    ]

resume_ends :
    (n : ℕ) (s : Controller) (d : Commit)
    → commit_of n s ≡ some d
    → d.settled ≡ true
    → s.in_flight ≡ some n
    → resume_commit n s ≡ record s { in_flight = none }
unfolding resume_commit
resume_ends n s d found settled now =
    let own = find_number n s.commits d found in
    let same : is_flight d.number s.in_flight ≡ true = rw now (ground arith) in
    rw (resume_commit, found, settled, same) refl

unless_bounds_error_ok :
    {A : Type 0} (e : Option Error) (m : Error ⊎ A) (a : A)
    → unless_bounds_error e m ≡ inr a
    → m ≡ inr a
unless_bounds_error_ok none m a h = h
unless_bounds_error_ok (some e) m a h = absurd (ground arith)

unless_unencodable_ok :
    {A : Type 0} (preserve : Option (List String)) (m : Error ⊎ String) (n : Error ⊎ A) (a : A)
    → unless_unencodable preserve m n ≡ inr a
    → n ≡ inr a
unless_unencodable_ok none m n a h = h
unless_unencodable_ok (some items) (inl e) n a h = absurd (ground arith)
unless_unencodable_ok (some items) (inr x) n a h = h

unless_unencodable_encoded :
    {A : Type 0} (preserve : Option (List String)) (m : Error ⊎ String) (n : Error ⊎ A) (a : A)
    → unless_unencodable preserve m n ≡ inr a
    → (preserve ≡ none) ⊎ ((x : String) × (m ≡ inr x))
unless_unencodable_encoded none m n a h = inl refl
unless_unencodable_encoded (some items) (inl e) n a h = absurd (ground arith)
unless_unencodable_encoded (some items) (inr x) n a h = inr (x, refl)

module _ (json : TypedRequest → String)
    (shorter : (items : List String)
      → utf8_bytes (json (record { instructions = none; preserve = some items }))
        ≤ utf8_bytes (json (record { instructions = some ""; preserve = some items }))) where
  -- What `request` accepts, the later encoding accepts.
  encodes :
      (instructions : Option String) (items : List String) (text : String)
      → encode_request json (record { instructions = instructions; preserve = some items })
        ≡ inr text
      → (i : String) × (encode_request json
            (record { instructions = keep_truthy instructions; preserve = some items })
          ≡ inr i)
  unfolding encode_request bounds_error text_length utf8_bytes
  encodes none items text h = (text, h)
  encodes (some String.[]) items text h =
      let short : TypedRequest = record { instructions = none; preserve = some items } in
      (
        joined request_prefix (json short),
        ground (
          arith,
          shorter items,
          utf8_bytes-joined request_prefix (json short),
          utf8_bytes-joined request_prefix
              (json (record { instructions = some ""; preserve = some items })),
        ),
      )
  encodes (some (String.◌∷◌ c s)) items text h = (text, h)

  request_ok :
      (intent : Intent) (now : ℕ) (s t : Controller) (p : Pending)
      → request json intent now s ≡ inr (p, t)
      → (p ≡ new_pending s.made intent now) × (t ≡ record s { pending = some p; made = s.made + 1 })
  unfolding request
  request_ok intent now s t p h =
      let made =
        unless_unencodable_ok intent.preserve _ _ (p, t) (unless_bounds_error_ok _ _ (p, t) h) in
      (ground arith, ground arith)

  commit_instructions_ready :
      (intent : Intent) (instructions : Option String) (preserve : Option (List String))
      → ((preserve ≡ none)
          ⊎ ((x : String) × (encode_request json
                  (record { instructions = instructions; preserve = preserve })
                ≡ inr x)))
      → (i : Option String) × (commit_instructions json (keep_truthy instructions) preserve ≡ inr i)
  unfolding commit_instructions
  commit_instructions_ready intent instructions none e = (keep_truthy instructions, refl)
  commit_instructions_ready intent instructions (some items) (inl e) = absurd (cc e)
  commit_instructions_ready intent instructions (some items) (inr (x, e)) =
      let (i, q) = encodes instructions items x e in (some i, rw q refl)

  ready_after_request :
      (intent : Intent) (now : ℕ) (s t : Controller) (p : Pending)
      → request json intent now s ≡ inr (p, t)
      → (i : Option String) × (commit_instructions json p.instructions p.preserve ≡ inr i)
  unfolding request
  ready_after_request intent now s t p h =
      let (p_is, t_is) = request_ok intent now s t p h in
      let ready = commit_instructions_ready intent intent.instructions intent.preserve (
        unless_unencodable_encoded intent.preserve _ _ (p, t)
          (unless_bounds_error_ok _ _ (p, t) h)) in
      subst
        (λ (q : Pending).
          (i : Option String) × (commit_instructions json q.instructions q.preserve ≡ inr i))
        (sym p_is) ready

  commits_next :
      (u : Controller) (p : Pending) (later : ℕ)
      → u.in_flight ≡ none
      → u.pending ≡ some p
      → ((i : Option String) × (commit_instructions json p.instructions p.preserve ≡ inr i))
      → committed_intent (step json (reaches_boundary false later) u) ≡ some p
  unfolding step maybe_commit
  commits_next u p later idle waiting (i, ready) =
      rw (step, maybe_commit, idle, waiting, ready) (ground arith)

  -- When the JSON of a request is no longer without empty instructions than with them: a request that is
  -- accepted while a commit is in flight stays pending when that commit ends, however it ends, and is
  -- what the next boundary commits.
  pub request_waits :
      (s t : Controller) (intent : Intent) (p : Pending) (n now ended later : ℕ)
      (outcome : CommitOutcome)
      → AtMostOneOpen s
      → s.in_flight ≡ some n
      → request json intent now s ≡ inr (p, t)
      → let u = run json (settles n outcome ended ∷ resumes n ∷ []) t in
        (u.pending ≡ some p)
        × (u.in_flight ≡ none)
        × (committed_intent (step json (reaches_boundary false later) u) ≡ some p)
  unfolding run step
  request_waits s t intent p n now ended later outcome w busy h =
      let (p_is, t_is) = request_ok intent now s t p h in
      let (c, found) =
        find_flight n s.commits (length s.reports)
          (subst (λ f. IsFlight f s.commits (length s.reports)) busy w.flight) in
      let older = find_older (λ d. d.number == n) s.made s.commits c w.older found in
      let (waiting, flight, _, (d, marked, settled)) =
        finish_keeps n outcome ended t c p (rw t_is found) (rw t_is refl)
          (subst (λ (q : Pending). c.committing.serial < q.serial) (sym p_is) older) in
      let over =
        resume_ends n (finish_callback n outcome ended t) d marked settled
          (flight ∙ ap (λ (x : Controller). x.in_flight) t_is ∙ busy) in
      let ready = ready_after_request intent now s t p h in
      rw over (
        waiting,
        refl,
        commits_next (record (finish_callback n outcome ended t) { in_flight = none }) p later refl
            waiting ready,
      )
