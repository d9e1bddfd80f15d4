-- ===== src/Compact/Sound.antt =====
-- The commits of core/compact-controller.ts over any events.
use ultra_fabric.Prelude.{
  ℕ, ◌+◌, ◌<◌, ◌≡◌, refl, sym, subst, Bool, true, false, Option, none, some, List, [], ◌∷◌, inl,
  inr, arith, ◌==◌, ◌⊎◌, ◌&&◌, String, nat_equality, if◌then◌else◌, length, length-append, find,
  all, map, All, Option-cases, Bool-cases, keep_truthy,
}
use ultra_fabric.Compact.Instructions.{TypedRequest, Error}
use ultra_fabric.Compact.{
  Pending, Commit, Controller, CommitOutcome, Event, requests, cancels, reaches_boundary, settles,
  resumes, new_controller, mark_settled, clear_committed, finish_callback, cancel_pending,
  resume_commit, request, requested, start_commit, maybe_commit, or_same, step, run, aborted,
  commit_of, is_flight, start_with, commit_from, new_pending, Intent,
}

abbrev pub all_settled : List Commit → Bool
all_settled = all (λ c. c.settled)

-- The n-th commit, counted from the end of the list, has the number n.
abbrev pub IsNumbered : List Commit → Type 0
IsNumbered [] = Unit
IsNumbered (c ∷ cs) = (c.number ≡ length cs) × IsNumbered cs

-- Only the newest commit may be open, and only while it is in flight; as many reports were made as
-- commits are settled.
abbrev pub IsFlight : Option ℕ → List Commit → (reports : ℕ) → Type 0
IsFlight none cs reports = (all_settled cs ≡ true) × (reports ≡ length cs)
IsFlight (some n) [] reports = true ≡ false
IsFlight (some n) (c ∷ cs) reports =
    (c.number ≡ n) × (all_settled cs ≡ true) × (reports ≡ length cs + (if c.settled then 1 else 0))

abbrev pub IsOlder : ℕ → Option Pending → Type 0
IsOlder made none = Unit
IsOlder made (some p) = p.serial < made

pub record AtMostOneOpen (s : Controller) : Type 0 where
  pub numbered : IsNumbered s.commits
  pub flight : IsFlight s.in_flight s.commits (length s.reports)
  pub older : All (λ c. c.committing.serial < s.made) s.commits
  pub pending_older : IsOlder s.made s.pending

find_settled :
    (p : Commit → Bool) (cs : List Commit) (c : Commit)
    → all_settled cs ≡ true
    → find p cs ≡ some c
    → c.settled ≡ true
find_settled p [] c h e = absurd (ground arith)
find_settled p (d ∷ cs) c h e = elim (Bool-cases (p d)) [
  | inl q ↦ let same : some d ≡ some c = ground arith in ground (arith)
  | inr q ↦ find_settled p cs c (ground arith) (ground arith)
]

module _ (n : ℕ) where
  pub length-mark : (cs : List Commit) → length (map (mark_settled n) cs) ≡ length cs
  length-mark [] = refl
  length-mark (c ∷ cs) = omega (arith, length-mark cs)

  all_settled-mark :
      (cs : List Commit) → all_settled cs ≡ true → all_settled (map (mark_settled n) cs) ≡ true
  all_settled-mark [] h = refl
  all_settled-mark (c ∷ cs) h = ground (arith, all_settled-mark cs)

  mark-IsNumbered : (cs : List Commit) → IsNumbered cs → IsNumbered (map (mark_settled n) cs)
  mark-IsNumbered [] h = tt
  mark-IsNumbered (c ∷ cs) (h, hs) = (ground (arith, length-mark cs), mark-IsNumbered cs hs)

  mark-older :
      (made : ℕ) (cs : List Commit)
      → All (λ c. c.committing.serial < made) cs
      → All (λ c. c.committing.serial < made) (map (mark_settled n) cs)
  mark-older made [] h = tt
  mark-older made (c ∷ cs) (h, hs) = (ground arith, mark-older made cs hs)

  mark-IsFlight :
      (f : Option ℕ) (cs : List Commit) (reports : ℕ) (c : Commit)
      → find (λ d. d.number == n) cs ≡ some c
      → c.settled ≡ false
      → IsFlight f cs reports
      → IsFlight f (map (mark_settled n) cs) (reports + 1)
  mark-IsFlight none cs reports c found unsettled (h, _) =
      absurd (ground (arith, find_settled _ cs c h found))
  mark-IsFlight (some m) [] reports c found unsettled h = absurd (cc h)
  mark-IsFlight (some m) (d ∷ cs) reports c found unsettled (own, rest, number) =
      elim (Bool-cases (d.number == n)) [
        | inl q ↦ (ground arith, all_settled-mark cs rest, ground (arith, length-mark cs))
        | inr q ↦
            absurd (ground (arith, find_settled (λ e. e.number == n) cs c rest (ground arith)))
      ]

pub find_number :
    (n : ℕ) (cs : List Commit) (c : Commit) → find (λ d. d.number == n) cs ≡ some c → c.number ≡ n
find_number n [] c e = absurd (ground arith)
find_number n (d ∷ cs) c e = elim (Bool-cases (d.number == n)) [
  | inl q ↦ ground arith
  | inr q ↦ find_number n cs c (ground arith)
]

clear_committed-IsOlder :
    (made : ℕ) (c : Pending) (p : Option Pending)
    → IsOlder made p
    → IsOlder made (clear_committed c p)
clear_committed-IsOlder made c none h = tt
clear_committed-IsOlder made c (some p) h = elim (Bool-cases (p.serial == c.serial)) [
  | inl q ↦ rw q tt
  | inr q ↦ rw q h
]

finish_callback-AtMostOneOpen :
    (n : ℕ) (outcome : CommitOutcome) (now : ℕ) (s : Controller)
    → AtMostOneOpen s
    → AtMostOneOpen (finish_callback n outcome now s)
unfolding finish_callback
finish_callback-AtMostOneOpen n outcome now s w = elim (Option-cases (commit_of n s)) [
  | inl q ↦ rw (finish_callback, q) w
  | inr (c, q) ↦ elim (Bool-cases c.settled) [
    | inl e ↦ rw (finish_callback, q, e) w
    | inr e ↦
        rw (finish_callback, q, e)
          (record {
            numbered = mark-IsNumbered c.number s.commits w.numbered;
            flight =
                let own = find_number n s.commits c q in
                subst (IsFlight s.in_flight (map (mark_settled c.number) s.commits))
                  (sym (length-append s.reports _))
                  (mark-IsFlight c.number s.in_flight s.commits (length s.reports) c
                    (subst (λ k. find (λ d. d.number == k) s.commits ≡ some c) (sym own) q) e
                    w.flight);
            older = mark-older c.number s.made s.commits w.older;
            pending_older = clear_committed-IsOlder s.made c.committing s.pending w.pending_older;
          })
  ]
]

-- A commit that is in flight is the newest; when it is settled, all are.
IsFlight-over :
    (n : ℕ) (f : Option ℕ) (cs : List Commit) (reports : ℕ) (c : Commit)
    → find (λ d. d.number == n) cs ≡ some c
    → c.settled ≡ true
    → is_flight n f ≡ true
    → IsFlight f cs reports
    → IsFlight none cs reports
IsFlight-over n none cs reports c found settled own h = h
IsFlight-over n (some m) [] reports c found settled own h = absurd (cc h)
IsFlight-over n (some m) (d ∷ cs) reports c found settled own (same, rest, number) =
    let first : some d ≡ some c = ground arith in (ground arith, ground arith)

resume_commit-AtMostOneOpen :
    (n : ℕ) (s : Controller) → AtMostOneOpen s → AtMostOneOpen (resume_commit n s)
unfolding resume_commit
resume_commit-AtMostOneOpen n s w = elim (Option-cases (commit_of n s)) [
  | inl q ↦ rw (resume_commit, q) w
  | inr (c, q) ↦ elim (Bool-cases (c.settled && is_flight c.number s.in_flight)) [
    | inr e ↦ rw (resume_commit, q, e) w
    | inl e ↦
        rw (resume_commit, q, e)
          (record {
            numbered = w.numbered;
            flight =
                IsFlight-over n s.in_flight s.commits (length s.reports) c q (ground arith)
                  (ground (arith, find_number n s.commits c q)) w.flight;
            older = w.older;
            pending_older = w.pending_older;
          })
  ]
]

start-IsFlight :
    (f : Option ℕ) (cs : List Commit) (reports : ℕ) (c : Commit)
    → f ≡ none
    → c.number ≡ length cs
    → c.settled ≡ false
    → IsFlight f cs reports
    → IsFlight (some (length cs)) (c ∷ cs) reports
start-IsFlight none cs reports c now_none number open_still (h, r) = (number, h, ground arith)
start-IsFlight (some n) cs reports c now_none number open_still h = absurd (cc now_none)

module _ (json : TypedRequest → String) where
  start_commit-AtMostOneOpen :
      (p : Pending) (i : Option String) (s : Controller)
      → s.in_flight ≡ none
      → s.pending ≡ some p
      → AtMostOneOpen s
      → AtMostOneOpen (start_commit p i s)
  start_commit-AtMostOneOpen p i s now_none now_pending w = record {
    numbered = (refl, w.numbered);
    flight =
        start-IsFlight s.in_flight s.commits (length s.reports)
          (record {
            number = length s.commits;
            committing = p;
            instructions = keep_truthy i;
            settled = false;
          })
          now_none refl refl w.flight;
    older = (subst (IsOlder s.made) now_pending w.pending_older, w.older);
    pending_older = w.pending_older;
  }

  start_with-AtMostOneOpen :
      (b : Bool) (now : ℕ) (s : Controller) (p : Pending) (m : Error ⊎ Option String)
      → s.in_flight ≡ none
      → s.pending ≡ some p
      → AtMostOneOpen s
      → AtMostOneOpen (or_same s (start_with b now s p m))
  start_with-AtMostOneOpen b now s p (inl e) f q w = w
  start_with-AtMostOneOpen true now s p (inr i) f q w =
      finish_callback-AtMostOneOpen (length s.commits) aborted now _
        (start_commit-AtMostOneOpen p i s f q w)
  start_with-AtMostOneOpen false now s p (inr i) f q w = start_commit-AtMostOneOpen p i s f q w

  commit_from-AtMostOneOpen :
      (b : Bool) (now : ℕ) (s : Controller) (f : Option ℕ) (q : Option Pending)
      → s.in_flight ≡ f
      → s.pending ≡ q
      → AtMostOneOpen s
      → AtMostOneOpen (or_same s (commit_from json b now s f q))
  commit_from-AtMostOneOpen b now s (some n) q e h w = w
  commit_from-AtMostOneOpen b now s none none e h w = w
  commit_from-AtMostOneOpen b now s none (some p) e h w = start_with-AtMostOneOpen b now s p _ e h w

  older_grows :
      (made : ℕ) (cs : List Commit)
      → All (λ c. c.committing.serial < made) cs
      → All (λ c. c.committing.serial < made + 1) cs
  older_grows made [] h = tt
  older_grows made (c ∷ cs) (h, hs) = (omega (arith, h), older_grows made cs hs)

  request_cases :
      (intent : Intent) (now : ℕ) (s : Controller)
      → (requested s (request json intent now s) ≡ s)
        ⊎ (requested s (request json intent now s)
            ≡ record s { pending = some (new_pending s.made intent now); made = s.made + 1 })
  unfolding request
  request_cases intent now s = ground arith

  step-AtMostOneOpen :
      (e : Event) (s : Controller) → AtMostOneOpen s → AtMostOneOpen (step json e s)
  unfolding step cancel_pending maybe_commit
  step-AtMostOneOpen (requests intent now) s w = elim (request_cases intent now s) [
    | inl q ↦ subst AtMostOneOpen (sym q) w
    | inr q ↦ subst AtMostOneOpen (sym q) (record {
      numbered = w.numbered;
      flight = w.flight;
      older = older_grows s.made s.commits w.older;
      pending_older = omega arith;
    })
  ]
  step-AtMostOneOpen cancels s w = record {
    numbered = w.numbered;
    flight = w.flight;
    older = w.older;
    pending_older = tt;
  }
  step-AtMostOneOpen (reaches_boundary b now) s w =
      commit_from-AtMostOneOpen b now s s.in_flight s.pending refl refl w
  step-AtMostOneOpen (settles n outcome now) s w = finish_callback-AtMostOneOpen n outcome now s w
  step-AtMostOneOpen (resumes n) s w = resume_commit-AtMostOneOpen n s w

  run_from-AtMostOneOpen :
      (es : List Event) (s : Controller) → AtMostOneOpen s → AtMostOneOpen (run json es s)
  unfolding run
  run_from-AtMostOneOpen [] s w = w
  run_from-AtMostOneOpen (e ∷ es) s w =
      run_from-AtMostOneOpen es (step json e s) (step-AtMostOneOpen e s w)

  -- After any events, with callbacks that the host calls again or late, only the newest commit may be
  -- open, and only while it is in flight, and as many reports were made as commits are settled. Commits
  -- are numbered in order, and every intent is older than the next.
  pub run-AtMostOneOpen : (es : List Event) → AtMostOneOpen (run json es new_controller)
  unfolding new_controller
  run-AtMostOneOpen es =
      run_from-AtMostOneOpen es new_controller
        (record { numbered = tt; flight = (refl, refl); older = tt; pending_older = tt })
