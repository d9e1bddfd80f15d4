-- ===== src/Leases/Runs.antt =====
-- Sequences of calls of leases/path-leases.ts on the shared leases.
use ultra_fabric.Prelude.{
  ℕ, String, unique, Bool, Option, some, List, [], ◌∷◌, arith, filter, All-filter, string_equality,
  take, Option-cases, Bool-cases, inl, inr, slice_start, trim, non_empty, ltb, length, ◌||◌,
}
use ultra_fabric.Leases.{Paths, Lease, Result, ok, err, ◌>>=◌, active, overlaps}
use ultra_fabric.Leases.Requests.{
  Acquire, acquire, read_state, is_state, canonical_targets, release_update, not_owned,
  force_release_update, or_empty,
}
use ultra_fabric.Leases.Exclusion.{
  Holds, Holds-bind, Apart, AllApart, acquire_update-AllApart, active-AllApart,
}

-- A call that reads the leases and writes them back.
pub data Call : Type 0 where
  acquires : (cwd : String) → (next_id : ℕ → String) → Acquire → Call
  releases : (owner : String) → (ids : List String) → Call
  forces : (ids : Option (List String)) → Call

abbrev pub after : {A : Type 0} → List Lease → Result (A × List Lease) → List Lease
after leases (ok (a, out)) = out
after leases (err e) = leases

Holds-any : {A : Type 0} (m : Result A) → Holds (λ a. Unit {0}) m
Holds-any (ok a) = tt
Holds-any (err e) = tt

module _ (paths : Paths) where
  -- The stored leases after a call at the given time; a call that fails writes nothing.
  unfoldable pub step : Call → ℕ → List Lease → List Lease
  step (acquires cwd next_id input) now leases =
      after leases (acquire paths cwd next_id now input (some leases))
  step (releases owner ids) now leases =
      after leases (
        read_state paths (some leases) >>= λ read.
        release_update (trim owner) ids (active now read))
  step (forces ids) now leases = (force_release_update paths ids (some leases)).1

  unfoldable pub run : List (Call × ℕ) → List Lease → List Lease
  unfolding step
  run [] leases = leases
  run ((call, now) ∷ calls) leases = run calls (step call now leases)

  filter-AllApart :
      (p : Lease → Bool) (ls : List Lease) → AllApart paths ls → AllApart paths (filter p ls)
  filter-AllApart p [] a = tt
  filter-AllApart p (l ∷ ls) (h, a) =
      ground (arith, filter-AllApart p ls a, All-filter (Apart paths l) p ls h)

  or_empty-AllApart :
      (m : Result (List Lease)) → Holds (AllApart paths) m → AllApart paths (or_empty m)
  or_empty-AllApart (ok ls) h = h
  or_empty-AllApart (err e) h = tt

  after-AllApart :
      {A : Type 0} (ls : List Lease) (m : Result (A × List Lease))
      → AllApart paths ls
      → Holds (λ out. AllApart paths out.1) m
      → AllApart paths (after ls m)
  after-AllApart ls (ok (b, out)) a h = h
  after-AllApart ls (err e) a h = a

  read_state-AllApart :
      (ls : List Lease) → AllApart paths ls → Holds (AllApart paths) (read_state paths (some ls))
  unfolding read_state
  read_state-AllApart ls a = elim (Bool-cases (is_state paths ls)) [
    | inl q ↦ rw (Holds, q) a
    | inr q ↦ rw (Holds, q) tt
  ]

  release_update-AllApart :
      (owner : String) (ids : List String) (ls : List Lease)
      → AllApart paths ls
      → Holds (λ out. AllApart paths out.1) (release_update owner ids ls)
  unfolding release_update
  release_update-AllApart owner ids ls a =
      elim (Option-cases (not_owned owner (take 32 (unique ids)) ls)) [
        | inl q ↦ rw (Holds, q) (filter-AllApart _ ls a)
        | inr (id, q) ↦ rw (Holds, q) tt
      ]

  acquire-AllApart :
      (cwd : String) (next_id : ℕ → String) (now : ℕ) (input : Acquire) (ls : List Lease)
      → AllApart paths ls
      → Holds (λ out. AllApart paths out.1) (acquire paths cwd next_id now input (some ls))
  unfolding acquire
  acquire-AllApart cwd next_id now input ls a =
      let owner = slice_start 256 (trim input.owner_run_id) in
      elim (Bool-cases (non_empty owner)) [
        | inr q ↦ rw (Holds, q) tt
        | inl q ↦ elim (Bool-cases (ltb (length input.paths) 1 || ltb 32 (length input.paths))) [
          | inl p ↦ rw (Holds, q, p) tt
          | inr p ↦
              rw (q, p)
                (Holds-bind (λ out. AllApart paths out.1) (canonical_targets paths cwd input.paths)
                  _ (Holds-any (canonical_targets paths cwd input.paths))
                  (λ requested _. elim (Bool-cases (overlaps paths requested)) [
                    | inl o ↦ rw (Holds, o) tt
                    | inr o ↦ rw o (
                        Holds-bind (λ out. AllApart paths out.1) (read_state paths (some ls)) _
                          (read_state-AllApart ls a)
                          (λ read b.
                            acquire_update-AllApart paths next_id owner now _ requested read b))
                  ]))
        ]
      ]

  force_release-AllApart :
      (ids : Option (List String)) (ls : List Lease)
      → AllApart paths ls
      → AllApart paths (force_release_update paths ids (some ls)).1
  unfolding force_release_update
  force_release-AllApart ids ls a =
      filter-AllApart _ (or_empty (read_state paths (some ls)))
        (or_empty-AllApart (read_state paths (some ls)) (read_state-AllApart ls a))

  step-AllApart :
      (call : Call) (now : ℕ) (ls : List Lease)
      → AllApart paths ls
      → AllApart paths (step call now ls)
  unfolding step
  step-AllApart (acquires cwd next_id input) now ls a =
      after-AllApart ls (acquire paths cwd next_id now input (some ls)) a
        (acquire-AllApart cwd next_id now input ls a)
  step-AllApart (releases owner ids) now ls a =
      after-AllApart ls
        (read_state paths (some ls) >>= λ read. release_update (trim owner) ids (active now read)) a
        (Holds-bind (λ out. AllApart paths out.1) (read_state paths (some ls)) _
          (read_state-AllApart ls a)
          (λ read b.
            release_update-AllApart (trim owner) ids (active now read)
              (active-AllApart paths now read b)))
  step-AllApart (forces ids) now ls a = force_release-AllApart ids ls a

  -- When no two runs hold leases that conflict, none do after any calls by any runs in any order.
  pub run-AllApart :
      (calls : List (Call × ℕ)) (ls : List Lease)
      → AllApart paths ls
      → AllApart paths (run calls ls)
  unfolding run
  run-AllApart [] ls a = a
  run-AllApart ((call, now) ∷ calls) ls a =
      run-AllApart calls (step call now ls) (step-AllApart call now ls a)
