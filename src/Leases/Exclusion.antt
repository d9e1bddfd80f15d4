-- ===== src/Leases/Exclusion.antt =====
-- No two runs hold leases that conflict (leases/path-leases.ts).
use ultra_fabric.Prelude.{
  ℕ, suc, ◌+◌, ◌≡◌, refl, ◌≢◌, inl, inr, String, false, none, List, [], ◌∷◌, ◌++◌, arith, eq_iff,
  string_equality, length, find, ltb, leb, All, All-append, All-filter, Option-cases, Bool-cases,
}
use ultra_fabric.Leases.{
  Paths, Target, Lease, Result, ok, err, ◌>>=◌, max_leases, active, conflicts, is_own, extend_own,
  acquire_one, acquire_all, foreign_conflict, first_conflict, acquire_update,
}

-- The property holds of the result, if there is one.
abbrev pub Holds : {A : Type 0} → (A → Type 0) → Result A → Type 0
Holds P (ok a) = P a
Holds P (err e) = Unit {0}

pub Holds-bind :
    {A B : Type 0} {P : A → Type 0} (Q : B → Type 0) (m : Result A) (f : A → Result B)
    → Holds P m
    → ((a : A) → P a → Holds Q (f a))
    → Holds Q (m >>= f)
Holds-bind Q (ok a) f h k = k a h
Holds-bind Q (err e) f h k = tt

pub All-imp :
    {A : Type 0} {P Q : A → Type 0} → ((a : A) → P a → Q a) → (xs : List A) → All P xs → All Q xs
All-imp keep [] h = tt
All-imp keep (x ∷ xs) (h, hs) = (keep x h, All-imp keep xs hs)

module _ (paths : Paths) where
  -- Leases of two runs do not conflict.
  abbrev pub Apart : Lease → Lease → Type 0
  Apart l m = l.owner_run_id ≢ m.owner_run_id → conflicts paths l.target m.target ≡ false

  -- Every lease is apart from those after it.
  abbrev pub AllApart : List Lease → Type 0
  AllApart [] = Unit
  AllApart (l ∷ ls) = All (Apart l) ls × AllApart ls

  conflicts_comm : (l m : Target) → conflicts paths l m ≡ conflicts paths m l
  unfolding conflicts
  conflicts_comm l m = ground (arith, eq_iff l.path m.path, eq_iff m.path l.path)

  pub active-AllApart : (now : ℕ) (ls : List Lease) → AllApart ls → AllApart (active now ls)
  unfolding active
  active-AllApart now [] a = tt
  active-AllApart now (l ∷ ls) (h, a) =
      ground
        (arith, active-AllApart now ls a, All-filter (Apart l) (λ x. ltb now x.expires_at) ls h)

  AllApart-append_one :
      (ls : List Lease) (m : Lease)
      → AllApart ls
      → All (λ l. Apart l m) ls
      → AllApart (ls ++ m ∷ [])
  AllApart-append_one [] m a h = (tt, tt)
  AllApart-append_one (l ∷ ls) m (b, a) (h, hs) =
      (All-append (Apart l) ls (m ∷ []) b (h, tt), AllApart-append_one ls m a hs)

  -- No lease of another run conflicts with the request.
  abbrev pub IsFree : String → List Lease → Target → Type 0
  IsFree owner ls r = All (λ l. l.owner_run_id ≢ owner → conflicts paths l.target r ≡ false) ls

  IsFree-foreign_conflict :
      (owner : String) (r : Target) (ls : List Lease)
      → foreign_conflict paths owner r ls ≡ none
      → IsFree owner ls r
  unfolding foreign_conflict
  IsFree-foreign_conflict owner r [] e = tt
  IsFree-foreign_conflict owner r (l ∷ ls) e = (
    (λ other. ground (arith, eq_iff l.owner_run_id owner)),
    IsFree-foreign_conflict owner r ls (ground (arith, eq_iff l.owner_run_id owner)),
  )

  IsFree-first_conflict :
      (owner : String) (rs : List Target) (ls : List Lease)
      → first_conflict paths owner rs ls ≡ none
      → All (IsFree owner ls) rs
  unfolding first_conflict
  IsFree-first_conflict owner [] ls e = tt
  IsFree-first_conflict owner (r ∷ rs) ls e =
      elim (Option-cases (foreign_conflict paths owner r ls)) [
        | inl q ↦
            (IsFree-foreign_conflict owner r ls q, IsFree-first_conflict owner rs ls (ground arith))
        | inr (l, q) ↦ absurd (ground arith)
      ]

  -- A new end of a lease changes neither its owner nor its target.
  module _ (owner : String) (r : Target) (at : ℕ) where
    extend-All :
        (P : Lease → Type 0)
        → ((l : Lease) → P l → P (record l { expires_at = at }))
        → (ls : List Lease) → All P ls
        → All P (extend_own owner r at ls)
    unfolding extend_own
    extend-All P keep [] h = tt
    extend-All P keep (l ∷ ls) (h, hs) = elim (Bool-cases (is_own owner r l)) [
      | inl own ↦ rw own (keep l h, hs)
      | inr other ↦ rw other (h, extend-All P keep ls hs)
    ]

    extend-AllApart : (ls : List Lease) → AllApart ls → AllApart (extend_own owner r at ls)
    unfolding extend_own
    extend-AllApart [] a = tt
    extend-AllApart (l ∷ ls) (h, a) = elim (Bool-cases (is_own owner r l)) [
      | inl own ↦ rw own (h, a)
      | inr other ↦ rw other (extend-All (Apart l) (λ m k. k) ls h, extend-AllApart ls a)
    ]

  -- A new lease of the owner for a free request.
  IsFree-AllApart :
      (m : Lease) (ls : List Lease) → IsFree m.owner_run_id ls m.target → All (λ l. Apart l m) ls
  IsFree-AllApart m [] f = tt
  IsFree-AllApart m (l ∷ ls) (h, f) = (h, IsFree-AllApart m ls f)

  -- What one round keeps: the leases stay apart, and what was free for the owner stays free.
  abbrev pub KeepsFree : String → List Lease → Lease × List Lease → Type 0
  KeepsFree owner ls step =
      AllApart step.1 × ((q : Target) → IsFree owner ls q → IsFree owner step.1 q)

  acquire_one-AllApart :
      (id owner : String) (now ttl : ℕ) (r : Target) (ls : List Lease)
      → AllApart ls
      → IsFree owner ls r
      → Holds (KeepsFree owner ls) (acquire_one id owner now ttl r ls)
  unfolding acquire_one
  acquire_one-AllApart id owner now ttl r ls a f = elim (Option-cases (find (is_own owner r) ls)) [
    | inl q ↦ elim (Bool-cases (leb max_leases (length ls))) [
      | inl full ↦ rw (Holds, q, full) tt
      | inr room ↦
          let new : Lease = record {
            id = id;
            owner_run_id = owner;
            target = r;
            acquired_at = now;
            expires_at = now + ttl;
          } in
          rw (Holds, q, room)
            (
              AllApart-append_one ls new a (IsFree-AllApart new ls f),
              (λ t g.
                  All-append (λ l. l.owner_run_id ≢ owner → conflicts paths l.target t ≡ false) ls
                    (new ∷ []) g ((λ other. absurd (other refl)), tt)),
            )
    ]
    | inr (x, q) ↦
        rw (Holds, q)
          (
            extend-AllApart owner r (now + ttl) ls a,
            (λ t.
                extend-All owner r (now + ttl)
                  (λ l. l.owner_run_id ≢ owner → conflicts paths l.target t ≡ false) (λ l h. h) ls),
          )
  ]

  acquire_all-AllApart :
      (next_id : ℕ → String) (n : ℕ) (owner : String) (now ttl : ℕ) (rs : List Target)
      (ls : List Lease)
      → AllApart ls
      → All (IsFree owner ls) rs
      → Holds (λ out. AllApart out.1) (acquire_all next_id n owner now ttl rs ls)
  unfolding acquire_all
  acquire_all-AllApart next_id n owner now ttl [] ls a f = a
  acquire_all-AllApart next_id n owner now ttl (r ∷ rs) ls a (f, fs) =
      Holds-bind (λ out. AllApart out.1) (acquire_one (next_id n) owner now ttl r ls) _
        (acquire_one-AllApart (next_id n) owner now ttl r ls a f)
        (λ step (apart, keep).
          Holds-bind (λ out. AllApart out.1) (acquire_all next_id (suc n) owner now ttl rs step.1) _
            (acquire_all-AllApart next_id (suc n) owner now ttl rs step.1 apart
              (All-imp keep rs fs))
            (λ later h. h))

  -- When no two runs hold leases that conflict, then neither do any two afterwards, whatever a run
  -- acquires.
  pub acquire_update-AllApart :
      (next_id : ℕ → String) (owner : String) (now ttl : ℕ) (rs : List Target) (ls : List Lease)
      → AllApart ls
      → Holds
          (λ out. AllApart out.1)
          (acquire_update paths next_id owner now ttl rs (active now ls))
  unfolding acquire_update
  acquire_update-AllApart next_id owner now ttl rs ls a =
      elim (Option-cases (first_conflict paths owner rs (active now ls))) [
        | inl q ↦
            rw (Holds, q)
              (acquire_all-AllApart next_id 0 owner now ttl rs (active now ls)
                (active-AllApart now ls a) (IsFree-first_conflict owner rs (active now ls) q))
        | inr (l, q) ↦ rw (Holds, q) tt
      ]
