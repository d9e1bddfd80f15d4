-- ===== src/Leases/Guard.antt =====
-- What a lease grants in leases/path-leases.ts: other runs cannot write to what it covers.
use ultra_fabric.Prelude.{
  ℕ, suc, ◌+◌, ◌<◌, ◌≡◌, refl, ◌≢◌, ◌⊎◌, inl, inr, String, Bool, true, ◌&&◌, not, some, List, [],
  ◌∷◌, ◌++◌, arith, eq_iff, ◌==◌, string_equality, length, filter, find, any, leb, All,
  Option-cases, Bool-cases, is_some, subst,
}
use ultra_fabric.Leases.{
  Paths, Scope, file, tree, Target, Lease, Result, ok, max_leases, active, conflicts, is_own,
  same_scope, canonical_path, extend_own, acquire_one, acquire_all, first_conflict, acquire_update,
}
use ultra_fabric.Leases.Requests.{check_write, read_state, is_state, assert_can_write}
use ultra_fabric.Leases.Exclusion.{Holds, Holds-bind}

-- The run holds a lease on exactly the target that lasts to the given time.
abbrev pub is_covered : String → ℕ → Target → List Lease → Bool
is_covered owner at r ls = any (λ l. is_own owner r l && leb at l.expires_at) ls

module _ (owner : String) (at : ℕ) where
  covered-append :
      (r : Target) (ls : List Lease) (m : Lease)
      → is_covered owner at r ls ≡ true ⊎ is_covered owner at r (m ∷ []) ≡ true
      → is_covered owner at r (ls ++ m ∷ []) ≡ true
  covered-append r [] m (inr h) = h
  covered-append r [] m (inl h) = absurd (ground arith)
  covered-append r (l ∷ ls) m (inl h) =
      elim (Bool-cases (is_own owner r l && leb at l.expires_at)) [
        | inl e ↦ rw e refl
        | inr e ↦ rw e (covered-append r ls m (inl (ground arith)))
      ]
  covered-append r (l ∷ ls) m (inr h) =
      elim (Bool-cases (is_own owner r l && leb at l.expires_at)) [
        | inl e ↦ rw e refl
        | inr e ↦ rw e (covered-append r ls m (inr h))
      ]

  covered-extend :
      (r q : Target) (ls : List Lease)
      → is_covered owner at q ls ≡ true
      → is_covered owner at q (extend_own owner r at ls) ≡ true
  unfolding extend_own
  covered-extend r q [] h = h
  covered-extend r q (l ∷ ls) h = ground (arith, covered-extend r q ls)

  extend_covers :
      (r : Target) (ls : List Lease) (x : Lease)
      → find (is_own owner r) ls ≡ some x
      → is_covered owner at r (extend_own owner r at ls) ≡ true
  unfolding extend_own
  extend_covers r [] x e = absurd (ground arith)
  extend_covers r (l ∷ ls) x e = elim (Bool-cases (is_own owner r l)) [
    | inl own ↦ ground arith
    | inr other ↦ ground (arith, extend_covers r ls x)
  ]

same_scope_refl : (s : Scope) → same_scope s s ≡ true
same_scope_refl file = refl
same_scope_refl tree = refl

same_scope_eq : (s t : Scope) → same_scope s t ≡ true → s ≡ t
same_scope_eq file file h = refl
same_scope_eq tree tree h = refl
same_scope_eq file tree h = absurd (ground arith)
same_scope_eq tree file h = absurd (ground arith)

is_own_target :
    (owner : String) (r : Target) (l : Lease)
    → is_own owner r l ≡ true
    → (l.owner_run_id ≡ owner) × (l.target ≡ r)
is_own_target owner r l h =
    let path : l.target.path ≡ r.path = ground (arith, eq_iff l.target.path r.path) in
    let scope : l.target.scope ≡ r.scope = same_scope_eq l.target.scope r.scope (ground arith) in
    (ground (arith, eq_iff l.owner_run_id owner), λ i. record { path = path i; scope = scope i })

-- What a round grants: the request is covered, and what was covered stays so.
abbrev pub Grants : String → ℕ → Target → List Lease → Lease × List Lease → Type 0
Grants owner at r ls step =
    is_covered owner at r step.1 ≡ true
    × ((q : Target) → is_covered owner at q ls ≡ true → is_covered owner at q step.1 ≡ true)

acquire_one-covers :
    (id owner : String) (now ttl : ℕ) (r : Target) (ls : List Lease)
    → Holds (Grants owner (now + ttl) r ls) (acquire_one id owner now ttl r ls)
unfolding acquire_one
acquire_one-covers id owner now ttl r ls = elim (Option-cases (find (is_own owner r) ls)) [
  | inl q ↦ elim (Bool-cases (leb max_leases (length ls))) [
    | inl full ↦ rw (Holds, q, full) tt
    | inr room ↦
        rw (Holds, q, room)
          (
            covered-append owner (now + ttl) r ls _ (
                inr (
                  ground
                    (arith, eq_iff owner owner, eq_iff r.path r.path, same_scope_refl r.scope))),
            λ t h. covered-append owner (now + ttl) t ls _ (inl h),
          )
  ]
  | inr (x, q) ↦
      rw (Holds, q)
        (extend_covers owner (now + ttl) r ls x q, λ t. covered-extend owner (now + ttl) r t ls)
]

acquire_all-covers :
    (next_id : ℕ → String) (n : ℕ) (owner : String) (now ttl : ℕ) (rs : List Target)
    (ls : List Lease)
    → Holds
        (λ out.
          All (λ r. is_covered owner (now + ttl) r out.1 ≡ true) rs
          × ((q : Target)
              → is_covered owner (now + ttl) q ls ≡ true
              → is_covered owner (now + ttl) q out.1 ≡ true))
        (acquire_all next_id n owner now ttl rs ls)
unfolding acquire_all
acquire_all-covers next_id n owner now ttl [] ls = (tt, λ q h. h)
acquire_all-covers next_id n owner now ttl (r ∷ rs) ls =
    Holds-bind _ (acquire_one (next_id n) owner now ttl r ls) _
      (acquire_one-covers (next_id n) owner now ttl r ls)
      (λ step (covers, keep).
        Holds-bind _ (acquire_all next_id (suc n) owner now ttl rs step.1) _
          (acquire_all-covers next_id (suc n) owner now ttl rs step.1)
          (λ later (all_cover, kept). ((kept r covers, all_cover), λ q h. kept q (keep q h))))

-- A covering lease is found by the test that guards a write.
blocked :
    (paths : Paths) (owner other : String) (at now : ℕ) (r w : Target) (ls : List Lease)
    → is_covered owner at r ls ≡ true
    → owner ≢ other
    → now < at
    → conflicts paths r w ≡ true
    → is_some (
        find
          (λ l. conflicts paths l.target w)
          (filter (λ l. not (l.owner_run_id == other)) (active now ls)))
      ≡ true
unfolding active
blocked paths owner other at now r w [] h o t c = absurd (ground arith)
blocked paths owner other at now r w (l ∷ ls) h o t c =
    elim (Bool-cases (is_own owner r l && leb at l.expires_at)) [
      | inl e ↦
          let (mine, same) = is_own_target owner r l (ground arith) in
          let hit : conflicts paths l.target w ≡ true = rw same c in
          ground (arith, eq_iff l.owner_run_id other)
      | inr e ↦ ground (arith, blocked paths owner other at now r w ls)
    ]

Holds-ok : {A : Type 0} (P : A → Type 0) (m : Result A) (a : A) → m ≡ ok a → Holds P m → P a
Holds-ok P m a e h = subst (Holds P) e h

All-at :
    {A : Type 0} (P : A → Type 0) (xs : List A) {x : A} (ys : List A) → All P (xs ++ x ∷ ys) → P x
All-at P [] ys (h, hs) = h
All-at P (y ∷ xs) ys (h, hs) = All-at P xs ys hs

check_write_blocked :
    (paths : Paths) (cwd name path : String) (foreign : List Lease)
    → canonical_path paths cwd name ≡ ok path
    → is_some (find (λ l. conflicts paths l.target (record { path = path; scope = file })) foreign)
      ≡ true
    → check_write paths cwd name foreign ≢ ok tt
unfolding check_write
check_write_blocked paths cwd name path [] c h e = absurd (ground arith)
check_write_blocked paths cwd name path (l ∷ ls) c h e = ground arith

-- On the leases that an acquisition gives, before they end, no other run may write to a file that
-- conflicts with one of the targets that were asked for.
acquire_update_blocks :
    (paths : Paths) (next_id : ℕ → String) (owner : String) (now ttl : ℕ)
    (before after : List Target) (r : Target) (ls acquired out : List Lease)
    (other cwd name path : String) (later : ℕ)
    → acquire_update paths next_id owner now ttl (before ++ r ∷ after) ls ≡ ok (acquired, out)
    → owner ≢ other
    → later < now + ttl
    → canonical_path paths cwd name ≡ ok path
    → conflicts paths r (record { path = path; scope = file }) ≡ true
    → assert_can_write paths cwd other name later (some out) ≢ ok tt
unfolding acquire_update assert_can_write read_state
acquire_update_blocks paths next_id owner now ttl before after r ls acquired out other cwd name path
      later e o t c hit w =
    let granted : acquire_all next_id 0 owner now ttl (before ++ r ∷ after) ls
        ≡ ok (acquired, out) =
      elim (Option-cases (first_conflict paths owner (before ++ r ∷ after) ls)) [
        | inl q ↦ ground arith
        | inr (l, q) ↦ absurd (ground arith)
      ] in
    let covers =
      Holds-ok _ _ _ granted
        (acquire_all-covers next_id 0 owner now ttl (before ++ r ∷ after) ls) in
    check_write_blocked paths cwd name path
      (filter (λ l. not (l.owner_run_id == other)) (active later out)) c
      (blocked paths owner other (now + ttl) later r (record { path = path; scope = file }) out
        (All-at (λ q. is_covered owner (now + ttl) q out ≡ true) before after covers.0) o t hit)
      (elim (Bool-cases (is_state paths out)) [
        | inl q ↦ ground arith
        | inr q ↦ absurd (ground arith)
      ])
