-- ===== src/Leases.antt =====
-- leases/path-leases.ts: leases on files and trees, kept under one key of the mesh state. Node's path
-- functions and the file system are a parameter.
pub mod Exclusion
pub mod Guard
pub mod Runs
pub mod Store
mod Tests
mod StoreTests
pub mod Requests
use ultra_fabric.Prelude.{
  ℕ, suc, ◌+◌, String, Bool, true, false, ◌&&◌, ◌||◌, not, Option, none, some, List, [], ◌∷◌, ◌++◌,
  min, max, ltb, leb, ◌==◌, string_equality, if◌then◌else◌, length, filter, find, any, all, map,
  includes, non_empty, trim, text_length, slice_start, or_default, is_some, take,
}

-- `node:path` and the part of `canonicalPath` that asks the file system.
pub record Paths : Type 0 where
  pub relative : String → String → String
  pub is_absolute : String → Bool
  pub starts_with_parent : String → Bool
  pub resolve_real : String → String → String

pub data Scope : Type 0 where
  file tree : Scope

abbrev pub is_tree : Scope → Bool
is_tree file = false
is_tree tree = true

abbrev pub same_scope : Scope → Scope → Bool
same_scope file file = true
same_scope tree tree = true
same_scope _ _ = false

-- What is leased: the `path` and `scope` of a lease or a request.
pub record Target : Type 0 where
  pub path : String
  pub scope : Scope

pub record Lease : Type 0 where
  pub id : String
  pub owner_run_id : String
  pub target : Target
  pub acquired_at : ℕ
  pub expires_at : ℕ

pub data Error : Type 0 where
  invalid_path no_owner path_count overlapping_request capacity invalid_state not_owner : Error
  conflict : Lease → Error

pub data Result {ℓ} (A : Type ℓ) : Type ℓ where
  ok : A → Result A
  err : Error → Result A

infixl 5 ◌>>=◌
abbrev pub ◌>>=◌ {ℓ κ} : {A : Type ℓ} {B : Type κ} → Result A → (A → Result B) → Result B
ok a >>= f = f a
err e >>= f = err e

abbrev pub max_leases : ℕ
max_leases = 32

-- `value.trim()`, without a leading `@`.
strip_at : String → String
strip_at String.[] = ""
strip_at (String.◌∷◌ c s) = if String.◌∷◌ c String.[] == "@" then s else String.◌∷◌ c s

-- The leases that have not expired.
unfoldable pub active : ℕ → List Lease → List Lease
active now leases = filter (λ l. ltb now l.expires_at) leases

module _ (paths : Paths) where
  -- `starts_with_parent` is the test `startsWith(".." + path.sep)`.
  unfoldable pub within : String → String → Bool
  within root target =
      let relative = paths.relative root target in
      relative == ""
      || (not (paths.starts_with_parent relative)
          && not (relative == "..")
          && not (paths.is_absolute relative))

  unfoldable pub conflicts : Target → Target → Bool
  conflicts left right =
      left.path == right.path
      || (is_tree left.scope && within left.path right.path)
      || (is_tree right.scope && within right.path left.path)

  unfoldable pub canonical_path : String → String → Result String
  unfolding strip_at
  canonical_path cwd value =
      let trimmed = trim value in
      if not (non_empty trimmed) || ltb 4_096 (text_length trimmed)
      then err invalid_path
      else ok (paths.resolve_real cwd (strip_at trimmed))

  unfoldable pub is_lease : Lease → Bool
  is_lease l = non_empty l.id && non_empty l.owner_run_id && paths.is_absolute l.target.path

  -- Of two entries of the list some pair conflicts.
  unfoldable pub overlaps : List Target → Bool
  overlaps [] = false
  overlaps (r ∷ rs) =
      any (λ other. conflicts r other) rs || any (λ other. conflicts other r) rs || overlaps rs

  -- The first foreign lease that conflicts with a target.
  unfoldable pub foreign_conflict : String → Target → List Lease → Option Lease
  foreign_conflict owner request leases =
      find (λ l. not (l.owner_run_id == owner) && conflicts l.target request) leases

  unfoldable pub first_conflict : String → List Target → List Lease → Option Lease
  first_conflict owner [] leases = none
  first_conflict owner (r ∷ rs) leases =
      let rest = first_conflict owner rs leases in
      elim (foreign_conflict owner r leases) [ none ↦ rest | some l ↦ some l ]

-- Is the lease that of the owner for exactly the request?
abbrev pub is_own : String → Target → Lease → Bool
is_own owner request l =
    l.owner_run_id == owner
    && l.target.path == request.path
    && same_scope l.target.scope request.scope

-- The first own lease for the request gets a new end.
unfoldable pub extend_own : String → Target → ℕ → List Lease → List Lease
extend_own owner request expires_at [] = []
extend_own owner request expires_at (l ∷ ls) =
    let rest = extend_own owner request expires_at ls in
    if is_own owner request l then record l { expires_at = expires_at } ∷ ls else l ∷ rest

-- One round of the loop over the requests: the lease that it gives, and the leases afterwards.
unfoldable pub acquire_one :
    String → String → ℕ → ℕ → Target → List Lease → Result (Lease × List Lease)
acquire_one id owner now ttl request leases = elim (find (is_own owner request) leases) [
  | some l ↦ ok (record l { expires_at = now + ttl }, extend_own owner request (now + ttl) leases)
  | none ↦
      if leb max_leases (length leases)
      then err capacity
      else let lease : Lease = record {
        id = id;
        owner_run_id = owner;
        target = request;
        acquired_at = now;
        expires_at = now + ttl;
      } in
        ok (lease, leases ++ lease ∷ [])
]

-- The id of the n-th request's lease, if it needs one, is `next_id n`.
unfoldable pub acquire_all :
    (ℕ → String) → ℕ → String → ℕ → ℕ → List Target → List Lease → Result (List Lease × List Lease)
acquire_all next_id n owner now ttl [] leases = ok ([], leases)
acquire_all next_id n owner now ttl (r ∷ rs) leases =
    let rest = acquire_all next_id (suc n) owner now ttl rs in
    acquire_one (next_id n) owner now ttl r leases >>= λ step.
    rest step.1 >>= λ later. ok (step.0 ∷ later.0, later.1)

module _ (paths : Paths) where
  -- The update that `acquire` hands to `#mutate`: what it acquires, and the leases to be written.
  unfoldable pub acquire_update :
      (ℕ → String) → String → ℕ → ℕ → List Target → List Lease → Result (List Lease × List Lease)
  acquire_update next_id owner now ttl requested leases =
      elim (first_conflict paths owner requested leases) [
        | some l ↦ err (conflict l)
        | none ↦ acquire_all next_id 0 owner now ttl requested leases
      ]
