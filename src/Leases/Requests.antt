-- ===== src/Leases/Requests.antt =====
-- The calls of leases/path-leases.ts: `acquire`, `release`, `forceRelease` and `assertCanWrite`, as the
-- updates that they make to the leases that are read.
use ultra_fabric.Prelude.{
  ℕ, String, unique, Bool, ◌&&◌, ◌||◌, not, Option, none, some, List, [], ◌∷◌, min, max, ltb, leb,
  nat_beq, ◌==◌, string_equality, if◌then◌else◌, length, filter, find, all, map, includes, take,
  non_empty, trim, slice_start,
}
use ultra_fabric.Leases.{
  Paths, file, Target, Lease, no_owner, path_count, overlapping_request, invalid_state, not_owner,
  conflict, Result, ok, err, ◌>>=◌, max_leases, active, conflicts, canonical_path, is_lease,
  overlaps, acquire_update,
}

pub record Acquire : Type 0 where
  pub owner_run_id : String
  pub paths : List Target
  pub ttl : ℕ

-- The first requested id whose lease another run owns.
unfoldable pub not_owned : String → List String → List Lease → Option String
not_owned owner [] leases = none
not_owned owner (id ∷ ids) leases =
    let rest = not_owned owner ids leases in
    elim (find (λ l. l.id == id) leases) [
      | none ↦ rest
      | some l ↦ if l.owner_run_id == owner then rest else some id
    ]

-- The update of `release`: the ids that it releases, and the leases to be written.
unfoldable pub release_update :
    String → List String → List Lease → Result (List String × List Lease)
release_update owner ids leases =
    let requested = take 32 (unique ids) in
    elim (not_owned owner requested leases) [
      | some id ↦ err not_owner
      | none ↦
          let released =
            map (λ l. l.id)
              (filter (λ l. includes l.id requested && l.owner_run_id == owner) leases) in
          ok (released, filter (λ l. not (includes l.id released)) leases)
    ]

abbrev pub or_empty : Result (List Lease) → List Lease
or_empty (ok leases) = leases
or_empty (err e) = []

abbrev pub removed_ids : Option (List String) → List Lease → List String
removed_ids none leases = map (λ l. l.id) leases
removed_ids (some ids) leases = map (λ l. l.id) (filter (λ l. includes l.id ids) leases)

module _ (paths : Paths) where
  unfoldable pub is_state : List Lease → Bool
  is_state leases = leb (length leases) max_leases && all (is_lease paths) leases

  -- `#state`, on the leases of the entry that is read.
  unfoldable pub read_state : Option (List Lease) → Result (List Lease)
  read_state none = ok []
  read_state (some leases) = if is_state leases then ok leases else err invalid_state

  -- The update of `forceRelease`, which takes an unreadable state for an empty one.
  unfoldable pub force_release_update :
      Option (List String) → Option (List Lease) → List String × List Lease
  force_release_update ids entry =
      let current = or_empty (read_state entry) in
      let removed = removed_ids ids current in
      (removed, filter (λ l. not (includes l.id removed)) current)

  unfoldable pub canonical_targets : String → List Target → Result (List Target)
  canonical_targets cwd [] = ok []
  canonical_targets cwd (t ∷ ts) =
      let rest = canonical_targets cwd ts in
      canonical_path paths cwd t.path >>= λ path.
      rest >>= λ later. ok (record { path = path; scope = t.scope } ∷ later)

  unfoldable pub clamp_ttl : ℕ → ℕ
  clamp_ttl ttl = max 1_000 (min 86_400_000 ttl)

  -- `acquire`, with the leases of the entry that is read.
  unfoldable pub acquire :
      String → (ℕ → String) → ℕ → Acquire → Option (List Lease) → Result (List Lease × List Lease)
  acquire cwd next_id now input entry =
      let owner = slice_start 256 (trim input.owner_run_id) in
      if not (non_empty owner)
      then err no_owner
      else if ltb (length input.paths) 1 || ltb 32 (length input.paths)
      then err path_count
      else canonical_targets cwd input.paths >>= λ requested.
          if overlaps paths requested
          then err overlapping_request
          else read_state entry >>= λ leases.
              acquire_update paths next_id owner now (clamp_ttl input.ttl) requested
                (active now leases)

  -- The test that `assertCanWrite` makes of the foreign leases.
  unfoldable pub check_write : String → String → List Lease → Result (Unit {0})
  check_write cwd target foreign =
      if nat_beq (length foreign) 0
      then ok tt
      else canonical_path paths cwd target >>= λ path.
          let write : Target = record { path = path; scope = file } in
          elim (find (λ l. conflicts paths l.target write) foreign) [
            | none ↦ ok tt
            | some l ↦ err (conflict l)
          ]

  unfoldable pub assert_can_write :
      String → String → String → ℕ → Option (List Lease) → Result (Unit {0})
  assert_can_write cwd owner target now entry = read_state entry >>= λ leases.
      check_write cwd target (filter (λ l. not (l.owner_run_id == owner)) (active now leases))
