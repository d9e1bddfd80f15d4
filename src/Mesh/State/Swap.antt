-- ===== src/Mesh/State/Swap.antt =====
-- Compare-and-swap in mesh/store.ts: what a write returns, and what later readers and writers see.
use ultra_fabric.Prelude.{
  ℕ, ◌+◌, ◌≤◌, ◌≡◌, refl, ◌≢◌, String, true, false, ◌||◌, none, some, [], ◌∷◌, ◌++◌, arith, eq_iff,
  ◌==◌, string_equality, if◌then◌else◌, lookup, insert, remove, includes, lookup-insert,
  lookup-remove, ap, ◌∙◌,
}
use ultra_fabric.Mesh.Keys.{valid_key}
use ultra_fabric.Mesh.State.{
  Entry, StateFile, is_live, Put, Limits, ok, err, swap_failed, actual_version, put_entry,
  put_state, put, delete_state, get, without, mismatches,
}
use ultra_fabric.Mesh.State.Versions.{
  IsWellFormed, compact-lookup, compact-entries, compact-IsWellFormed,
}

module _ {V : Type 0} (limits : Limits V) where
  -- The parts of a write that succeeds.
  pub put_ok :
      (s t : StateFile V) (i : Put V) (now : ℕ) (e : Entry V)
      → put limits s i now ≡ ok (e, t)
      → (valid_key i.key ≡ true)
        × (mismatches i.if_version (actual_version s i.key) ≡ false)
        × (e ≡ put_entry limits s i now)
        × (t ≡ put_state limits s e)
  unfolding put
  put_ok s t i now e h = (ground arith, ground arith, ground arith, ground arith)

  pub put_state-lookup :
      (s : StateFile V) (e : Entry V) (k : String)
      → lookup k (put_state limits s e).entries
        ≡ (if e.key == k then some e else lookup k s.entries)
  unfolding put_state
  put_state-lookup s e k = ground (
    arith,
    compact-entries limits limits.max_state_tombstones (record {
      entries = insert e.key e s.entries;
      versions = insert e.key e.version s.versions;
      tombstone_order = without e.key s.tombstone_order;
    }),
    lookup-insert e.key k e s.entries,
  )

  pub put_state-versions :
      (s : StateFile V) (e : Entry V) (k : String)
      → let t = put_state limits s e in
        lookup k t.versions ≡ (
          if is_live t.entries k || includes k t.tombstone_order
          then if e.key == k then some e.version else lookup k s.versions
          else none)
  unfolding put_state
  put_state-versions s e k =
      compact-lookup limits k limits.max_state_tombstones _
      ∙ ground (
        arith,
        lookup-insert e.key k e.version s.versions,
        compact-entries limits limits.max_state_tombstones (record {
          entries = insert e.key e s.entries;
          versions = insert e.key e.version s.versions;
          tombstone_order = without e.key s.tombstone_order;
        }),
      )

  pub delete_state-lookup :
      (s : StateFile V) (key : String) (version : ℕ) (k : String)
      → lookup k (delete_state limits s key version).entries
        ≡ (if key == k then none else lookup k s.entries)
  unfolding delete_state
  delete_state-lookup s key version k =
      ap (lookup k) (compact-entries limits _ _) ∙ lookup-remove key k s.entries

  pub delete_state-versions :
      (s : StateFile V) (key : String) (version : ℕ) (k : String)
      → let t = delete_state limits s key version in
        lookup k t.versions ≡ (
          if is_live t.entries k || includes k t.tombstone_order
          then if key == k then some version else lookup k s.versions
          else none)
  unfolding delete_state
  delete_state-versions s key version k =
      compact-lookup limits k limits.max_state_tombstones _
      ∙ ground (
        arith,
        lookup-insert key k version s.versions,
        compact-entries limits limits.max_state_tombstones (record {
          entries = remove key s.entries;
          versions = insert key version s.versions;
          tombstone_order = without key s.tombstone_order ++ key ∷ [];
        }),
      )

  -- A write that succeeds is read back, under the version after the one it found, and every other key
  -- is read as before.
  pub get-put :
      (s t : StateFile V) (i : Put V) (now : ℕ) (e : Entry V)
      → put limits s i now ≡ ok (e, t)
      → (e.value ≡ i.value)
        × (e.version ≡ actual_version s i.key + 1)
        × (get limits t i.key ≡ ok (some e))
        × ((k : String) → k ≢ i.key → get limits t k ≡ get limits s k)
  unfolding get
  get-put s t i now e h =
      let (valid, _, same, written) = put_ok s t i now e h in
      let named : e.key ≡ i.key = rw same (unfold put_entry in refl) in
      (
        rw same (unfold put_entry in refl),
        rw same (unfold put_entry in refl),
        ground (arith, put_state-lookup s e i.key, eq_iff e.key i.key),
        λ k other. ground (arith, put_state-lookup s e k, eq_iff e.key k),
      )

  pub actual_version-put :
      (s t : StateFile V) (i : Put V) (now : ℕ) (e : Entry V)
      → put limits s i now ≡ ok (e, t)
      → actual_version t i.key ≡ actual_version s i.key + 1
  unfolding actual_version
  actual_version-put s t i now e h =
      let (valid, _, same, written) = put_ok s t i now e h in
      let named : e.key ≡ i.key = rw same (unfold put_entry in refl) in
      let next : e.version ≡ actual_version s i.key + 1 = rw same (unfold put_entry in refl) in
      ground (arith, put_state-lookup s e i.key, eq_iff e.key i.key)

  -- Of two writers that read the same version of a key, the second to write, with a value that is not too
  -- large, is refused, with the version that the first one wrote.
  pub put_lost_race :
      (s t : StateFile V) (i j : Put V) (now later : ℕ) (e : Entry V)
      → put limits s i now ≡ ok (e, t)
      → j.key ≡ i.key
      → j.if_version ≡ some (actual_version s i.key)
      → limits.value_bytes j.value ≤ limits.max_event_bytes
      → put limits t j later
        ≡ err (swap_failed (actual_version s i.key) (actual_version s i.key + 1))
  unfolding put
  put_lost_race s t i j now later e h k v fits =
      ground (arith, actual_version-put s t i now e h, (put_ok s t i now e h).0)

  pub put_state-IsWellFormed :
      (s : StateFile V) (e : Entry V)
      → IsWellFormed limits s
      → IsWellFormed limits (put_state limits s e)
  unfolding put_state
  put_state-IsWellFormed s e w = compact-IsWellFormed limits _ λ k x p. ground (
    arith,
    lookup-insert e.key k e s.entries,
    lookup-insert e.key k e.version s.versions,
    eq_iff e.key k,
    w.live k x,
  )

  pub delete_state-IsWellFormed :
      (s : StateFile V) (key : String) (version : ℕ)
      → IsWellFormed limits s
      → IsWellFormed limits (delete_state limits s key version)
  unfolding delete_state
  delete_state-IsWellFormed s key version w = compact-IsWellFormed limits _ λ k x p. ground (
    arith,
    lookup-remove key k s.entries,
    lookup-insert key k version s.versions,
    eq_iff key k,
    w.live k x,
  )
