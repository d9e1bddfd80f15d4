-- ===== src/Mesh/State/Versions.antt =====
-- The versions of mesh/store.ts across writes and deletions.
use ultra_fabric.Prelude.{
  ℕ, ◌≤◌, ◌≡◌, refl, String, true, ◌||◌, none, some, arith, string_equality, if◌then◌else◌, length,
  lookup, includes,
}
use ultra_fabric.Mesh.State.{
  Entry, StateFile, Limits, is_live, is_tombstone, ordered_tombstones, compact_tombstones,
  take_last,
}
use ultra_fabric.Mesh.State.Tombstones.{lookup-retain_versions, length-take_last-le}

-- A live key has its entry's version, and every other key with a version, whose name no object inherits,
-- is in the tombstone order.
pub record IsWellFormed {V : Type 0} (limits : Limits V) (s : StateFile V) : Type 0 where
  pub live :
      (k : String) (e : Entry V)
      → lookup k s.entries ≡ some e
      → (e.key ≡ k) × (lookup k s.versions ≡ some e.version)
  pub ordered :
      (k : String)
      → is_tombstone s.entries s.versions k ≡ true
      → includes k s.tombstone_order ≡ true
  pub bounded : length s.tombstone_order ≤ limits.max_state_tombstones

module _ {V : Type 0} (limits : Limits V) where
  pub compact-lookup :
      (k : String) (n : ℕ) (s : StateFile V)
      → lookup k (compact_tombstones n s).versions ≡ (
          if is_live s.entries k || includes k (compact_tombstones n s).tombstone_order
          then lookup k s.versions
          else none)
  unfolding compact_tombstones
  compact-lookup k n s =
      lookup-retain_versions k s.entries (take_last n (ordered_tombstones s)) s.versions

  pub compact-entries : (n : ℕ) (s : StateFile V) → (compact_tombstones n s).entries ≡ s.entries
  unfolding compact_tombstones
  compact-entries n s = refl

  pub compact-IsWellFormed :
      (s : StateFile V)
      → ((k : String) (e : Entry V)
          → lookup k s.entries ≡ some e
          → (e.key ≡ k) × (lookup k s.versions ≡ some e.version))
      → IsWellFormed limits (compact_tombstones limits.max_state_tombstones s)
  compact-IsWellFormed s h =
      let n = limits.max_state_tombstones in
      record {
        live = λ k e p.
            let (a, b) = h k e (rw compact-entries at p) in
            (a, ground (arith, compact-lookup k n s, compact-entries n s));
        ordered = λ k p. ground (arith, compact-lookup k n s, compact-entries n s);
        bounded = unfold compact_tombstones in length-take_last-le n (ordered_tombstones s);
      }
