-- ===== src/Mesh/State/History.antt =====
-- The state of mesh/store.ts over a history of writes and deletions.
use ultra_fabric.Prelude.{
  includes-append_one, ℕ, ◌≤◌, ◌<◌, ◌≡◌, refl, ◌≢◌, ◌⊎◌, inl, inr, String, true, Option, none, some,
  List, [], ◌∷◌, ◌++◌, arith, eq_iff, eq_refl, string_equality, is_some, lookup, insert, remove,
  ◌||◌, includes, lookup-insert, lookup-remove, Option-cases, Bool-cases, subst, sym,
}
use ultra_fabric.Mesh.Keys.{valid_key}
use ultra_fabric.Mesh.State.{
  Entry, StateFile, is_inherited, Put, Limits, Result, ok, err, actual_version, put_entry,
  put_state, put, delete_state, delete_entry, delete, without, empty,
}
use ultra_fabric.Mesh.State.Tombstones.{last_retained, includes-without_other}
use ultra_fabric.Mesh.State.Versions.{IsWellFormed}
use ultra_fabric.Mesh.State.Swap.{
  put_state-versions, delete_state-versions, delete_state-lookup, put_state-lookup,
  put_state-IsWellFormed, delete_state-IsWellFormed,
}

pub data Call (V : Type 0) : Type 0 where
  puts : Put V → (now : ℕ) → Call V
  deletes : (key : String) → (if_version : Option ℕ) → Call V

-- A call that throws writes nothing.
abbrev pub after {ℓ} :
    {A : Type ℓ} {V : Type 0} → StateFile V → Result (A × StateFile V) → StateFile V
after s (ok (_, t)) = t
after s (err e) = s

module _ {V : Type 0} (limits : Limits V) where
  unfoldable pub step : StateFile V → Call V → StateFile V
  step s (puts input now) = after s (put limits s input now)
  step s (deletes key if_version) = after s (delete limits s key if_version)

  unfoldable pub run : StateFile V → List (Call V) → StateFile V
  run s [] = s
  run s (c ∷ cs) = run (step s c) cs

  empty-IsWellFormed : IsWellFormed limits empty
  unfolding empty lookup includes
  empty-IsWellFormed = record {
    live = λ k e p. absurd (cc p);
    ordered = λ k p. absurd (cc p);
    bounded = omega arith;
  }

  pub put_cases :
      (s : StateFile V) (i : Put V) (now : ℕ)
      → (after s (put limits s i now) ≡ s)
        ⊎ (after s (put limits s i now) ≡ put_state limits s (put_entry limits s i now))
  unfolding put
  put_cases s i now = ground arith

  delete_some_cases :
      (s : StateFile V) (key : String) (v : Option ℕ) (e : Entry V)
      → (after s (delete_entry limits s key v (some e)) ≡ s)
        ⊎ (after s (delete_entry limits s key v (some e)) ≡ delete_state limits s key e.version)
  unfolding delete_entry
  delete_some_cases s key v e = ground arith

  delete_none-after :
      (s : StateFile V) (key : String) (v : Option ℕ)
      → after s (delete_entry limits s key v none) ≡ s
  unfolding delete_entry
  delete_none-after s key v = ground arith

  pub delete_cases :
      (s : StateFile V) (key : String) (v : Option ℕ)
      → (after s (delete limits s key v) ≡ s)
        ⊎ ((e : Entry V) × (lookup key s.entries ≡ some e)
            × (after s (delete limits s key v) ≡ delete_state limits s key e.version))
  unfolding delete
  delete_cases s key v = elim (Bool-cases (valid_key key)) [
    | inr bad ↦ inl (rw bad)
    | inl good ↦ elim (Option-cases (lookup key s.entries)) [
      | inl e ↦ inl (rw (good, e) (delete_none-after s key v))
      | inr (e, p) ↦ elim (delete_some_cases s key v e) [
        | inl q ↦ inl (rw (good, p) q)
        | inr q ↦ inr (e, p, rw (good, p) q)
      ]
    ]
  ]

  step-IsWellFormed :
      (s : StateFile V) (c : Call V) → IsWellFormed limits s → IsWellFormed limits (step s c)
  unfolding step
  step-IsWellFormed s (puts input now) w = elim (put_cases s input now) [
    | inl e ↦ subst (IsWellFormed limits) (sym e) w
    | inr e ↦ subst (IsWellFormed limits) (sym e) (put_state-IsWellFormed limits s _ w)
  ]
  step-IsWellFormed s (deletes key v) w = elim (delete_cases s key v) [
    | inl e ↦ subst (IsWellFormed limits) (sym e) w
    | inr (x, p, e) ↦
        subst (IsWellFormed limits) (sym e) (delete_state-IsWellFormed limits s key x.version w)
  ]

  run_from-IsWellFormed :
      (s : StateFile V) (cs : List (Call V))
      → IsWellFormed limits s
      → IsWellFormed limits (run s cs)
  unfolding run
  run_from-IsWellFormed s [] w = w
  run_from-IsWellFormed s (c ∷ cs) w = run_from-IsWellFormed (step s c) cs (step-IsWellFormed s c w)

  -- After any writes and deletions from the empty state, failed ones included, every live key has its
  -- entry's version, every other key with a version, whose name no object inherits, is in the tombstone
  -- order, and that order is within its limit.
  pub run-IsWellFormed : (cs : List (Call V)) → IsWellFormed limits (run empty cs)
  run-IsWellFormed cs = run_from-IsWellFormed empty cs empty-IsWellFormed

  put-grows :
      (s : StateFile V) (i : Put V) (now : ℕ) (k : String)
      → let t = put_state limits s (put_entry limits s i now) in
        is_some (lookup k t.versions) ≡ true → actual_version s k ≤ actual_version t k
  unfolding put_entry actual_version
  put-grows s i now k h = ground (
    arith,
    put_state-lookup limits s (put_entry limits s i now) k,
    put_state-versions limits s (put_entry limits s i now) k,
    eq_iff i.key k,
  )

  delete-grows :
      (s : StateFile V) (key : String) (e : Entry V) (k : String)
      → lookup key s.entries ≡ some e
      → let t = delete_state limits s key e.version in
        is_some (lookup k t.versions) ≡ true → actual_version s k ≤ actual_version t k
  unfolding actual_version
  delete-grows s key e k p h = ground (
    arith,
    delete_state-lookup limits s key e.version k,
    delete_state-versions limits s key e.version k,
    eq_iff key k,
  )

  -- As long as the version of a key is remembered, no call makes the key's version go back.
  actual_version-le-step :
      (s : StateFile V) (c : Call V) (k : String)
      → is_some (lookup k (step s c).versions) ≡ true
      → actual_version s k ≤ actual_version (step s c) k
  unfolding step
  actual_version-le-step s (puts i now) k h = elim (put_cases s i now) [
    | inl e ↦ rw e (omega arith)
    | inr e ↦ rw e (put-grows s i now k (rw e at h))
  ]
  actual_version-le-step s (deletes key v) k h = elim (delete_cases s key v) [
    | inl e ↦ rw e (omega arith)
    | inr (x, p, e) ↦ rw e (delete-grows s key x k p (rw e at h))
  ]

  delete_ok :
      (s t : StateFile V) (key : String) (v : Option ℕ) (n : ℕ)
      → delete limits s key v ≡ ok (some n, t)
      → (e : Entry V) × (lookup key s.entries ≡ some e)
        × (e.version ≡ n)
        × (t ≡ delete_state limits s key n)
  unfolding delete delete_entry
  delete_ok s t key v n h = elim (Option-cases (lookup key s.entries)) [
    | inl p ↦ absurd (ground arith)
    | inr (e, p) ↦ (e, p, ground arith, ground arith)
  ]

  delete_state_remembers :
      (s : StateFile V) (key : String) (n : ℕ)
      → IsWellFormed limits s
      → 0 < limits.max_state_tombstones
      → (is_inherited key || includes key (delete_state limits s key n).tombstone_order) ≡ true
  unfolding delete_state
  delete_state_remembers s key n w pos = elim (Bool-cases (is_inherited key)) [
    | inl named ↦ rw named refl
    | inr plain ↦
        let retained =
          last_retained
            (record {
              entries = remove key s.entries;
              versions = insert key n s.versions;
              tombstone_order = without key s.tombstone_order ++ key ∷ [];
            })
            key s.tombstone_order refl
            (ground (
              arith,
              plain,
              lookup-remove key key s.entries,
              lookup-insert key key n s.versions,
              eq_refl key,
            ))
            (λ k dead. ground (
              arith,
              lookup-remove key k s.entries,
              lookup-insert key k n s.versions,
              includes-append_one k key (without key s.tombstone_order),
              includes-without_other k key s.tombstone_order,
              w.ordered k,
            ))
            limits.max_state_tombstones pos in
        rw (plain, retained) refl
  ]

  -- A deletion that finds an entry takes it away and no other, and keeps its version.
  pub delete_keeps :
      (s t : StateFile V) (key : String) (v : Option ℕ) (n : ℕ)
      → IsWellFormed limits s
      → 0 < limits.max_state_tombstones
      → delete limits s key v ≡ ok (some n, t)
      → (lookup key t.entries ≡ none)
        × ((k : String) → k ≢ key → lookup k t.entries ≡ lookup k s.entries)
        × (actual_version t key ≡ n)
  unfolding actual_version
  delete_keeps s t key v n w pos h =
      let (e, found, same, written) = delete_ok s t key v n h in
      let gone = delete_state-lookup limits s key n key in
      let kept = delete_state-versions limits s key n key in
      let retained = delete_state_remembers s key n w pos in
      rw written (
        ground (arith, gone, eq_refl key),
        (λ k other. ground (arith, delete_state-lookup limits s key n k, eq_iff key k)),
        ground (arith, gone, kept, retained, eq_refl key),
      )
