-- ===== src/Mesh/State/Atomic.antt =====
-- When compare-and-swap in mesh/store.ts is atomic, and when it is not.
use ultra_fabric.Prelude.{
  ℕ, ◌+◌, ◌≤◌, ◌<◌, ◌≡◌, ◌≢◌, refl, sym, ap, ◌∙◌, subst, ◌⊎◌, inl, inr, String, true, false, ◌||◌,
  not, Option, none, some, List, [], ◌∷◌, arith, eq_iff, eq_refl, ◌==◌, string_equality, is_some,
  lookup, All, Option-cases, Bool-cases,
}
use ultra_fabric.Mesh.Keys.{valid_key}
use ultra_fabric.Mesh.State.{
  Entry, StateFile, Put, Limits, ok, err, swap_failed, actual_version, put_entry, put_state, put,
  delete_state, delete,
}
use ultra_fabric.Mesh.State.Swap.{
  put_ok, put_state-versions, delete_state-versions, delete_state-lookup, put_state-lookup,
}
use ultra_fabric.Mesh.State.History.{
  Call, puts, deletes, step, run, put_cases, delete_cases, delete_keeps,
}
use ultra_fabric.Mesh.State.Versions.{IsWellFormed}

module _ {V : Type 0} where
  -- The call does not delete the key.
  abbrev pub Spares : String → Call V → Type 0
  Spares key (puts input now) = Unit
  Spares key (deletes other v) = (other == key) ≡ false

  -- The key has an entry, or no version is remembered for it.
  abbrev pub IsPlain : String → StateFile V → Type 0
  IsPlain key s = (is_some (lookup key s.entries) || not (is_some (lookup key s.versions))) ≡ true

  -- The entry of the key is still the same, or its version has grown.
  abbrev pub IsSince : String → StateFile V → StateFile V → Type 0
  IsSince key s t =
      (lookup key t.entries ≡ lookup key s.entries) × (actual_version t key ≡ actual_version s key)
      ⊎ actual_version s key < actual_version t key

  pub actual_live :
      (s : StateFile V) (key : String) (e : Entry V)
      → lookup key s.entries ≡ some e
      → actual_version s key ≡ e.version
  unfolding actual_version
  actual_live s key e h = ground arith

  pub actual_none :
      (s : StateFile V) (key : String)
      → lookup key s.entries ≡ none
      → lookup key s.versions ≡ none
      → actual_version s key ≡ 0
  unfolding actual_version
  actual_none s key h v = ground arith

  -- The same entry has the same version.
  actual_same :
      (s t : StateFile V) (key : String)
      → lookup key t.entries ≡ lookup key s.entries
      → IsPlain key s
      → IsPlain key t
      → actual_version t key ≡ actual_version s key
  actual_same s t key same plain plain' = elim (Option-cases (lookup key s.entries)) [
    | inl p ↦ actual_none t key (same ∙ p) (ground arith) ∙ sym (actual_none s key p (ground arith))
    | inr (e, p) ↦ actual_live t key e (same ∙ p) ∙ sym (actual_live s key e p)
  ]

module _ {V : Type 0} (limits : Limits V) (key : String) where
  -- What a call that does not delete the key does to it.
  abbrev Moves : StateFile V → StateFile V → Type 0
  Moves s t = IsPlain key t × IsSince key s t

  put-Moves :
      (s : StateFile V) (i : Put V) (now : ℕ)
      → IsPlain key s
      → Moves s (put_state limits s (put_entry limits s i now))
  put-Moves s i now plain =
      let e = put_entry limits s i now in
      let named : e.key ≡ i.key = unfold put_entry in refl in
      let next : e.version ≡ actual_version s i.key + 1 = unfold put_entry in refl in
      elim (Bool-cases (i.key == key)) [
        | inl here ↦
            let same : i.key ≡ key = ground (arith, eq_iff i.key key) in
            (
              ground (arith, put_state-lookup limits s e key, eq_iff e.key key),
              inr (
                  let live =
                    actual_live (put_state limits s e) key e
                      (ground (arith, put_state-lookup limits s e key, eq_iff e.key key)) in
                  let old : actual_version s i.key ≡ actual_version s key =
                    ap (actual_version s) same in
                  omega (arith, live, next, old)),
            )
        | inr other ↦
            let found : lookup key (put_state limits s e).entries ≡ lookup key s.entries =
              ground (arith, put_state-lookup limits s e key, eq_iff e.key key, eq_iff i.key key) in
            let plain' : IsPlain key (put_state limits s e) = ground (
              arith,
              found,
              put_state-versions limits s e key,
              eq_iff e.key key,
              eq_iff i.key key,
            ) in
            (plain', inl (found, actual_same s (put_state limits s e) key found plain plain'))
      ]

  delete-Moves :
      (s : StateFile V) (other : String) (version : ℕ)
      → (other == key) ≡ false
      → IsPlain key s
      → Moves s (delete_state limits s other version)
  delete-Moves s other version away plain =
      let t = delete_state limits s other version in
      let found : lookup key t.entries ≡ lookup key s.entries =
        ground (arith, delete_state-lookup limits s other version key, eq_iff other key) in
      let plain' : IsPlain key t =
        ground (arith, found, delete_state-versions limits s other version key, eq_iff other key) in
      (plain', inl (found, actual_same s t key found plain plain'))

  step-Moves :
      (s : StateFile V) (c : Call V) → Spares key c → IsPlain key s → Moves s (step limits s c)
  unfolding step
  step-Moves s (puts i now) spares plain = elim (put_cases limits s i now) [
    | inl e ↦ subst (Moves s) (sym e) (plain, inl (refl, refl))
    | inr e ↦ subst (Moves s) (sym e) (put-Moves s i now plain)
  ]
  step-Moves s (deletes other v) spares plain = elim (delete_cases limits s other v) [
    | inl e ↦ subst (Moves s) (sym e) (plain, inl (refl, refl))
    | inr (x, p, e) ↦ subst (Moves s) (sym e) (delete-Moves s other x.version spares plain)
  ]

  Moves-trans : (s t u : StateFile V) → Moves s t → Moves t u → Moves s u
  Moves-trans s t u (_, since) (plain, since') = (plain, ground arith)

  pub run-Moves :
      (s : StateFile V) (cs : List (Call V))
      → All (Spares key) cs
      → IsPlain key s
      → Moves s (run limits s cs)
  unfolding run
  run-Moves s [] spares plain = (plain, inl (refl, refl))
  run-Moves s (c ∷ cs) (h, hs) plain =
      let first = step-Moves s c h plain in
      Moves-trans s (step limits s c) _ first (run-Moves (step limits s c) cs hs first.0)

-- A write that names the version that was read, and that succeeds after calls of which none deletes
-- the key, finds the entry that was read.
pub swap_unchanged :
    {V : Type 0} (limits : Limits V) (s t : StateFile V) (cs : List (Call V)) (i : Put V) (now : ℕ)
    (e : Entry V)
    → IsPlain i.key s
    → All (Spares i.key) cs
    → i.if_version ≡ some (actual_version s i.key)
    → put limits (run limits s cs) i now ≡ ok (e, t)
    → lookup i.key (run limits s cs).entries ≡ lookup i.key s.entries
swap_unchanged limits s t cs i now e plain spares named h =
    let (_, fits, _, _) = put_ok limits (run limits s cs) t i now e h in
    elim (run-Moves limits i.key s cs spares plain).1 [
      | inl (same, _) ↦ same
      | inr grown ↦ absurd (ground arith)
    ]

delete_valid :
    {V : Type 0} (limits : Limits V) (s t : StateFile V) (key : String) (v : Option ℕ) (n : ℕ)
    → delete limits s key v ≡ ok (some n, t)
    → valid_key key ≡ true
unfolding delete
delete_valid limits s t key v n h = ground arith

-- A deletion keeps the version, so a write within the limits that names the version that was read
-- before the deletion succeeds after it: the deleted entry comes back.
pub put_after_delete :
    {V : Type 0} (limits : Limits V) (s t : StateFile V) (i : Put V) (now n : ℕ)
    → IsWellFormed limits s
    → 0 < limits.max_state_tombstones
    → delete limits s i.key (some n) ≡ ok (some n, t)
    → i.if_version ≡ some n
    → limits.value_bytes i.value ≤ limits.max_event_bytes
    → limits.state_bytes (put_state limits t (put_entry limits t i now)) ≤ limits.max_state_bytes
    → let e = put_entry limits t i now in
      let u = put_state limits t e in
      (lookup i.key t.entries ≡ none)
      × (put limits t i now ≡ ok (e, u))
      × (lookup i.key u.entries ≡ some e)
unfolding put put_entry
put_after_delete limits s t i now n w room h named small fits =
    let (gone, _, same) = delete_keeps limits s t i.key (some n) n w room h in
    let valid : valid_key i.key ≡ true = delete_valid limits s t i.key (some n) n h in
    (
      gone,
      ground arith,
      ground (arith, put_state-lookup limits t (put_entry limits t i now) i.key, eq_refl i.key),
    )

-- A deletion that finds an entry takes it away and no other. The next writes go on from its version: one
-- that names another version is refused with both, and one that succeeds has the version after it.
pub delete_remembers :
    {V : Type 0} (limits : Limits V) (s t : StateFile V) (key : String) (v : Option ℕ) (n : ℕ)
    → IsWellFormed limits s
    → 0 < limits.max_state_tombstones
    → delete limits s key v ≡ ok (some n, t)
    → (lookup key t.entries ≡ none)
      × ((k : String) → k ≢ key → lookup k t.entries ≡ lookup k s.entries)
      × ((i : Put V) (now m : ℕ)
          → i.key ≡ key
          → i.if_version ≡ some m
          → m ≢ n
          → limits.value_bytes i.value ≤ limits.max_event_bytes
          → put limits t i now ≡ err (swap_failed m n))
      × ((i : Put V) (now : ℕ) (e : Entry V) (u : StateFile V)
          → i.key ≡ key
          → put limits t i now ≡ ok (e, u)
          → e.version ≡ n + 1)
unfolding put put_entry
delete_remembers limits s t key v n w room h =
    let (gone, others, kept) = delete_keeps limits s t key v n w room h in
    let valid : valid_key key ≡ true = delete_valid limits s t key v n h in
    (
      gone,
      others,
      (λ i now m named swap other small.
          let found : actual_version t i.key ≡ n = ap (actual_version t) named ∙ kept in
          let good : valid_key i.key ≡ true = ap valid_key named ∙ valid in ground arith),
      λ i now e u named fits.
          let found : actual_version t i.key ≡ n = ap (actual_version t) named ∙ kept in
          let (_, _, made, _) = put_ok limits t u i now e fits in ground arith,
    )
