-- ===== src/Mesh/State/Tombstones.antt =====
-- Which versions the compaction of mesh/store.ts keeps.
use ultra_fabric.Prelude.{
  includes-append_one, ℕ, suc, ◌-◌, ◌≤◌, ◌<◌, ◌≡◌, refl, inl, inr, String, true, false, ◌&&◌, ◌||◌,
  not, none, List, [], ◌∷◌, ◌++◌, arith, eq_iff, ◌==◌, string_equality, if◌then◌else◌, is_some,
  length, zero, Bool-cases, eq_refl, ap, ◌∙◌, length-append, length-drop, drop, Dict, lookup, keys,
  includes,
}
use ultra_fabric.Mesh.State.{
  Entry, StateFile, is_live, is_tombstone, collect, ordered_tombstones, retain_versions,
  compact_tombstones, take_last, without,
}

includes-keys : {V : Type 0} (k : String) (m : Dict V) → includes k (keys m) ≡ is_some (lookup k m)
unfolding includes lookup
includes-keys k [] = refl
includes-keys k ((j, v) ∷ m) = ground (arith, includes-keys k m)

module _ {V : Type 0} where
  -- The loop adds the tombstones of the list that it has not seen.
  includes-collect :
      (k : String) (es : Dict (Entry V)) (vs : Dict ℕ) (seen ks : List String)
      → includes k (collect es vs seen ks)
        ≡ (includes k seen || (is_tombstone es vs k && includes k ks))
  unfolding includes collect
  includes-collect k es vs seen [] = ground arith
  includes-collect k es vs seen (x ∷ ks) = ground (
    arith,
    includes-collect k es vs (seen ++ x ∷ []) ks,
    includes-collect k es vs seen ks,
    includes-append_one k x seen,
    eq_iff x k,
  )

  pub includes-ordered_tombstones :
      (k : String) (s : StateFile V)
      → includes k (ordered_tombstones s) ≡ is_tombstone s.entries s.versions k
  unfolding ordered_tombstones includes
  includes-ordered_tombstones k s = ground (
    arith,
    includes-collect k s.entries s.versions [] s.tombstone_order,
    includes-collect k s.entries s.versions (collect s.entries s.versions [] s.tombstone_order)
        (keys s.versions),
    includes-keys k s.versions,
  )

  pub lookup-retain_versions :
      (k : String) (es : Dict (Entry V)) (retained : List String) (vs : Dict ℕ)
      → lookup k (retain_versions es retained vs)
        ≡ (if is_live es k || includes k retained then lookup k vs else none)
  unfolding lookup retain_versions
  lookup-retain_versions k es retained [] = ground arith
  lookup-retain_versions k es retained ((j, v) ∷ vs) =
      ground (arith, lookup-retain_versions k es retained vs, eq_iff j k)

  -- A second pass over keys that are seen or no tombstones adds nothing.
  collect_saturated :
      (es : Dict (Entry V)) (vs : Dict ℕ) (seen ks : List String)
      → ((k : String) → is_tombstone es vs k ≡ true → includes k seen ≡ true)
      → collect es vs seen ks ≡ seen
  unfolding collect
  collect_saturated es vs seen [] h = refl
  collect_saturated es vs seen (x ∷ ks) h = elim (Bool-cases (is_tombstone es vs x)) [
    | inl dead ↦ rw (dead, h x dead) (collect_saturated es vs seen ks h)
    | inr alive ↦ rw alive (collect_saturated es vs seen ks h)
  ]

  -- A tombstone that is met for the first time at the end comes last.
  collect_last :
      (es : Dict (Entry V)) (vs : Dict ℕ) (key : String) (seen ks : List String)
      → is_tombstone es vs key ≡ true
      → includes key seen ≡ false
      → includes key ks ≡ false
      → collect es vs seen (ks ++ key ∷ []) ≡ collect es vs seen ks ++ key ∷ []
  unfolding collect includes
  collect_last es vs key seen [] dead fresh h = rw (dead, fresh)
  collect_last es vs key seen (x ∷ ks) dead fresh h =
      collect_last es vs key
        (if is_tombstone es vs x && not (includes x seen) then seen ++ x ∷ [] else seen) ks dead
        (ground (arith, includes-append_one key x seen)) (ground arith)

includes-without : (k : String) (ks : List String) → includes k (without k ks) ≡ false
unfolding includes without
includes-without k [] = refl
includes-without k (x ∷ ks) = ground (arith, includes-without k ks)

pub includes-without_other :
    (j k : String) (ks : List String) → includes j (without k ks) ≡ (not (k == j) && includes j ks)
unfolding includes without
includes-without_other j k [] = ground arith
includes-without_other j k (x ∷ ks) =
    ground (arith, includes-without_other j k ks, eq_iff x k, eq_iff x j, eq_iff k j)

includes-take_last_append :
    (k : String) (n : ℕ) (xs : List String)
    → includes k (drop n (xs ++ k ∷ [])) ≡ false
    → length xs < n
unfolding includes
includes-take_last_append k zero [] h = ground (arith, eq_refl k)
includes-take_last_append k (suc n) [] h = omega arith
includes-take_last_append k zero (x ∷ xs) h =
    absurd (ground (arith, includes-append_one k k (x ∷ xs), eq_refl k))
includes-take_last_append k (suc n) (x ∷ xs) h = omega (arith, includes-take_last_append k n xs h)

pub length-take_last-le {ℓ} : {A : Type ℓ} (n : ℕ) (xs : List A) → length (take_last n xs) ≤ n
length-take_last-le n xs = omega (arith, length-drop (length xs - n) xs)

module _ {V : Type 0} (s : StateFile V) (key : String) (order : List String)
    (last : s.tombstone_order ≡ without key order ++ key ∷ [])
    (dead : is_tombstone s.entries s.versions key ≡ true)
    (all : (k : String)
      → is_tombstone s.entries s.versions k ≡ true
      → includes k s.tombstone_order ≡ true) where
  ordered_tombstones_last :
      ordered_tombstones s ≡ collect s.entries s.versions [] (without key order) ++ key ∷ []
  unfolding ordered_tombstones includes
  ordered_tombstones_last =
      collect_saturated s.entries s.versions _ (keys s.versions) (λ k h.
        ground (arith, includes-collect k s.entries s.versions [] s.tombstone_order, all k h))
      ∙ ap (collect s.entries s.versions []) last
      ∙ collect_last s.entries s.versions key [] (without key order) dead refl
          (includes-without key order)

  -- The key that was deleted last is retained, if the others are in the order already.
  pub last_retained : (n : ℕ) → 0 < n → includes key (compact_tombstones n s).tombstone_order ≡ true
  unfolding compact_tombstones
  last_retained n pos = elim (Bool-cases (includes key (take_last n (ordered_tombstones s)))) [
    | inl h ↦ h
    | inr h ↦
        let xs = collect s.entries s.versions [] (without key order) in
        let g = rw ordered_tombstones_last at h in
        absurd (
          omega (
            arith,
            includes-take_last_append key (length (xs ++ key ∷ []) - n) xs g,
            length-append xs (key ∷ []),
          ))
  ]
