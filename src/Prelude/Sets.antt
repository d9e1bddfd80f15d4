-- ===== src/Prelude/Sets.antt =====
-- Lists of texts that are sets: no text twice.
use Prim.Native.Nat.{suc, ◌≤◌}
use Prim.Native.String.{String}
use mathlib.Core.Path.{◌≡◌, refl}
use mathlib.Core.Logic.{inl, inr}
use mathlib.Core.Bool.{true, false, not, ◌&&◌, ◌||◌}
use mathlib.Core.List.{List, [], ◌∷◌, ◌++◌}
use native.Mathlib.Omega.{arith}
use text.Mathlib.TextEquality.{eq_iff}
use ultra_fabric.Prelude.Lists.{length, filter, length-filter-le}
use ultra_fabric.Prelude.Maps.{includes, unique}
use ultra_fabric.Prelude.Tests.{if◌then◌else◌, ◌==◌, string_equality, Bool-cases}

-- `splice(indexOf(id), 1)`, if the id is there.
unfoldable pub drop_first : String → List String → List String
drop_first id [] = []
drop_first id (x ∷ xs) = let rest = drop_first id xs in if x == id then xs else x ∷ rest

abbrev pub Distinct : List String → Type 0
Distinct [] = Unit
Distinct (x ∷ xs) = (includes x xs ≡ false) × Distinct xs

pub includes-append_one :
    (k x : String) (xs : List String) → includes k (xs ++ x ∷ []) ≡ (includes k xs || x == k)
unfolding includes
includes-append_one k x [] = ground arith
includes-append_one k x (y ∷ xs) = ground (arith, includes-append_one k x xs)

pub includes-drop_first :
    (k id : String) (xs : List String)
    → Distinct xs
    → includes k (drop_first id xs) ≡ (includes k xs && not (id == k))
unfolding includes drop_first
includes-drop_first k id [] d = ground arith
includes-drop_first k id (x ∷ xs) (new, d) = elim (Bool-cases (x == id)) [
  | inl e ↦ ground (arith, eq_iff x id, eq_iff x k, eq_iff id k)
  | inr e ↦ ground (arith, includes-drop_first k id xs d, eq_iff x id, eq_iff x k, eq_iff id k)
]

pub Distinct-drop_first :
    (id : String) (xs : List String) → Distinct xs → Distinct (drop_first id xs)
unfolding drop_first
Distinct-drop_first id [] d = tt
Distinct-drop_first id (x ∷ xs) (new, d) = elim (Bool-cases (x == id)) [
  | inl e ↦ rw e d
  | inr e ↦ rw e (ground (arith, includes-drop_first x id xs d), Distinct-drop_first id xs d)
]

pub Distinct-append_one :
    (x : String) (xs : List String) → Distinct xs → includes x xs ≡ false → Distinct (xs ++ x ∷ [])
unfolding includes
Distinct-append_one x [] d n = (refl, tt)
Distinct-append_one x (y ∷ xs) (new, d) n = (
  ground (arith, includes-append_one y x xs, eq_iff x y, eq_iff y x),
  Distinct-append_one x xs d (ground arith),
)

-- A text other than the dropped one stays.
includes-drop_first_other :
    (k id : String) (xs : List String)
    → (id == k) ≡ false
    → includes k (drop_first id xs) ≡ includes k xs
unfolding includes drop_first
includes-drop_first_other k id [] h = refl
includes-drop_first_other k id (x ∷ xs) h =
    ground (arith, includes-drop_first_other k id xs h, eq_iff x id, eq_iff x k, eq_iff id k)

length-drop_first :
    (id : String) (xs : List String)
    → includes id xs ≡ true
    → suc (length (drop_first id xs)) ≡ length xs
unfolding includes drop_first
length-drop_first id [] h = absurd (ground arith)
length-drop_first id (x ∷ xs) h = ground (arith, length-drop_first id xs)

-- Distinct texts of a list are no more than the list has.
pub length-Distinct-le :
    (xs ys : List String)
    → Distinct xs
    → ((k : String) → includes k xs ≡ true → includes k ys ≡ true)
    → length xs ≤ length ys
unfolding includes
length-Distinct-le [] ys d h = omega arith
length-Distinct-le (x ∷ xs) ys (new, d) h =
    let found : includes x ys ≡ true = h x (ground (arith, eq_iff x x)) in
    let rest = length-Distinct-le xs (drop_first x ys) d λ k i. elim (Bool-cases (x == k)) [
      | inl e ↦ absurd (ground (arith, eq_iff x k))
      | inr e ↦ ground (arith, includes-drop_first_other k x ys e, h k)
    ] in
    omega (arith, rest, length-drop_first x ys found)

length-unique-le : (xs : List String) → length (unique xs) ≤ length xs
unfolding unique
length-unique-le [] = omega arith
length-unique-le (x ∷ xs) =
    omega (arith, length-unique-le xs, length-filter-le (λ y. not (x == y)) (unique xs))

includes-filter_other :
    (k x : String) (xs : List String)
    → includes k (filter (λ y. not (x == y)) xs) ≡ (includes k xs && not (x == k))
unfolding includes
includes-filter_other k x [] = ground arith
includes-filter_other k x (y ∷ xs) =
    ground (arith, includes-filter_other k x xs, eq_iff x y, eq_iff x k, eq_iff y k)

pub includes-unique : (k : String) (xs : List String) → includes k (unique xs) ≡ includes k xs
unfolding includes unique
includes-unique k [] = refl
includes-unique k (x ∷ xs) =
    ground (arith, includes-unique k xs, includes-filter_other k x (unique xs), eq_iff x k)

filter_all_other :
    (x : String) (xs : List String)
    → length (filter (λ y. not (x == y)) xs) ≡ length xs
    → includes x xs ≡ false
unfolding includes
filter_all_other x [] h = refl
filter_all_other x (y ∷ xs) h =
    ground (
      arith,
      filter_all_other x xs,
      length-filter-le (λ z. not (x == z)) xs,
      eq_iff x y,
      eq_iff y x,
    )

-- A list from which `unique` drops nothing has no text twice.
pub Distinct-unique : (xs : List String) → length (unique xs) ≡ length xs → Distinct xs
unfolding unique
Distinct-unique [] h = tt
Distinct-unique (x ∷ xs) h =
    let short = length-unique-le xs in
    let shorter = length-filter-le (λ y. not (x == y)) (unique xs) in
    (
      ground (
        arith,
        includes-unique x xs,
        filter_all_other x (unique xs) (omega (arith, short, shorter, h)),
      ),
      Distinct-unique xs (omega (arith, short, shorter, h)),
    )
