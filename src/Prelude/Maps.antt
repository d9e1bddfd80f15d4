-- ===== src/Prelude/Maps.antt =====
-- JavaScript objects and maps with text keys, as association lists in insertion order.
use Prim.Native.String.{String}
use mathlib.Core.Path.{◌≡◌, refl}
use mathlib.Core.Bool.{Bool, false, not, ◌||◌}
use mathlib.Core.List.{List, [], ◌∷◌, map}
use mathlib.Core.Option.{Option, none, some}
use native.Mathlib.Omega.{arith}
use text.Mathlib.TextEquality.{eq_iff}
use ultra_fabric.Prelude.Lists.{filter}
use ultra_fabric.Prelude.Tests.{if◌then◌else◌, ◌==◌, string_equality}

abbrev pub Dict {ℓ} : Type ℓ → Type ℓ
Dict V = List (String × V)

-- `[...new Set(values)]`, in the order of the first occurrences.
unfoldable pub unique : List String → List String
unique [] = []
unique (x ∷ xs) = let rest = unique xs in x ∷ filter (λ y. not (x == y)) rest

module _ {ℓ} {V : Type ℓ} where
  -- `object[key]`.
  unfoldable pub lookup : String → Dict V → Option V
  lookup key [] = none
  lookup key ((other, value) ∷ object) =
      let found = lookup key object in if other == key then some value else found

  -- `delete object[key]`.
  unfoldable pub remove : String → Dict V → Dict V
  remove key [] = []
  remove key ((other, value) ∷ object) =
      let rest = remove key object in if other == key then rest else (other, value) ∷ rest

  -- `object[key] = new`: a known key keeps its place, a new one goes to the end.
  unfoldable pub insert : String → V → Dict V → Dict V
  insert key new [] = (key, new) ∷ []
  insert key new ((other, value) ∷ object) =
      let rest = insert key new object in
      if other == key then (key, new) ∷ object else (other, value) ∷ rest

  -- `Object.keys(object)`.
  abbrev pub keys : Dict V → List String
  keys = map (λ e. e.0)

  pub lookup-remove :
      (key asked : String) (object : Dict V)
      → lookup asked (remove key object) ≡ (if key == asked then none else lookup asked object)
  unfolding lookup remove
  lookup-remove key asked [] = ground arith
  lookup-remove key asked ((other, value) ∷ object) = ground (
    arith,
    lookup-remove key asked object,
    eq_iff other key,
    eq_iff other asked,
    eq_iff key asked,
  )

  pub lookup-insert :
      (key asked : String) (new : V) (object : Dict V)
      → lookup asked (insert key new object)
        ≡ (if key == asked then some new else lookup asked object)
  unfolding lookup insert
  lookup-insert key asked new [] = refl
  lookup-insert key asked new ((other, value) ∷ object) = ground (
    arith,
    lookup-insert key asked new object,
    eq_iff other key,
    eq_iff other asked,
    eq_iff key asked,
  )

-- `xs.includes(k)`.
unfoldable pub includes : String → List String → Bool
includes k [] = false
includes k (x ∷ xs) = x == k || includes k xs
