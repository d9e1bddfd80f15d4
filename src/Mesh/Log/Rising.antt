-- ===== src/Mesh/Log/Rising.antt =====
-- Events whose sequences rise strictly.
use ultra_fabric.Prelude.{ℕ, ◌≤◌, ◌<◌, List, [], ◌∷◌, ◌++◌, arith}
use ultra_fabric.Mesh.Log.{MeshEvent}

-- The sequences of the events rise strictly, from above the first number up to the second at most.
abbrev pub Ascends : {D : Type 0} → ℕ → List (MeshEvent D) → ℕ → Type 0
Ascends low [] high = low ≤ high
Ascends low (e ∷ events) high = (low < e.sequence) × Ascends e.sequence events high

module _ {D : Type 0} where
  pub Ascends-weaken :
      (low low' high high' : ℕ) (events : List (MeshEvent D))
      → low' ≤ low
      → high ≤ high'
      → Ascends low events high
      → Ascends low' events high'
  Ascends-weaken low low' high high' [] h k a = omega arith
  Ascends-weaken low low' high high' (e ∷ events) h k (l, a) =
      (omega arith, Ascends-weaken e.sequence e.sequence high high' events (omega arith) k a)

  pub Ascends-suffix :
      (low high : ℕ) (xs ys : List (MeshEvent D))
      → Ascends low (xs ++ ys) high
      → Ascends low ys high
  Ascends-suffix low high [] ys a = a
  Ascends-suffix low high (x ∷ xs) ys (l, a) =
      Ascends-weaken x.sequence low high high ys (omega arith) (omega arith)
        (Ascends-suffix x.sequence high xs ys a)

  pub Ascends-bounds :
      (low high : ℕ) (events : List (MeshEvent D)) → Ascends low events high → low ≤ high
  Ascends-bounds low high [] a = a
  Ascends-bounds low high (e ∷ events) (l, a) =
      omega (arith, Ascends-bounds e.sequence high events a)

  pub Ascends-snoc :
      (low high : ℕ) (events : List (MeshEvent D)) (e : MeshEvent D)
      → Ascends low events high
      → high < e.sequence
      → Ascends low (events ++ e ∷ []) e.sequence
  Ascends-snoc low high [] e a h = omega arith
  Ascends-snoc low high (x ∷ events) e (l, a) h = (l, Ascends-snoc x.sequence high events e a h)
