-- ===== src/Semaphore/Handles.antt =====
-- The `released` flags in the closures that `#releaseFunction` returns (agents/semaphore.ts).
use ultra_fabric.Prelude.{
  ℕ, suc, ◌+◌, ◌≤◌, ◌<◌, ◌≡◌, refl, Bool, true, false, List, [], ◌∷◌, arith, ◌==◌, nat_equality,
  if◌then◌else◌,
}

pub record Handle : Type 0 where
  pub id : ℕ
  pub released : Bool

-- A number that no closure has counts as released: it cannot be called.
unfoldable pub is_released : ℕ → List Handle → Bool
is_released h [] = true
is_released h (x ∷ xs) = let rest = is_released h xs in if x.id == h then x.released else rest

unfoldable pub mark_released : ℕ → List Handle → List Handle
mark_released h [] = []
mark_released h (x ∷ xs) =
    let rest = mark_released h xs in
    if x.id == h then record x { released = true } ∷ xs else x ∷ rest

-- The permits that are held.
unfoldable pub held : List Handle → ℕ
held [] = 0
held (x ∷ xs) = (if x.released then 0 else 1) + held xs

-- The closures are numbered downwards from below `n`.
abbrev pub Below : ℕ → List Handle → Type 0
Below n [] = Unit {0}
Below n (x ∷ xs) = (x.id < n) × Below x.id xs

pub held-mark_released :
    (h : ℕ) (xs : List Handle)
    → is_released h xs ≡ false
    → held xs ≡ suc (held (mark_released h xs))
unfolding held is_released mark_released
held-mark_released h [] e = ground arith
held-mark_released h (x ∷ xs) e = ground (arith, held-mark_released h xs)

pub is_released-mark_released :
    (h : ℕ) (xs : List Handle) → is_released h (mark_released h xs) ≡ true
unfolding is_released mark_released
is_released-mark_released h [] = refl
is_released-mark_released h (x ∷ xs) = ground (arith, is_released-mark_released h xs)

pub is_released_above : (h n : ℕ) (xs : List Handle) → Below n xs → n ≤ h → is_released h xs ≡ true
unfolding is_released
is_released_above h n [] b e = refl
is_released_above h n (x ∷ xs) b e = ground (arith, is_released_above h x.id xs b.1)

pub mark_released-Below : (h n : ℕ) (xs : List Handle) → Below n xs → Below n (mark_released h xs)
unfolding mark_released
mark_released-Below h n [] b = tt
mark_released-Below h n (x ∷ xs) b = ground (arith, mark_released-Below h x.id xs b.1)
