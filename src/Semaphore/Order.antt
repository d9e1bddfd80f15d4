-- ===== src/Semaphore/Order.antt =====
-- Who gets a permit that is released (agents/semaphore.ts).
use ultra_fabric.Prelude.{ℕ, ◌≡◌, List, [], ◌∷◌, ◌++◌, false, arith}
use ultra_fabric.Semaphore.Handles.{is_released, is_released-mark_released, is_released_above}
use ultra_fabric.Semaphore.{Semaphore, Waiter, resolved, release}
use ultra_fabric.Semaphore.Invariant.{Inv}

-- A release function that is called while calls wait hands its permit to the first of them under a
-- new release function, and the counter does not change.
release_oldest :
    (h : ℕ) (s : Semaphore) (w : Waiter) (ws : List Waiter)
    → is_released h s.handles ≡ false
    → s.waiters ≡ w ∷ ws
    → let t = release h s in
      (t.waiters ≡ ws)
      × (t.active ≡ s.active)
      × (t.settled ≡ s.settled ++ resolved w.call s.next_handle ∷ [])
      × (is_released s.next_handle t.handles ≡ false)
unfolding release
release_oldest h s w ws e q = ground arith

-- A release function gives its permit back once: a second call of it changes nothing.
release-release : (h : ℕ) (s : Semaphore) → Inv s → release h (release h s) ≡ release h s
unfolding release
release-release h s v = ground (
  arith,
  is_released-mark_released h s.handles,
  is_released_above h s.next_handle s.handles v.fresh,
)
