-- ===== src/Semaphore/Invariant.antt =====
-- What holds of the semaphore of agents/semaphore.ts between two calls.
use ultra_fabric.Prelude.{ℕ, ◌≤◌, ◌<◌, ◌≡◌, refl, ◌⊎◌, Option, some, List, [], ◌∷◌, arith}
use ultra_fabric.Semaphore.Handles.{Below, held, held-mark_released, mark_released-Below}
use ultra_fabric.Semaphore.{
  Semaphore, Waiter, Signal, Call, acquires, aborts, releases, new, acquire, abort, drop_waiter,
  release, step, run,
}

-- The counter is the number of permits held, at most the limit, and nobody waits for a free one.
pub record Inv (s : Semaphore) : Type 0 where
  pub counted : s.active ≡ held s.handles
  pub bounded : s.active ≤ s.limit
  pub positive : 0 < s.limit
  pub busy : (s.waiters ≡ []) ⊎ (s.active ≡ s.limit)
  pub fresh : Below s.next_handle s.handles

new-Inv : (limit : ℕ) {s : Semaphore} → new limit ≡ some s → Inv s
unfolding new held
new-Inv limit e = ground arith

acquire-Inv :
    (call : ℕ) (signal : Option Signal) (s : Semaphore) → Inv s → Inv (acquire call signal s)
unfolding acquire held
acquire-Inv call signal s v = ground arith

drop_waiter-nil : (call : ℕ) (ws : List Waiter) → ws ≡ [] → drop_waiter call ws ≡ []
unfolding drop_waiter
drop_waiter-nil call [] e = refl
drop_waiter-nil call (w ∷ ws) e = cc

abort-Inv : (call : ℕ) (s : Semaphore) → Inv s → Inv (abort call s)
unfolding abort
abort-Inv call s v = ground (arith, drop_waiter-nil call s.waiters)

release-Inv : (h : ℕ) (s : Semaphore) → Inv s → Inv (release h s)
unfolding release held
release-Inv h s v =
    ground (arith, held-mark_released h s.handles, mark_released-Below h s.next_handle s.handles)

pub step-Inv : (s : Semaphore) (c : Call) → Inv s → Inv (step s c)
unfolding step
step-Inv s (acquires call signal) v = acquire-Inv call signal s v
step-Inv s (aborts call) v = abort-Inv call s v
step-Inv s (releases h) v = release-Inv h s v

run_from-Inv : (s : Semaphore) (cs : List Call) → Inv s → Inv (run s cs)
unfolding run
run_from-Inv s [] v = v
run_from-Inv s (c ∷ cs) v = run_from-Inv (step s c) cs (step-Inv s c v)

-- After any calls on a new semaphore, the counter is the number of permits held, it is at most the
-- limit, and calls wait only while all permits are held.
pub run-Inv : (limit : ℕ) (s : Semaphore) (cs : List Call) → new limit ≡ some s → Inv (run s cs)
run-Inv limit s cs e = run_from-Inv s cs (new-Inv limit e)
