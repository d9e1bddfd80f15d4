-- ===== src/Semaphore/Tests.antt =====
-- Runs of agents/semaphore.ts at concrete calls.
use ultra_fabric.Prelude.{◌≡◌, refl, true, false, none, some, List, [], ◌∷◌}
use ultra_fabric.Semaphore.{
  Semaphore, resolved, pending, Call, acquires, aborts, releases, new, step, run,
}
use ultra_fabric.Semaphore.Invariant.{Inv, run-Inv}

-- A semaphore of one permit, which call 1 holds and calls 2 and 3 wait for.
abbrev contended : Semaphore
contended = record {
  limit = 1;
  active = 1;
  waiters = record { call = 2; listens = false } ∷ record { call = 3; listens = true } ∷ [];
  handles = record { id = 0; released = false } ∷ [];
  next_handle = 1;
  settled = resolved 1 0 ∷ [];
}

abbrev start : Semaphore
start = record { limit = 1; active = 0; waiters = []; handles = []; next_handle = 0; settled = [] }

abbrev calls : List Call
calls = acquires 1 none ∷ acquires 2 none ∷ acquires 3 (some pending) ∷ []

contended-run : run start calls ≡ contended
unfolding run step
contended-run = refl

abort_run : (run contended (aborts 3 ∷ releases 0 ∷ releases 0 ∷ releases 1 ∷ [])).active ≡ 0
unfolding run step
abort_run = refl

run-Inv_example : Inv (run start calls)
unfolding new
run-Inv_example = run-Inv 1 start calls refl
