-- ===== src/Semaphore.antt =====
-- agents/semaphore.ts: the semaphore that bounds the children running at once. A promise is known
-- by the call that made it, a release function by the number under which it was created.
pub mod Handles
pub mod Invariant
pub mod Order
mod Tests
use ultra_fabric.Prelude.{
  ℕ, zero, suc, ◌+◌, ◌-◌, ◌≡◌, Bool, true, false, ◌&&◌, not, Option, none, some, List, [], ◌∷◌,
  ◌++◌, ltb, ◌==◌, nat_equality, if◌then◌else◌, filter,
}
use Handles.{Handle, is_released, mark_released}

-- `listens`: the waiter has a signal, and so an abort handler.
pub record Waiter : Type 0 where
  pub call : ℕ
  pub listens : Bool

-- How the promise of a call settled.
pub data Outcome : Type 0 where
  resolved : (call handle : ℕ) → Outcome
  rejected : (call : ℕ) → Outcome

pub record Semaphore : Type 0 where
  pub limit : ℕ
  pub active : ℕ
  pub waiters : List Waiter
  pub handles : List Handle
  pub next_handle : ℕ
  pub settled : List Outcome

-- The constructor; `none` is the exception.
unfoldable pub new : ℕ → Option Semaphore
new limit =
    if ltb limit 1
    then none
    else some (record {
      limit = limit;
      active = 0;
      waiters = [];
      handles = [];
      next_handle = 0;
      settled = [];
    })

settle : Outcome → Semaphore → Semaphore
settle o s = record s { settled = s.settled ++ o ∷ [] }

-- `resolve(this.#releaseFunction())`
grant : ℕ → Semaphore → Semaphore
unfolding settle
grant call s = record s {
  handles = record { id = s.next_handle; released = false } ∷ s.handles;
  next_handle = suc s.next_handle;
  settled = s.settled ++ resolved call s.next_handle ∷ [];
}

-- An `AbortSignal`, by whether it has fired.
pub data Signal : Type 0 where
  fired pending : Signal

abbrev listens : Option Signal → Bool
listens none = false
listens (some g) = true

abbrev is_fired : Option Signal → Bool
is_fired (some fired) = true
is_fired _ = false

unfoldable pub acquire : ℕ → Option Signal → Semaphore → Semaphore
unfolding grant settle
acquire call signal s =
    if is_fired signal
    then settle (rejected call) s
    else if ltb s.active s.limit
    then grant call (record s { active = s.active + 1 })
    else record s { waiters = s.waiters ++ record { call = call; listens = listens signal } ∷ [] }

-- The abort handler of a waiting call. A handler is attached only while its waiter is queued.
abbrev pub is_aborted : ℕ → Waiter → Bool
is_aborted call w = w.call == call && w.listens

abbrev any_aborted : ℕ → List Waiter → Bool
any_aborted call [] = false
any_aborted call (w ∷ ws) = if is_aborted call w then true else any_aborted call ws

-- `splice(indexOf(waiter), 1)`
pub drop_waiter : ℕ → List Waiter → List Waiter
drop_waiter call [] = []
drop_waiter call (w ∷ ws) =
    let rest = drop_waiter call ws in if is_aborted call w then ws else w ∷ rest

unfoldable pub abort : ℕ → Semaphore → Semaphore
unfolding drop_waiter settle
abort call s =
    if any_aborted call s.waiters
    then settle (rejected call) (record s { waiters = drop_waiter call s.waiters })
    else s

hand_over : List Waiter → Semaphore → Semaphore
unfolding grant
hand_over [] s = record s { active = s.active - 1 }
hand_over (w ∷ ws) s = grant w.call (record s { waiters = ws })

-- The call of a release function. A number that names no function is no call.
unfoldable pub release : ℕ → Semaphore → Semaphore
unfolding hand_over is_released mark_released
release h s =
    if is_released h s.handles
    then s
    else hand_over s.waiters (record s { handles = mark_released h s.handles })

pub data Call : Type 0 where
  acquires : (call : ℕ) → Option Signal → Call
  aborts : (call : ℕ) → Call
  releases : (handle : ℕ) → Call

unfoldable pub step : Semaphore → Call → Semaphore
unfolding acquire abort release
step s (acquires call signal) = acquire call signal s
step s (aborts call) = abort call s
step s (releases h) = release h s

pub run : Semaphore → List Call → Semaphore
run s [] = s
run s (c ∷ cs) = run (step s c) cs
