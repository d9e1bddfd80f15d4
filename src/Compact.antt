-- ===== src/Compact.antt =====
-- core/compact-controller.ts: one pending intent to compact, which the host commits when it is idle. The
-- hooks' calls are not modelled, except that `reports` lists what `onCommit` is given.
pub mod Instructions
pub mod Sound
pub mod Requests
mod Tests
use ultra_fabric.Prelude.{
  ℕ, zero, suc, ◌+◌, String, Bool, true, false, ◌&&◌, ◌||◌, not, Option, none, some, List, [], ◌∷◌,
  ◌++◌, ◌⊎◌, inl, inr, ltb, ◌==◌, nat_equality, string_equality, if◌then◌else◌, length, find, map,
  non_empty, truthy, keep_truthy, or_default,
}
use ultra_fabric.Compact.Instructions.{
  TypedRequest, Error, bounds_error, encode_request, unless_bounds_error,
}

pub record Intent : Type 0 where
  pub reason : Option String
  pub instructions : Option String
  pub preserve : Option (List String)
  pub requested_by : Option String

-- The object's identity, which the source compares, is its `serial`.
pub record Pending : Type 0 where
  pub serial : ℕ
  pub reason : Option String
  pub instructions : Option String
  pub preserve : Option (List String)
  pub requested_by : String
  pub requested_at : ℕ

pub data CommitStatus : Type 0 where
  committed cancelled failed : CommitStatus

pub record LastCommit : Type 0 where
  pub at : ℕ
  pub requested_by : String
  pub status : CommitStatus
  pub summary : Option String
  pub tokens_before : Option ℕ
  pub estimated_tokens_after : Option ℕ
  pub error : Option String

-- A call of `maybeCommit` that commits, with its variables `committing`, `instructions` and
-- `callbackSettled`.
pub record Commit : Type 0 where
  pub number : ℕ
  pub committing : Pending
  pub instructions : Option String
  pub settled : Bool

-- `in_flight` is the number of the commit whose promise `#inFlight` is. The newest commit is the first.
pub record Controller : Type 0 where
  pub pending : Option Pending
  pub last : Option LastCommit
  pub in_flight : Option ℕ
  pub commits : List Commit
  pub made : ℕ
  pub reports : List LastCommit

-- What settles a commit: the two callbacks, a throw of `compact`, or a signal that is aborted already.
pub data CommitOutcome : Type 0 where
  completed : (summary : String) → (tokens_before : ℕ) → (tokens_after : Option ℕ) → CommitOutcome
  errored : (message : Option String) → CommitOutcome
  threw : (message : Option String) → CommitOutcome
  aborted : CommitOutcome

pub data Event : Type 0 where
  requests : Intent → (now : ℕ) → Event
  cancels : Event
  -- `maybeCommit`, with whether the signal is aborted.
  reaches_boundary : Bool → (now : ℕ) → Event
  settles : (number : ℕ) → CommitOutcome → (now : ℕ) → Event
  -- The call continues after `await completion`.
  resumes : (number : ℕ) → Event

unfoldable pub new_controller : Controller
new_controller = record {
  pending = none;
  last = none;
  in_flight = none;
  commits = [];
  made = 0;
  reports = [];
}

abbrev pub failure : ℕ → String → String → LastCommit
failure now requested_by message = record {
  at = now;
  requested_by = requested_by;
  status = failed;
  summary = none;
  tokens_before = none;
  estimated_tokens_after = none;
  error = some message;
}

unfoldable pub report : CommitOutcome → ℕ → String → LastCommit
report (completed summary before after) now requested_by = record {
  at = now;
  requested_by = requested_by;
  status = committed;
  summary = some summary;
  tokens_before = some before;
  estimated_tokens_after = after;
  error = none;
}
report (errored message) now requested_by =
    let text = or_default message "Compaction error" in
    let is_cancelled = text == "Compaction cancelled" || text == "Already compacted" in
    record (failure now requested_by text) { status = if is_cancelled then cancelled else failed }
report (threw message) now requested_by =
    failure now requested_by (or_default message "Compaction failed to start")
report aborted now requested_by = failure now requested_by "Compaction aborted before it started"

-- `clearCommittedIntent`
abbrev pub clear_committed : Pending → Option Pending → Option Pending
clear_committed committing none = none
clear_committed committing (some p) = if p.serial == committing.serial then none else some p

abbrev pub mark_settled : ℕ → Commit → Commit
mark_settled number c = if c.number == number then record c { settled = true } else c

abbrev pub finish_commit : CommitOutcome → ℕ → Controller → Commit → Controller
finish_commit outcome now s c =
    let info = report outcome now c.committing.requested_by in
    if c.settled then s else record s {
      pending = clear_committed c.committing s.pending;
      last = some info;
      commits = map (mark_settled c.number) s.commits;
      reports = s.reports ++ info ∷ [];
    }

abbrev pub finish_found : CommitOutcome → ℕ → Controller → Option Commit → Controller
finish_found outcome now s none = s
finish_found outcome now s (some c) = finish_commit outcome now s c

abbrev pub commit_of : ℕ → Controller → Option Commit
commit_of number s = find (λ c. c.number == number) s.commits

-- `finish` of the commit with the number.
unfoldable pub finish_callback : ℕ → CommitOutcome → ℕ → Controller → Controller
finish_callback number outcome now s = finish_found outcome now s (commit_of number s)

unfoldable pub cancel_pending : Controller → Controller
cancel_pending s = record s { pending = none }

-- `this.#inFlight === completion`
abbrev pub is_flight : ℕ → Option ℕ → Bool
is_flight number none = false
is_flight number (some n) = n == number

abbrev pub resume_found : Controller → Option Commit → Controller
resume_found s none = s
resume_found s (some c) =
    if c.settled && is_flight c.number s.in_flight then record s { in_flight = none } else s

-- The continuation of a call of `maybeCommit`, once its commit is settled.
unfoldable pub resume_commit : ℕ → Controller → Controller
resume_commit number s = resume_found s (commit_of number s)

abbrev pub present : Error ⊎ String → Error ⊎ Option String
present (inl e) = inl e
present (inr encoded) = inr (some encoded)

abbrev pub new_pending : ℕ → Intent → ℕ → Pending
new_pending serial intent now = record {
  serial = serial;
  reason = keep_truthy intent.reason;
  instructions = keep_truthy intent.instructions;
  preserve = intent.preserve;
  requested_by = or_default (keep_truthy intent.requested_by) "model";
  requested_at = now;
}

-- `if (preserve !== undefined) encodeCompactionRequest(request)`, before what follows it.
abbrev pub unless_unencodable {ℓ} :
    {A : Type ℓ} → Option (List String) → Error ⊎ String → Error ⊎ A → Error ⊎ A
unless_unencodable none encoded result = result
unless_unencodable (some items) (inl e) result = inl e
unless_unencodable (some items) (inr encoded) result = result

abbrev pub start_commit : Pending → Option String → Controller → Controller
start_commit p instructions s = record s {
  in_flight = some (length s.commits);
  commits =
      record {
        number = length s.commits;
        committing = p;
        instructions = keep_truthy instructions;
        settled = false;
      }
      ∷ s.commits;
}

abbrev pub start_with : Bool → ℕ → Controller → Pending → Error ⊎ Option String → Error ⊎ Controller
start_with is_aborted now s p (inl e) = inl e
start_with is_aborted now s p (inr instructions) =
    let started = start_commit p instructions s in
    inr (if is_aborted then finish_callback (length s.commits) aborted now started else started)

-- A call that throws changes nothing.
abbrev pub or_same : Controller → Error ⊎ Controller → Controller
or_same s (inl e) = s
or_same s (inr t) = t

abbrev pub requested : Controller → Error ⊎ (Pending × Controller) → Controller
requested s (inl e) = s
requested s (inr (p, t)) = t

module _ (json : TypedRequest → String) where
  -- The instructions of a commit, or what the encoding throws.
  unfoldable pub commit_instructions : Option String → Option (List String) → Error ⊎ Option String
  commit_instructions instructions none = inr instructions
  commit_instructions instructions (some items) =
      present (encode_request json (record { instructions = instructions; preserve = some items }))

  unfoldable pub request : Intent → ℕ → Controller → Error ⊎ (Pending × Controller)
  request intent now s =
      let typed : TypedRequest = record {
        instructions = intent.instructions;
        preserve = intent.preserve;
      } in
      let pending = new_pending s.made intent now in
      unless_bounds_error (bounds_error typed) (
        unless_unencodable intent.preserve (encode_request json typed)
          (inr (pending, record s { pending = some pending; made = s.made + 1 })))

  abbrev pub commit_from : Bool → ℕ → Controller → Option ℕ → Option Pending → Error ⊎ Controller
  commit_from is_aborted now s (some n) pending = inr s
  commit_from is_aborted now s none none = inr s
  commit_from is_aborted now s none (some p) =
      start_with is_aborted now s p (commit_instructions p.instructions p.preserve)

  -- `maybeCommit` up to its first `await`, with whether the signal is aborted.
  unfoldable pub maybe_commit : Bool → ℕ → Controller → Error ⊎ Controller
  maybe_commit is_aborted now s = commit_from is_aborted now s s.in_flight s.pending

  unfoldable pub step : Event → Controller → Controller
  step (requests intent now) s = requested s (request intent now s)
  step cancels s = cancel_pending s
  step (reaches_boundary is_aborted now) s = or_same s (maybe_commit is_aborted now s)
  step (settles number outcome now) s = finish_callback number outcome now s
  step (resumes number) s = resume_commit number s

  unfoldable pub run : List Event → Controller → Controller
  run [] s = s
  run (e ∷ es) s = run es (step e s)
