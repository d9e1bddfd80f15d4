-- ===== src/Workflows.antt =====
-- workflows/durable.ts: workflows whose phases are claimed under leases. A record is read and written
-- back by compare-and-swap; here are the updates in between. Digests are a parameter.
pub mod Status
pub mod Attempts
pub mod Weights
pub mod Claims
pub mod Dependencies
pub mod Changes
pub mod Order
pub mod Definition
pub mod Cycles
pub mod Acyclic
pub mod Shape
pub mod Held
pub mod Progress
mod Tests
use ultra_fabric.Prelude.{
  ℕ, suc, ◌+◌, String, Bool, true, false, ◌&&◌, ◌||◌, not, Option, none, some, List, [], ◌∷◌, ◌++◌,
  ◌⊎◌, inl, inr, ltb, leb, ◌==◌, string_equality, if◌then◌else◌, length, filter, find, any, all,
  map, includes, non_empty, truthy, keep_truthy, trim, text_length, slice_start, or_default, unique,
  min, max,
}
use ultra_fabric.Workflows.Status
use ultra_fabric.Workflows.Status.{WorkflowStatus, is_cancelled, is_closed, is_over}

pub data PhaseStatus : Type 0 where
  pending ready running completed failed cancelled : PhaseStatus

pub data EvidenceKind : Type 0 where
  command artifact trace custom : EvidenceKind

pub record Evidence : Type 0 where
  pub kind : EvidenceKind
  pub reference : String
  pub digest : Option String

pub record Phase : Type 0 where
  pub id : String
  pub deps : List String
  pub objective_digest : Option String
  pub max_attempts : ℕ
  pub status : PhaseStatus
  pub attempt : ℕ
  pub owner_run_id : Option String
  pub owner_trace_id : Option String
  pub owner_span_id : Option String
  pub lease_token : Option String
  pub lease_expires_at : Option ℕ
  pub evidence : Option (List Evidence)
  pub output_digest : Option String
  pub error : Option String
  pub started_at : Option ℕ
  pub finished_at : Option ℕ

pub record Workflow : Type 0 where
  pub id : String
  pub name : String
  pub definition_digest : String
  pub status : WorkflowStatus
  pub lease_ms : ℕ
  pub phases : List Phase
  pub created_at : ℕ
  pub updated_at : ℕ
  pub cancelled_at : Option ℕ
  pub cancel_reason : Option String

pub data Error : Type 0 where
  no_owner stale_phase evidence_count evidence_ref invalid_id invalid_name phase_count : Error
  duplicate_phase invalid_phase_id invalid_dependency cycle definition_conflict : Error
  -- The search for cycles never needs more fuel than it is given.
  out_of_fuel : Error

abbrev pub is_pending : PhaseStatus → Bool
is_pending pending = true
is_pending _ = false

abbrev pub is_ready : PhaseStatus → Bool
is_ready ready = true
is_ready _ = false

abbrev pub is_running : PhaseStatus → Bool
is_running running = true
is_running _ = false

abbrev pub is_completed : PhaseStatus → Bool
is_completed completed = true
is_completed _ = false

abbrev pub is_failed : PhaseStatus → Bool
is_failed failed = true
is_failed _ = false

unfoldable pub clear_lease : Phase → Phase
clear_lease p = record p {
  owner_run_id = none;
  owner_trace_id = none;
  owner_span_id = none;
  lease_token = none;
  lease_expires_at = none;
}

abbrev pub completed_ids : List Phase → List String
completed_ids ps = map (λ p. p.id) (filter (λ p. is_completed p.status) ps)

unfoldable pub ready_when : List String → Phase → Phase
ready_when done p =
    if is_pending p.status && all (λ dep. includes dep done) p.deps
    then record p { status = ready }
    else p

unfoldable pub refresh_ready : List Phase → List Phase
refresh_ready ps = map (ready_when (completed_ids ps)) ps

unfoldable pub refreshed_status : WorkflowStatus → List Phase → WorkflowStatus
refreshed_status status ps =
    if is_cancelled status
    then status
    else if all (λ p. is_completed p.status) ps
    then Status.completed
    else if any (λ p. is_failed p.status) ps
    then if any (λ p. is_completed p.status) ps then Status.partial else Status.failed
    else if any (λ p. is_running p.status) ps
    then Status.running
    else Status.queued

-- `refreshReady` and `refreshWorkflowStatus`.
unfoldable pub refresh : Workflow → List Phase → Workflow
refresh w ps =
    let refreshed = refresh_ready ps in
    record w { phases = refreshed; status = refreshed_status w.status refreshed }

abbrev pub is_expired : Option ℕ → ℕ → Bool
is_expired none now = false
is_expired (some at) now = leb at now

unfoldable pub release_expired : ℕ → Phase → Phase
release_expired now p =
    if not (is_running p.status) || not (is_expired p.lease_expires_at now)
    then p
    else if ltb p.attempt p.max_attempts
    then record (clear_lease p) {
      status = ready;
      error = some "Previous phase owner lease expired";
    }
    else record (clear_lease p) {
      status = failed;
      error = some "Durable workflow phase lease expired after its final attempt";
      finished_at = some now;
    }

unfoldable pub release_expired_leases : Workflow → ℕ → Workflow
release_expired_leases w now = refresh w (map (release_expired now) w.phases)

-- The first phase that passes the test is changed in place.
unfoldable pub update_first : (Phase → Bool) → (Phase → Phase) → List Phase → List Phase
update_first test change [] = []
update_first test change (p ∷ ps) =
    let rest = update_first test change ps in if test p then change p ∷ ps else p ∷ rest

pub record Claim : Type 0 where
  pub owner_run_id : String
  pub owner_trace_id : Option String
  pub owner_span_id : Option String
  pub phase_id : Option String

-- The phase that a claim asks for: the named one, or else the first that is ready.
abbrev pub is_asked : Option String → Phase → Bool
is_asked none p = is_ready p.status
is_asked (some String.[]) p = is_ready p.status
is_asked (some (String.◌∷◌ c s)) p = p.id == String.◌∷◌ c s

-- `if (value) field = value`
abbrev pub or_old : Option String → Option String → Option String
or_old value old = if truthy value then value else old

unfoldable pub claim_phase : String → String → Claim → ℕ → ℕ → Phase → Phase
claim_phase token owner input now lease_ms p = record p {
  status = running;
  attempt = p.attempt + 1;
  owner_run_id = some owner;
  owner_trace_id = or_old input.owner_trace_id p.owner_trace_id;
  owner_span_id = or_old input.owner_span_id p.owner_span_id;
  lease_token = some token;
  lease_expires_at = some (now + lease_ms);
  started_at = some (or_default p.started_at now);
  error = none;
}

-- The update of `claim`, and the phase that it hands out.
unfoldable pub claim_update : String → String → Claim → ℕ → Workflow → Workflow × Option Phase
claim_update token owner input now w =
    let released = release_expired_leases w now in
    if is_over released.status
    then (released, none)
    else elim (find (is_asked input.phase_id) released.phases) [
      | none ↦ (released, none)
      | some p ↦ if not (is_ready p.status) then (released, none) else (
        record released {
          phases =
              update_first (is_asked input.phase_id)
                (claim_phase token owner input now released.lease_ms) released.phases;
          status = Status.running;
          updated_at = now;
        },
        some (claim_phase token owner input now released.lease_ms p),
      )
    ]

unfoldable pub claim : String → Claim → ℕ → Workflow → Error ⊎ (Workflow × Option Phase)
claim token input now w =
    let owner = trim input.owner_run_id in
    if not (non_empty owner) then inl no_owner else inr (claim_update token owner input now w)

unfoldable pub resume : ℕ → Workflow → Workflow
resume now w =
    if is_closed w.status then w else record (release_expired_leases w now) { updated_at = now }

abbrev pub has_token : Option String → String → Bool
has_token none token = false
has_token (some held) token = held == token

-- The phase is found, it is running, and the caller holds its lease.
unfoldable pub holds_lease : String → String → List Phase → Bool
holds_lease phase_id token ps = elim (find (λ p. p.id == phase_id) ps) [
  | none ↦ false
  | some p ↦ is_running p.status && has_token p.lease_token token
]

unfoldable pub fail_phase : ℕ → String → Bool → Phase → Phase
fail_phase now error retryable p =
    if retryable && ltb p.attempt p.max_attempts
    then record (clear_lease p) { error = some error; status = ready }
    else record (clear_lease p) { error = some error; status = failed; finished_at = some now }

abbrev pub error_text : String → String
error_text error =
    let text = slice_start 4_096 (trim error) in
    if non_empty text then text else "Durable workflow phase failed"

unfoldable pub fail : String → String → String → Bool → ℕ → Workflow → Error ⊎ Workflow
fail phase_id token error retryable now w =
    if holds_lease phase_id token w.phases
    then inr
        (record (refresh w (
          update_first (λ p. p.id == phase_id) (fail_phase now (error_text error) retryable)
            w.phases)) { updated_at = now })
    else inl stale_phase

unfoldable pub cancel_phase : ℕ → Phase → Phase
cancel_phase now p =
    if is_completed p.status
    then p
    else record (clear_lease p) { status = cancelled; finished_at = some now }

abbrev pub normalized_reason : Option String → Option String → Option String
normalized_reason none old = old
normalized_reason (some reason) old =
    let text = slice_start 4_096 (trim reason) in if non_empty text then some text else old

unfoldable pub cancel : Option String → ℕ → Workflow → Workflow
cancel reason now w = if is_closed w.status then w else record w {
  phases = map (cancel_phase now) w.phases;
  status = Status.cancelled;
  cancelled_at = some now;
  cancel_reason = normalized_reason reason w.cancel_reason;
  updated_at = now;
}

unfoldable pub evidence_error : Option (List Evidence) → Option Error
evidence_error none = none
evidence_error (some refs) =
    if ltb 32 (length refs)
    then some evidence_count
    else if any (λ e. not (non_empty (trim e.reference)) || ltb 2_048 (text_length e.reference))
        refs
    then some evidence_ref
    else none

abbrev pub or_kept {ℓ} : {A : Type ℓ} → Option A → Option A → Option A
or_kept (some new) old = some new
or_kept none old = old

-- `output_digest` is the digest of the output, when there is one.
unfoldable pub complete_phase : ℕ → Option (List Evidence) → Option String → Phase → Phase
complete_phase now evidence output_digest p = record (clear_lease p) {
  status = completed;
  finished_at = some now;
  evidence = or_kept evidence p.evidence;
  output_digest = or_kept output_digest p.output_digest;
  error = none;
}

-- An error of the evidence is thrown first.
abbrev pub unless_error {ℓ} : {A : Type ℓ} → Option Error → Error ⊎ A → Error ⊎ A
unless_error (some e) result = inl e
unless_error none result = result

unfoldable pub complete :
    String → String → Option (List Evidence) → Option String → ℕ → Workflow → Error ⊎ Workflow
complete phase_id token evidence output_digest now w = unless_error (evidence_error evidence) (
    if holds_lease phase_id token w.phases
    then inr
        (record (refresh w (
          update_first (λ p. p.id == phase_id) (complete_phase now evidence output_digest)
            w.phases)) { updated_at = now })
    else inl stale_phase)
