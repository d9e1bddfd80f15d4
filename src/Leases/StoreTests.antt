-- ===== src/Leases/StoreTests.antt =====
-- A run of `#mutate` of leases/path-leases.ts that is disturbed once.
use ultra_fabric.Prelude.{
  ℕ, ◌≡◌, refl, false, none, List, [], ◌∷◌, includes, lookup, insert, slice_start, ◌==◌,
  string_equality, if◌then◌else◌,
}
use ultra_fabric.Leases.{
  Paths, file, Lease, Result, active, acquire_update, conflicts, first_conflict, foreign_conflict,
  acquire_all, acquire_one, within, is_lease,
}
use ultra_fabric.Leases.Requests.{read_state, is_state}
use ultra_fabric.Leases.Store.{
  LeaseValue, leases, Attempt, returned, state_key, changed, mutate, IsAtomic, mutate-IsAtomic,
}
use ultra_fabric.Mesh.Keys.{valid_key}
use ultra_fabric.Mesh.State.{
  StateFile, Put, Limits, Identity, main, empty, actual_version, put_entry, put_state, put,
  compact_tombstones, collect, without,
}
use ultra_fabric.Mesh.State.History.{puts, step, run}

abbrev paths : Paths
paths = record {
  relative = λ root target. if root == target then "" else "..";
  is_absolute = λ p. slice_start 1 p == "/";
  starts_with_parent = λ p. false;
  resolve_real = λ cwd p. p;
}

abbrev limits : Limits LeaseValue
limits = record {
  max_event_bytes = 100;
  max_state_bytes = 1_000;
  max_state_tombstones = 4;
  value_bytes = λ v. 10;
  state_bytes = λ s. 10;
}

abbrev me : Identity
me = record { id = "main"; name = "Main"; kind = main; session_id = none }

abbrev theirs : Lease
theirs = record {
  id = "x";
  owner_run_id = "two";
  target = record { path = "/b"; scope = file };
  acquired_at = 1;
  expires_at = 100;
}

abbrev mine : Lease
mine = record {
  id = "id";
  owner_run_id = "one";
  target = record { path = "/a"; scope = file };
  acquired_at = 3;
  expires_at = 13;
}

abbrev acquire_a : ℕ → List Lease → Result (List Lease × List Lease)
acquire_a now ls =
    acquire_update paths (λ n. "id") "one" now 10 (record { path = "/a"; scope = file } ∷ []) ls

abbrev their_write : Put LeaseValue
their_write = record {
  key = state_key;
  value = leases (theirs ∷ []);
  identity = me;
  if_version = none;
}

abbrev disturbed : List Attempt
disturbed =
    record { read_at = 1; between = puts their_write 2 ∷ []; written_at = 2 }
    ∷ record { read_at = 3; between = []; written_at = 4 }
    ∷ []

abbrev afterwards : StateFile LeaseValue
afterwards = record {
  entries =
      (
        state_key,
        record {
          key = state_key;
          value = leases (theirs ∷ mine ∷ []);
          version = 2;
          updated_at = 4;
          updated_by = me;
        },
      )
      ∷ [];
  versions = (state_key, 2) ∷ [];
  tombstone_order = [];
}

second_try : mutate paths acquire_a limits me disturbed empty ≡ (returned (mine ∷ []), afterwards)
unfolding mutate changed acquire_update conflicts first_conflict foreign_conflict acquire_all
    acquire_one within is_lease active read_state is_state run step put put_entry put_state
    actual_version empty valid_key compact_tombstones collect insert lookup without includes
    slice_start
second_try = refl

mutate-IsAtomic_example : IsAtomic paths acquire_a limits me disturbed empty (mine ∷ []) afterwards
mutate-IsAtomic_example =
    mutate-IsAtomic paths acquire_a limits me disturbed empty afterwards (mine ∷ [])
      ((tt, tt), (tt, tt)) (unfold empty lookup in refl) second_try
