-- ===== src/Leases/Tests.antt =====
-- Runs of leases/path-leases.ts at concrete calls.
use ultra_fabric.Prelude.{
  ℕ, String, false, List, [], ◌∷◌, ◌==◌, string_equality, if◌then◌else◌, slice_start,
}
use ultra_fabric.Leases.{Paths, file, tree, Lease}
use ultra_fabric.Leases.Requests.{Acquire}
use ultra_fabric.Leases.Exclusion.{AllApart}
use ultra_fabric.Leases.Runs.{Call, acquires, releases, run, run-AllApart}

-- Absolute paths of which none is inside another, unless it is inside the root.
abbrev flat_paths : Paths
flat_paths = record {
  relative = λ root target. if root == target then "" else if root == "/" then "inside" else "..";
  is_absolute = λ p. slice_start 1 p == "/";
  starts_with_parent = λ p. false;
  resolve_real = λ cwd p. p;
}

abbrev request : String → Acquire
request owner = record {
  owner_run_id = owner;
  paths = record { path = "/a"; scope = file } ∷ [];
  ttl = 5_000;
}

abbrev two_acquires : List (Call × ℕ)
two_acquires =
    (acquires "/" (λ n. "id") (request "one"), 0)
    ∷ (acquires "/" (λ n. "id") (request "two"), 1)
    ∷ (releases "one" ("id" ∷ []), 2)
    ∷ []

run-AllApart_example : AllApart flat_paths (run flat_paths two_acquires [])
run-AllApart_example = run-AllApart flat_paths two_acquires [] tt

abbrev granted : Lease
granted = record {
  id = "id";
  owner_run_id = "one";
  target = record { path = "/a"; scope = tree };
  acquired_at = 0;
  expires_at = 10;
}
