-- ===== src/Budget/Tests.antt =====
-- Runs of agents/persistent/budget.ts at concrete times.
use ultra_fabric.Prelude.{◌≤◌, ◌≡◌, refl, none, some, List, [], ◌∷◌, ◌+◌, ◌*◌, ◌<◌, arith}
use ultra_fabric.Prelude.Int.{pos, negsuc}
use ultra_fabric.Budget.{
  Policy, Usage, window_exhausted, Call, activates, records, other, number, create_usage, admit,
  snapshot, run, normalize_policy, step,
}
use ultra_fabric.Budget.Caps.{WithinCaps, run-WithinCaps, admit_refused}
use ultra_fabric.Budget.Window.{admissions}
use ultra_fabric.Budget.Restore.{
  restore, store, restore-store, restore-IsSafe, IsSafe, normalize_policy_bounds,
}
use ultra_fabric.Budget.Telemetry.{summarize, summarize_partition}

abbrev two_per_second : Policy
two_per_second = record { lifetime_activations = 3; window_activations = 2; window_ms = 1_000 }

abbrev spent : Usage
spent = record {
  lifetime_activations = 2;
  lifetime_tokens = 50;
  window_started_at = pos 100;
  window_activations = 2;
  window_tokens = 50;
  rejected_activations = 0;
  last_rejected_at = none;
  last_rejection = none;
}

abbrev history : List Call
history = activates (pos 100) ∷ records (number (pos 50)) (pos 110) ∷ activates (pos 200) ∷ []

spent-run : run two_per_second (create_usage (pos 100)) history ≡ spent
unfolding run step create_usage
spent-run = refl

third_in_window : (admit two_per_second spent (pos 300)).0 ≡ some window_exhausted
unfolding admit
third_in_window = refl

third_in_next_window : (admit two_per_second spent (pos 1_100)).0 ≡ none
unfolding admit
third_in_next_window = refl

run-WithinCaps_example :
    let u = create_usage (pos 100) in
    ((run two_per_second u history).lifetime_activations ≡ admissions two_per_second u history)
    × (0 < 3 → admissions two_per_second u history ≤ 3)
    × WithinCaps two_per_second (run two_per_second u history)
run-WithinCaps_example = run-WithinCaps two_per_second (pos 100) history

admit_refused_example :
    let t = (admit two_per_second spent (pos 300)).1 in
    (admissions two_per_second t (activates (pos 300) ∷ activates (pos 1_099) ∷ []) ≡ 0)
    × (t.lifetime_activations ≡ 2)
unfolding admit
admit_refused_example =
    admit_refused two_per_second spent (pos 300) window_exhausted
      (activates (pos 300) ∷ activates (pos 1_099) ∷ []) refl (omega arith)

abbrev later_history : List Call
later_history = activates (pos 1_110) ∷ activates (pos 1_150) ∷ activates (pos 2_099) ∷ []

later_admissions : admissions two_per_second spent (activates (pos 1_100) ∷ later_history) ≡ 1
unfolding admissions admit step
later_admissions = refl

restore-store_example : restore (some (store spent)) (pos 7) ≡ spent
restore-store_example = restore-store spent (pos 7) (omega arith)

restore-IsSafe_example : IsSafe (restore none (negsuc 4))
restore-IsSafe_example = restore-IsSafe none (negsuc 4)

normalize_policy_bounds_example :
    let p = normalize_policy (record {
      lifetime_activations = number (negsuc 3);
      window_activations = other;
      window_ms = number (pos 5);
    }) in
    (p.lifetime_activations ≤ 1_000_000)
    × (p.window_activations ≤ 1_000_000)
    × (1_000 ≤ p.window_ms)
    × (p.window_ms ≤ 30 * 86_400_000)
normalize_policy_bounds_example = normalize_policy_bounds (record {
  lifetime_activations = number (negsuc 3);
  window_activations = other;
  window_ms = number (pos 5);
})

summarize_partition_example :
    let t = summarize (snapshot two_per_second spent (pos 300) ∷ []) in
    t.open_agents + t.lifetime_exhausted + t.window_exhausted ≡ t.persistent_agents
summarize_partition_example = summarize_partition (snapshot two_per_second spent (pos 300) ∷ [])
