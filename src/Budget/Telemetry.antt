-- ===== src/Budget/Telemetry.antt =====
-- `summarizePersistentAgentBudgets` of agents/persistent/budget.ts.
use ultra_fabric.Prelude.{ℕ, ◌+◌, ◌≡◌, Bool, true, false, List, [], ◌∷◌, arith, length, filter}
use ultra_fabric.Budget.{
  Usage, Snapshot, Admission, open_admission, refused, lifetime_exhausted, window_exhausted,
}

pub record Telemetry : Type 0 where
  pub persistent_agents : ℕ
  pub open_agents : ℕ
  pub lifetime_exhausted : ℕ
  pub window_exhausted : ℕ
  pub lifetime_activations : ℕ
  pub lifetime_tokens : ℕ
  pub rejected_activations : ℕ

abbrev is_open : Admission → Bool
is_open open_admission = true
is_open _ = false

abbrev is_lifetime : Admission → Bool
is_lifetime (refused lifetime_exhausted) = true
is_lifetime _ = false

abbrev is_window : Admission → Bool
is_window (refused window_exhausted) = true
is_window _ = false

-- `snapshots.reduce((total, snapshot) => total + …, 0)`
total : (Usage → ℕ) → ℕ → List Snapshot → ℕ
total field sum [] = sum
total field sum (s ∷ rest) = total field (sum + field s.usage) rest

pub summarize : List Snapshot → Telemetry
unfolding total
summarize snapshots = record {
  persistent_agents = length snapshots;
  open_agents = length (filter (λ s. is_open s.admission) snapshots);
  lifetime_exhausted = length (filter (λ s. is_lifetime s.admission) snapshots);
  window_exhausted = length (filter (λ s. is_window s.admission) snapshots);
  lifetime_activations = total (λ u. u.lifetime_activations) 0 snapshots;
  lifetime_tokens = total (λ u. u.lifetime_tokens) 0 snapshots;
  rejected_activations = total (λ u. u.rejected_activations) 0 snapshots;
}

partition_lem :
    (ss : List Snapshot)
    → length (filter (λ s. is_open s.admission) ss)
        + length (filter (λ s. is_lifetime s.admission) ss)
        + length (filter (λ s. is_window s.admission) ss)
      ≡ length ss
partition_lem [] = omega arith
partition_lem (s ∷ ss) = ground (arith, partition_lem ss)

-- Each agent is counted under exactly one of the three admissions.
pub summarize_partition :
    (ss : List Snapshot)
    → let t = summarize ss in
      t.open_agents + t.lifetime_exhausted + t.window_exhausted ≡ t.persistent_agents
unfolding summarize
summarize_partition ss = partition_lem ss
