-- ===== src/Budget/Caps.antt =====
-- The caps on activations (agents/persistent/budget.ts).
use ultra_fabric.Prelude.{
  ◌+◌, refl, ◌∙◌, subst, sym, ◌⊎◌, ◌≤◌, ◌<◌, ◌≡◌, ◌↔◌, none, some, List, [], ◌∷◌, arith,
}
use ultra_fabric.Prelude.Int.{ℤ}
use ultra_fabric.Budget.{
  Policy, Usage, Rejection, open_admission, refused, Call, activates, records, create_usage, admit,
  snapshot, step, run,
}
use ultra_fabric.Budget.Window.{InWindow, AllInWindow, time_of, one_admission, admissions}

-- Neither count is above its cap, where there is one, and the window's is part of the lifetime's.
pub record WithinCaps (p : Policy) (u : Usage) : Type 0 where
  pub lifetime : 0 < p.lifetime_activations → u.lifetime_activations ≤ p.lifetime_activations
  pub window : 0 < p.window_activations → u.window_activations ≤ p.window_activations
  pub part : u.window_activations ≤ u.lifetime_activations
  pub tokens : u.window_tokens ≤ u.lifetime_tokens

step-WithinCaps : (p : Policy) (u : Usage) (c : Call) → WithinCaps p u → WithinCaps p (step p u c)
unfolding step
step-WithinCaps p u (activates now) v = ground arith
step-WithinCaps p u (records tokens now) v = ground arith

run_from-WithinCaps :
    (p : Policy) (u : Usage) (cs : List Call) → WithinCaps p u → WithinCaps p (run p u cs)
unfolding run
run_from-WithinCaps p u [] v = v
run_from-WithinCaps p u (c ∷ cs) v = run_from-WithinCaps p (step p u c) cs (step-WithinCaps p u c v)

step-counts :
    (p : Policy) (u : Usage) (c : Call)
    → (step p u c).lifetime_activations ≡ one_admission p u c + u.lifetime_activations
unfolding step admit
step-counts p u (activates now) = ground arith
step-counts p u (records tokens now) = ground arith

run-counts :
    (p : Policy) (u : Usage) (cs : List Call)
    → (run p u cs).lifetime_activations ≡ admissions p u cs + u.lifetime_activations
unfolding run admissions
run-counts p u [] = omega arith
run-counts p u (c ∷ cs) =
    let ih = run-counts p (step p u c) cs in let counted = step-counts p u c in omega arith

-- Whatever activations are asked for and tokens recorded, at whatever times, from a new usage on, the
-- lifetime count is the number of activations that were admitted, which stays within the lifetime cap
-- where there is one; and the counts of the usage are within both caps, the window's part of the
-- lifetime's.
pub run-WithinCaps :
    (p : Policy) (start : ℤ) (cs : List Call)
    → let u = create_usage start in
      ((run p u cs).lifetime_activations ≡ admissions p u cs)
      × (0 < p.lifetime_activations → admissions p u cs ≤ p.lifetime_activations)
      × WithinCaps p (run p u cs)
unfolding create_usage
run-WithinCaps p start cs =
    let u = create_usage start in
    let counted : (run p u cs).lifetime_activations ≡ admissions p u cs =
      omega (arith, run-counts p u cs) in
    let within = run_from-WithinCaps p u cs (omega arith) in
    let capped = within.lifetime in (counted, λ l. omega (arith, capped l), within)

-- The admission that a snapshot shows is the one that a call at that time meets: `open` exactly when
-- the activation is admitted, and otherwise the reason of the refusal.
snapshot-admit :
    (p : Policy) (u : Usage) (now : ℤ)
    → (((snapshot p u now).admission ≡ open_admission) ↔ ((admit p u now).0 ≡ none))
      × ((r : Rejection)
          → (((snapshot p u now).admission ≡ refused r) ↔ ((admit p u now).0 ≡ some r)))
unfolding snapshot admit
snapshot-admit p u now = ((ground arith, ground arith), λ r. (ground arith, ground arith))

-- A cap is reached.
abbrev IsUsedUp : Policy → Usage → Type 0
IsUsedUp p u =
    ((0 < p.lifetime_activations) × (p.lifetime_activations ≤ u.lifetime_activations))
    ⊎ ((0 < p.window_activations) × (p.window_activations ≤ u.window_activations))

step-IsUsedUp :
    (p : Policy) (u : Usage) (c : Call)
    → IsUsedUp p u
    → InWindow u.window_started_at p.window_ms (time_of c)
    → (one_admission p u c ≡ 0)
      × IsUsedUp p (step p u c)
      × ((step p u c).window_started_at ≡ u.window_started_at)
unfolding step admit
step-IsUsedUp p u (activates now) f w = (ground arith, ground arith, ground arith)
step-IsUsedUp p u (records tokens now) f w = (ground arith, ground arith, ground arith)

admissions-IsUsedUp :
    (p : Policy) (u : Usage) (start : ℤ) (cs : List Call)
    → IsUsedUp p u
    → u.window_started_at ≡ start
    → AllInWindow start p.window_ms cs
    → admissions p u cs ≡ 0
unfolding admissions
admissions-IsUsedUp p u start [] f e w = refl
admissions-IsUsedUp p u start (c ∷ cs) f e (w, later) =
    let (zero_count, still, same) =
      step-IsUsedUp p u c f (subst (λ s. InWindow s p.window_ms (time_of c)) (sym e) w) in
    let ih = admissions-IsUsedUp p (step p u c) start cs still (same ∙ e) later in omega arith

refused-IsUsedUp :
    (p : Policy) (u : Usage) (now : ℤ) (r : Rejection)
    → (admit p u now).0 ≡ some r
    → IsUsedUp p (admit p u now).1
unfolding admit
refused-IsUsedUp p u now r e = ground arith

refused_counts :
    (p : Policy) (u : Usage) (now : ℤ) (r : Rejection)
    → (admit p u now).0 ≡ some r
    → (admit p u now).1.lifetime_activations ≡ u.lifetime_activations
unfolding admit
refused_counts p u now r e = ground arith

-- After an activation was refused, no activation is admitted in the same window, whatever activations
-- are asked for and tokens recorded; and the refusal took nothing of the lifetime cap.
pub admit_refused :
    (p : Policy) (u : Usage) (now : ℤ) (r : Rejection) (cs : List Call)
    → (admit p u now).0 ≡ some r
    → let t = (admit p u now).1 in
      AllInWindow t.window_started_at p.window_ms cs
      → (admissions p t cs ≡ 0) × (t.lifetime_activations ≡ u.lifetime_activations)
admit_refused p u now r cs e w = (
  admissions-IsUsedUp p (admit p u now).1 (admit p u now).1.window_started_at cs
      (refused-IsUsedUp p u now r e) refl w,
  refused_counts p u now r e,
)
