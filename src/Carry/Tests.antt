-- ===== src/Carry/Tests.antt =====
-- runtime/carry-store.ts at concrete sessions.
use ultra_fabric.Prelude.{ℕ, refl, true, some, [], ◌∷◌, arith, includes, lookup}
use ultra_fabric.Carry.{CarryStore, persist}
use ultra_fabric.Carry.Recency.{IsBounded, persist-IsBounded}

abbrev one_session : CarryStore ℕ
one_session = record { sessions = ("a", ("x", 1) ∷ []) ∷ []; recency = "a" ∷ []; max_sessions = 1 }

persist-IsBounded_example : IsBounded (persist (λ c. true) "b" (some (("y", 2) ∷ [])) one_session)
unfolding includes lookup
persist-IsBounded_example =
    persist-IsBounded (λ c. true) "b" (some (("y", 2) ∷ [])) one_session
      (record {
        within = omega arith;
        positive = omega arith;
        distinct = (refl, tt);
        agree = λ k. ground arith;
      })
