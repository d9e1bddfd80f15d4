-- ===== src/Workflows/Cycles.antt =====
-- The search for cycles of workflows/durable.ts: it ends, and it finds an order of the phases.
use ultra_fabric.Prelude.{
  ℕ, zero, suc, ◌+◌, ◌<◌, ◌≡◌, ◌≢◌, refl, subst, String, true, List, [], ◌∷◌, ◌⊎◌, inl, inr, arith,
  eq_iff, ◌==◌, string_equality, length, includes, Bool-cases, Distinct, length-Distinct-le,
}
use ultra_fabric.Workflows.{Phase, Error, cycle, out_of_fuel}
use ultra_fabric.Workflows.Dependencies.{all_done}
use ultra_fabric.Workflows.Definition.{◌>>=◌, deps_of, visit_each, visit}

pub bind_inr :
    {A B : Type 0} (m : Error ⊎ A) (f : A → Error ⊎ B) (b : B)
    → m >>= f ≡ inr b
    → (a : A) × (m ≡ inr a) × (f a ≡ inr b)
bind_inr (inl e) f b h = absurd (ground arith)
bind_inr (inr a) f b h = (a, refl, h)

-- The error is not the outcome.
abbrev pub Avoids : {A : Type 0} → Error → Error ⊎ A → Type 0
Avoids error m = m ≢ inl error

pub bind-Avoids :
    {A B : Type 0} (error : Error) (m : Error ⊎ A) (f : A → Error ⊎ B)
    → Avoids error m
    → ((a : A) → m ≡ inr a → Avoids error (f a))
    → Avoids error (m >>= f)
bind-Avoids error (inl e) f h k q = h (ground arith)
bind-Avoids error (inr a) f h k q = k a refl q

-- What is in the first list is in the second.
abbrev pub Grows : List String → List String → Type 0
Grows xs ys = (k : String) → includes k xs ≡ true → includes k ys ≡ true

pub all_done-Grows : (xs ys : List String) → Grows xs ys → all_done xs ys ≡ true
unfolding includes
all_done-Grows [] ys g = refl
all_done-Grows (x ∷ xs) ys g =
    ground (arith, eq_iff x x, g x, all_done-Grows xs ys (λ k i. g k (ground arith)))

pub visit_each-Avoids :
    (error : Error) (known : List String) (f : List String → String → Error ⊎ List String)
    → ((visited : List String) (id : String)
        → includes id known ≡ true
        → Avoids error (f visited id))
    → (visited ids : List String) → all_done ids known ≡ true
    → Avoids error (visit_each f visited ids)
unfolding visit_each
visit_each-Avoids error known f h visited [] d = λ q. ground arith
visit_each-Avoids error known f h visited (id ∷ ids) d =
    bind-Avoids error (f visited id) (λ later. visit_each f later ids) (h visited id (ground arith))
      (λ later e. visit_each-Avoids error known f h later ids (ground arith))

-- Every text of the list has its dependencies further down.
abbrev pub IsOrder : (String → List String) → List String → Type 0
IsOrder deps [] = Unit
IsOrder deps (x ∷ xs) = (all_done (deps x) xs ≡ true) × IsOrder deps xs

module _ (phases : List Phase) where
  -- What a visit does to the visited ids.
  abbrev Visits : List String → List String → List String → Type 0
  Visits ids visited later =
      IsOrder (deps_of phases) later × (all_done ids later ≡ true) × Grows visited later

  pub visit_each-Visits :
      (f : List String → String → Error ⊎ List String)
      → ((visited : List String) (id : String) (later : List String)
          → f visited id ≡ inr later
          → IsOrder (deps_of phases) visited
          → Visits (id ∷ []) visited later)
      → (visited ids later : List String) → visit_each f visited ids ≡ inr later
      → IsOrder (deps_of phases) visited
      → Visits ids visited later
  unfolding visit_each
  visit_each-Visits f h visited [] later e o =
      let same : visited ≡ later = ground arith in
      (subst (IsOrder (deps_of phases)) same o, refl, λ k i. rw (← same) i)
  visit_each-Visits f h visited (id ∷ ids) later e o =
      let (middle, first, rest) = bind_inr (f visited id) (λ v. visit_each f v ids) later e in
      let (order, done, grow) = h visited id middle first o in
      let (order', done', grow') = visit_each-Visits f h middle ids later rest order in
      (order', ground (arith, grow' id), λ k i. grow' k (grow k i))

  pub visit-Visits :
      (fuel : ℕ) (visiting visited : List String) (id : String) (later : List String)
      → visit phases fuel visiting visited id ≡ inr later
      → IsOrder (deps_of phases) visited
      → Visits (id ∷ []) visited later
  unfolding visit includes
  visit-Visits zero visiting visited id later e o = absurd (ground arith)
  visit-Visits (suc fuel) visiting visited id later e o = elim (Bool-cases (includes id visited)) [
    | inl known ↦
        let same : visited ≡ later = ground arith in
        (subst (IsOrder (deps_of phases)) same o, rw (← same) (ground arith), λ k i. rw (← same) i)
    | inr new ↦ elim (Bool-cases (includes id visiting)) [
      | inl twice ↦ absurd (ground arith)
      | inr free ↦
          let (deps, below, e') =
            bind_inr (visit_each (visit phases fuel (id ∷ visiting)) visited (deps_of phases id))
              (λ v. inr (id ∷ v)) later (ground arith) in
          let (order, done, grow) =
            visit_each-Visits (visit phases fuel (id ∷ visiting))
              (λ v x w q p. visit-Visits fuel (id ∷ visiting) v x w q p) visited (deps_of phases id)
              deps below o in
          let same : id ∷ deps ≡ later = ground arith in
          (
            subst (IsOrder (deps_of phases)) same (done, order),
            rw (← same) (ground (arith, eq_iff id id)),
            λ k i. rw (← same) (ground (arith, grow k i)),
          )
    ]
  ]

  -- Enough fuel: what is being visited are distinct ids of phases, and there are no more of those.
  pub visit-Avoids-out_of_fuel :
      (ids : List String)
      → ((id : String) → all_done (deps_of phases id) ids ≡ true)
      → (fuel : ℕ) (visiting visited : List String) (id : String)
      → length ids < fuel + length visiting
      → Distinct visiting
      → Grows visiting ids
      → includes id ids ≡ true
      → Avoids out_of_fuel (visit phases fuel visiting visited id)
  unfolding visit includes
  visit-Avoids-out_of_fuel ids known zero visiting visited id enough d g i =
      absurd (omega (arith, enough, length-Distinct-le visiting ids d g))
  visit-Avoids-out_of_fuel ids known (suc n) visiting visited id enough d g i =
      elim (Bool-cases (includes id visited)) [
        | inl old ↦ rw old (λ q. ground arith)
        | inr new ↦ elim (Bool-cases (includes id visiting)) [
          | inl twice ↦ rw (new, twice) (λ q. ground arith)
          | inr free ↦
              rw (new, free)
                (bind-Avoids out_of_fuel
                  (visit_each (visit phases n (id ∷ visiting)) visited (deps_of phases id))
                  (λ v. inr (id ∷ v))
                  (visit_each-Avoids out_of_fuel ids (visit phases n (id ∷ visiting))
                    (λ v x j.
                      visit-Avoids-out_of_fuel ids known n (id ∷ visiting) v x
                        (omega (arith, enough)) (free, d) (λ k m. ground (arith, g k, eq_iff id k))
                        j)
                    visited (deps_of phases id) (known id))
                  (λ a e q. ground arith))
        ]
      ]

  -- A rank that falls from every phase to its dependencies.
  abbrev pub IsRanked : (String → ℕ) → Type 0
  IsRanked rank = (id dep : String) → includes dep (deps_of phases id) ≡ true → rank dep < rank id

  pub visit-Avoids-cycle :
      (rank : String → ℕ)
      → IsRanked rank
      → (fuel : ℕ) (visiting visited : List String) (id : String)
      → ((k : String) → includes k visiting ≡ true → rank id < rank k)
      → Avoids cycle (visit phases fuel visiting visited id)
  unfolding visit includes
  visit-Avoids-cycle rank ranked zero visiting visited id below = λ q. ground arith
  visit-Avoids-cycle rank ranked (suc n) visiting visited id below =
      elim (Bool-cases (includes id visited)) [
        | inl old ↦ rw old (λ q. ground arith)
        | inr new ↦ elim (Bool-cases (includes id visiting)) [
          | inl twice ↦ absurd (omega (arith, below id twice))
          | inr free ↦
              rw (new, free)
                (bind-Avoids cycle
                  (visit_each (visit phases n (id ∷ visiting)) visited (deps_of phases id))
                  (λ v. inr (id ∷ v))
                  (visit_each-Avoids cycle (deps_of phases id) (visit phases n (id ∷ visiting))
                    (λ v x j. visit-Avoids-cycle rank ranked n (id ∷ visiting) v x (λ k m.
                      elim (Bool-cases (id == k)) [
                        | inl e ↦
                            let same : id ≡ k = ground (arith, eq_iff id k) in
                            rw (← same) (ranked id x j)
                        | inr e ↦ omega (arith, ranked id x j, below k (ground arith))
                      ]))
                    visited (deps_of phases id)
                    (all_done-Grows (deps_of phases id) (deps_of phases id) (λ k i. i)))
                  (λ a e q. ground arith))
        ]
      ]
