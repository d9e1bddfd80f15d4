-- ===== src/Carry/Recency.antt =====
-- runtime/carry-store.ts keeps the newest sessions, and no more of them than it may.
use ultra_fabric.Prelude.{
  Distinct, drop_first, includes-append_one, includes-drop_first, Distinct-drop_first,
  Distinct-append_one, ℕ, ◌≤◌, ◌≡◌, String, Bool, true, false, ◌||◌, not, Option, none, some, List,
  [], ◌∷◌, ◌++◌, arith, eq_iff, ltb, ◌==◌, string_equality, is_some, length, includes, Dict, lookup,
  remove, lookup-insert, lookup-remove, inl, inr, Bool-cases,
}
use ultra_fabric.Carry.{CarryStore, is_blank, snapshot_carry, evict, renewed, persist}

-- The store holds exactly the sessions of its order, each once, and no more than it may.
pub record IsBounded {V : Type 0} (s : CarryStore V) : Type 0 where
  pub within : length s.recency ≤ s.max_sessions
  pub positive : 1 ≤ s.max_sessions
  pub distinct : Distinct s.recency
  pub agree : (k : String) → includes k s.recency ≡ is_some (lookup k s.sessions)

module _ {V : Type 0} where
  evict-length :
      (most : ℕ) (ids : List String) (sessions : Dict (Dict V))
      → length (evict most ids sessions).0 ≤ most
  unfolding evict
  evict-length most [] sessions = omega arith
  evict-length most (id ∷ ids) sessions = elim (Bool-cases (ltb most (length (id ∷ ids)))) [
    | inl e ↦ rw e (evict-length most ids (remove id sessions))
    | inr e ↦ rw e (ground arith)
  ]

  evict-Distinct :
      (most : ℕ) (ids : List String) (sessions : Dict (Dict V))
      → Distinct ids
      → Distinct (evict most ids sessions).0
  unfolding evict
  evict-Distinct most [] sessions d = tt
  evict-Distinct most (id ∷ ids) sessions (new, d) =
      elim (Bool-cases (ltb most (length (id ∷ ids)))) [
        | inl e ↦ rw e (evict-Distinct most ids (remove id sessions) d)
        | inr e ↦ rw e (new, d)
      ]

  -- The newest session stays.
  evict_newest :
      (most : ℕ) (id : String) (ids : List String) (sessions : Dict (Dict V))
      → 1 ≤ most
      → includes id (evict most (ids ++ id ∷ []) sessions).0 ≡ true
  unfolding evict includes
  evict_newest most id [] sessions pos = ground (arith, eq_iff id id)
  evict_newest most id (x ∷ ids) sessions pos =
      elim (Bool-cases (ltb most (length (x ∷ ids ++ id ∷ [])))) [
        | inl e ↦ rw e (evict_newest most id ids (remove x sessions) pos)
        | inr e ↦ rw e (ground (arith, includes-append_one id id (x ∷ ids), eq_iff id id))
      ]

  evict-agree :
      (most : ℕ) (ids : List String) (sessions : Dict (Dict V)) (k : String)
      → Distinct ids
      → includes k ids ≡ is_some (lookup k sessions)
      → includes k (evict most ids sessions).0 ≡ is_some (lookup k (evict most ids sessions).1)
  unfolding evict includes
  evict-agree most [] sessions k d h = h
  evict-agree most (x ∷ ids) sessions k (new, d) h =
      elim (Bool-cases (ltb most (length (x ∷ ids)))) [
        | inl e ↦ rw e (
            evict-agree most ids (remove x sessions) k d
              (ground (arith, lookup-remove x k sessions, eq_iff x k)))
        | inr e ↦ rw e h
      ]

  renewed-includes :
      (s : CarryStore V) (id k : String)
      → IsBounded s
      → includes k (renewed s id) ≡ (includes k s.recency || id == k)
  unfolding renewed
  renewed-includes s id k b = elim (Bool-cases (is_some (lookup id s.sessions))) [
    | inl e ↦ rw e (
        ground (
          arith,
          includes-append_one k id (drop_first id s.recency),
          includes-drop_first k id s.recency b.distinct,
        ))
    | inr e ↦ rw e (includes-append_one k id s.recency)
  ]

  renewed-Distinct : (s : CarryStore V) (id : String) → IsBounded s → Distinct (renewed s id)
  unfolding renewed
  renewed-Distinct s id b = elim (Bool-cases (is_some (lookup id s.sessions))) [
    | inl e ↦ rw e (
        Distinct-append_one id (drop_first id s.recency)
          (Distinct-drop_first id s.recency b.distinct)
          (ground (arith, includes-drop_first id id s.recency b.distinct, eq_iff id id)))
    | inr e ↦ rw e (Distinct-append_one id s.recency b.distinct (ground (arith, b.agree id)))
  ]

  includes-evict_newest :
      (s : CarryStore V) (id : String)
      → IsBounded s
      → includes id (evict s.max_sessions (renewed s id) s.sessions).0 ≡ true
  unfolding renewed
  includes-evict_newest s id b = evict_newest s.max_sessions id _ s.sessions b.positive

  -- A store that holds exactly the sessions of its order, each once, and no more of them than it may,
  -- does so whatever a session persists.
  pub persist-IsBounded :
      (within_cap : Dict V → Bool) (id : String) (carry : Option (Dict V)) (s : CarryStore V)
      → IsBounded s
      → IsBounded (persist within_cap id carry s)
  unfolding persist
  persist-IsBounded within_cap id none s b = b
  persist-IsBounded within_cap id (some carry) s b =
      elim (Bool-cases (is_blank carry || not (within_cap carry))) [
        | inl e ↦ rw e b
        | inr e ↦ rw e (record {
          within = evict-length s.max_sessions (renewed s id) s.sessions;
          positive = b.positive;
          distinct =
              evict-Distinct s.max_sessions (renewed s id) s.sessions (renewed-Distinct s id b);
          agree = λ k. elim (Bool-cases (id == k)) [
            | inl q ↦ ground (
              arith,
              includes-evict_newest s id b,
              lookup-insert id k carry (evict s.max_sessions (renewed s id) s.sessions).1,
              eq_iff id k,
            )
            | inr q ↦ ground (
              arith,
              lookup-insert id k carry (evict s.max_sessions (renewed s id) s.sessions).1,
              evict-agree s.max_sessions (renewed s id) s.sessions k (renewed-Distinct s id b)
                  (ground (arith, renewed-includes s id k b, b.agree k)),
            )
          ];
        })
      ]

  -- What a session persists, when it is not empty and short enough, is what its next snapshot shows.
  snapshot_carry-persist :
      (within_cap : Dict V → Bool) (id : String) (carry : Dict V) (s : CarryStore V)
      → is_blank carry ≡ false
      → within_cap carry ≡ true
      → snapshot_carry (persist within_cap id (some carry) s) id ≡ carry
  unfolding persist snapshot_carry
  snapshot_carry-persist within_cap id carry s blank fits = ground (
    arith,
    lookup-insert id id carry (evict s.max_sessions (renewed s id) s.sessions).1,
    eq_iff id id,
  )
