-- ===== src/Leases/Store.antt =====
-- leases/path-leases.ts on the mesh: `#mutate`, which reads the leases, updates them and writes them back
-- by compare-and-swap, with the calls that others make in between.
use ultra_fabric.Prelude.{
  ℕ, ◌≡◌, refl, sym, ap, ◌∙◌, ◌≢◌, String, Option, none, some, List, [], ◌∷◌, inl, inr, arith,
  lookup, All, Option-cases, string_equality, eq_iff, ◌⊎◌,
}
use ultra_fabric.Leases.{Paths, Lease, Result, ok, err, ◌>>=◌, invalid_state, active, Error}
use ultra_fabric.Leases.Requests.{read_state}
use ultra_fabric.Mesh.State
use ultra_fabric.Mesh.State.{
  Entry, StateFile, Put, Limits, Identity, actual_version, put, put_entry, put_state, swap_failed,
}
use ultra_fabric.Mesh.State.Swap.{put_ok, put_state-lookup}
use ultra_fabric.Mesh.State.History.{Call, run}
use ultra_fabric.Mesh.State.Atomic.{
  Spares, IsPlain, actual_live, actual_none, run-Moves, swap_unchanged,
}

abbrev pub state_key : String
state_key = "path-leases/v1"

-- A value in the mesh: leases, or another value in JSON.
pub data LeaseValue : Type 0 where
  leases : List Lease → LeaseValue
  other : String → LeaseValue

-- One round of the loop: when it reads, what others do before it writes, and when it writes.
pub record Attempt : Type 0 where
  pub read_at : ℕ
  pub between : List (Call LeaseValue)
  pub written_at : ℕ

-- How `#mutate` ends.
pub data MutateEnding (T : Type 0) : Type 0 where
  returned : T → MutateEnding T
  update_failed : Error → MutateEnding T
  write_failed : State.Error → MutateEnding T
  contention : MutateEnding T

-- `entry?.version ?? 0`
abbrev pub version_of : Option (Entry LeaseValue) → ℕ
version_of none = 0
version_of (some e) = e.version

module _ (paths : Paths) where
  -- `#state`
  abbrev pub stored_leases : Option (Entry LeaseValue) → Result (List Lease)
  stored_leases none = read_state paths none
  stored_leases (some e) = elim e.value [
    | leases ls ↦ read_state paths (some ls)
    | other json ↦ err invalid_state
  ]

  module _ {T : Type 0} (update : ℕ → List Lease → Result (T × List Lease)) where
    -- The update of what is stored, at a time: its result, and the leases to be written.
    unfoldable pub changed : ℕ → StateFile LeaseValue → Result (T × List Lease)
    changed now s =
        stored_leases (lookup state_key s.entries) >>= λ stored. update now (active now stored)

    module _ (limits : Limits LeaseValue) (identity : Identity) where
      abbrev pub lease_write : StateFile LeaseValue → List Lease → Put LeaseValue
      lease_write s out = record {
        key = state_key;
        value = leases out;
        identity = identity;
        if_version = some (version_of (lookup state_key s.entries));
      }

      -- What the write gives; `rest` is what the rounds after this one give, if there are any.
      abbrev pub after_write :
          T
          → StateFile LeaseValue
          → Option (MutateEnding T × StateFile LeaseValue)
          → State.Result (Entry LeaseValue × StateFile LeaseValue)
          → MutateEnding T × StateFile LeaseValue
      after_write t s rest (State.ok (e, u)) = (returned t, u)
      after_write t s (some rest) (State.err (swap_failed expected found)) = rest
      after_write t s none (State.err e) = (write_failed e, s)
      after_write t s (some rest) (State.err e) = (write_failed e, s)

      abbrev pub after_update :
          Attempt
          → StateFile LeaseValue
          → Option (MutateEnding T × StateFile LeaseValue)
          → Result (T × List Lease)
          → MutateEnding T × StateFile LeaseValue
      after_update a s rest (err e) = (update_failed e, s)
      after_update a s rest (ok (t, out)) =
          let found = run limits s a.between in
          after_write t found rest (put limits found (lease_write s out) a.written_at)

      abbrev pub rest_of :
          List Attempt
          → MutateEnding T × StateFile LeaseValue
          → Option (MutateEnding T × StateFile LeaseValue)
      rest_of [] rest = none
      rest_of (a ∷ later) rest = some rest

      -- `#mutate` with the rounds that it may make, which are 12 in the source, and the state afterwards.
      unfoldable pub mutate :
          List Attempt → StateFile LeaseValue → MutateEnding T × StateFile LeaseValue
      mutate [] s = (contention, s)
      mutate (a ∷ later) s =
          let rest = mutate later (run limits s a.between) in
          after_update a s (rest_of later rest) (changed a.read_at s)

      -- The round `a`, from `s` on, makes the update in one step to what is stored after the calls of others
      -- between its read and its write, with the result `t` and what is then stored in `u`; no other key
      -- is changed in that step.
      pub record WritesAt (a : Attempt) (s : StateFile LeaseValue) (t : T)
          (u : StateFile LeaseValue) : Type 0 where
        pub out : List Lease
        pub entry : Entry LeaseValue
        pub updated : changed a.read_at (run limits s a.between) ≡ ok (t, out)
        pub written : lookup state_key u.entries ≡ some entry
        pub holds : entry.value ≡ leases out
        pub kept :
            (k : String)
            → k ≢ state_key
            → lookup k u.entries ≡ lookup k (run limits s a.between).entries

      -- The write of the round `a`, from `s` on, is refused for its version.
      pub record IsRefused (a : Attempt) (s : StateFile LeaseValue) : Type 0 where
        pub made : T
        pub out : List Lease
        pub expected : ℕ
        pub found : ℕ
        pub updated : changed a.read_at s ≡ ok (made, out)
        pub refused :
            put limits (run limits s a.between) (lease_write s out) a.written_at
            ≡ State.err (swap_failed expected found)

      -- One of the rounds makes the update in one step, and the writes of all before it are refused.
      pub IsAtomic : List Attempt → StateFile LeaseValue → T → StateFile LeaseValue → Type 0
      IsAtomic [] s t u = ⊥
      IsAtomic (a ∷ later) s t u =
          WritesAt a s t u ⊎ (IsRefused a s × IsAtomic later (run limits s a.between) t u)

      after_write_returned :
          (made t : T) (s u : StateFile LeaseValue)
          (rest : Option (MutateEnding T × StateFile LeaseValue))
          (r : State.Result (Entry LeaseValue × StateFile LeaseValue))
          → after_write made s rest r ≡ (returned t, u)
          → ((e : Entry LeaseValue) × (made ≡ t) × (r ≡ State.ok (e, u)))
            ⊎ ((rest ≡ some (returned t, u))
                × ((expected : ℕ) × (found : ℕ) × (r ≡ State.err (swap_failed expected found))))
      after_write_returned made t s u rest (State.ok (e, v)) h = inl (e, ground arith, ground arith)
      after_write_returned made t s u (some rest) (State.err (swap_failed x y)) h =
          inr (ap some h, (x, y, refl))
      after_write_returned made t s u none (State.err e) h = absurd (ground arith)
      after_write_returned made t s u (some rest) (State.err State.invalid_key) h =
          absurd (ground arith)
      after_write_returned made t s u (some rest) (State.err State.value_too_large) h =
          absurd (ground arith)
      after_write_returned made t s u (some rest) (State.err State.state_too_large) h =
          absurd (ground arith)

      version_of_plain :
          (s : StateFile LeaseValue)
          → IsPlain state_key s
          → version_of (lookup state_key s.entries) ≡ actual_version s state_key
      version_of_plain s plain = elim (Option-cases (lookup state_key s.entries)) [
        | inl q ↦ rw q (sym (actual_none s state_key q (ground arith)))
        | inr (e, q) ↦ rw q (sym (actual_live s state_key e q))
      ]

      write-WritesAt :
          (a : Attempt) (s u : StateFile LeaseValue) (t : T) (out : List Lease)
          (e : Entry LeaseValue)
          → All (Spares state_key) a.between
          → IsPlain state_key s
          → changed a.read_at s ≡ ok (t, out)
          → put limits (run limits s a.between) (lease_write s out) a.written_at ≡ State.ok (e, u)
          → WritesAt a s t u
      unfolding changed
      write-WritesAt a s u t out e spares plain update_is h =
          let same =
            swap_unchanged limits s u a.between (lease_write s out) a.written_at e plain spares
              (ap some (version_of_plain s plain)) h in
          let v = run limits s a.between in
          let (_, _, made, stored) = put_ok limits v u (lease_write s out) a.written_at e h in
          let named : e.key ≡ state_key =
            ap (λ (x : Entry LeaseValue). x.key) made ∙ (unfold put_entry in refl) in
          record {
            out = out;
            entry = e;
            updated =
                ap (λ x. stored_leases x >>= λ ls. update a.read_at (active a.read_at ls)) same
                ∙ update_is;
            written = ground (arith, put_state-lookup limits v e state_key, eq_iff e.key state_key);
            holds = ap (λ (x : Entry LeaseValue). x.value) made ∙ (unfold put_entry in refl);
            kept = λ k away. ground (arith, put_state-lookup limits v e k, eq_iff e.key k);
          }

      rest_of_returned :
          (rounds : List Attempt) (r x : MutateEnding T × StateFile LeaseValue)
          → rest_of rounds r ≡ some x
          → r ≡ x
      rest_of_returned [] r x h = absurd (ground arith)
      rest_of_returned (a ∷ rounds) r x h = ground arith

      after_update-IsAtomic :
          (a : Attempt) (rounds : List Attempt) (s u : StateFile LeaseValue) (t : T)
          (later : MutateEnding T × StateFile LeaseValue) (m : Result (T × List Lease))
          → All (Spares state_key) a.between
          → IsPlain state_key s
          → changed a.read_at s ≡ m
          → (later ≡ (returned t, u) → IsAtomic rounds (run limits s a.between) t u)
          → after_update a s (rest_of rounds later) m ≡ (returned t, u)
          → IsAtomic (a ∷ rounds) s t u
      unfolding IsAtomic
      after_update-IsAtomic a rounds s u t later (err e) spare plain is rest h =
          absurd (ground arith)
      after_update-IsAtomic a rounds s u t later (ok (made, out)) spare plain is rest h =
          elim (after_write_returned made t (run limits s a.between) u (rest_of rounds later)
            (put limits (run limits s a.between) (lease_write s out) a.written_at) h) [
              | inl (e, same, stored) ↦ inl (
                  write-WritesAt a s u t out e spare plain (is ∙ ap (λ x. ok (x, out)) same) stored)
              | inr (tried, (x, y, lost)) ↦ inr (
                record {
                  made = made;
                  out = out;
                  expected = x;
                  found = y;
                  updated = is;
                  refused = lost;
                },
                rest (rest_of_returned rounds later (returned t, u) tried),
              )
            ]

      -- An update of the leases that returns took place at once: when the key of the leases has an entry or
      -- no remembered version at first, and nobody deletes it, one of the rounds makes the update of what
      -- is stored after all calls of others before its write, its own ones in between included, and leaves
      -- every other key as it is then; and the writes of all rounds before it were refused.
      pub mutate-IsAtomic :
          (rounds : List Attempt) (s u : StateFile LeaseValue) (t : T)
          → All (λ a. All (Spares state_key) a.between) rounds
          → IsPlain state_key s
          → mutate rounds s ≡ (returned t, u)
          → IsAtomic rounds s t u
      unfolding mutate
      mutate-IsAtomic [] s u t spares plain h = absurd (ground arith)
      mutate-IsAtomic (a ∷ rounds) s u t (spare, spares) plain h =
          after_update-IsAtomic a rounds s u t (mutate rounds (run limits s a.between))
            (changed a.read_at s) spare plain refl
            (mutate-IsAtomic rounds (run limits s a.between) u t spares
              (run-Moves limits state_key s a.between spare plain).0)
            h
