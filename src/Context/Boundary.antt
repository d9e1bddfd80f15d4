-- ===== src/Context/Boundary.antt =====
-- The messages that context/qos.ts protects because they are recent.
use ultra_fabric.Prelude.{
  ℕ, suc, ◌+◌, ◌-◌, ◌<◌, ◌≡◌, refl, ◌⊎◌, inl, inr, Bool, Option, none, some, List, [], ◌∷◌, ◌==◌,
  nat_equality, string_equality, max, count, drop, arith, Bool-cases,
}
use ultra_fabric.Context.{Message, or_zero, pass_message, boundary_from, protected_boundary}

module _ {J R : Type 0} where
  abbrev pub is_user : Message J R → Bool
  is_user m = m.role == "user"

  -- The boundary starts the last turns of the window, or the users that remain were not passed.
  abbrev Passed : ℕ → ℕ → List (Message J R) → Option ℕ → ℕ → Type 0
  Passed window index messages none remaining =
      (0 < remaining) × (remaining + count is_user messages ≡ window)
  Passed window index messages (some boundary) remaining =
      (k : ℕ) × (boundary ≡ index + k) × (count is_user (drop k messages) ≡ window)

  pass_message-Passed :
      (window index : ℕ) (m : Message J R) (messages : List (Message J R)) (o : Option ℕ)
      (remaining : ℕ)
      → Passed window (index + 1) messages o remaining
      → let next = pass_message index m o remaining in
        Passed window index (m ∷ messages) next.0 next.1
  pass_message-Passed window index m messages (some b) remaining (k, e, h) = (suc k, omega arith, h)
  pass_message-Passed window index m messages none remaining (pos, e) =
      elim (Bool-cases (is_user m)) [
        | inl user ↦ elim (Bool-cases (remaining - 1 == 0)) [
          | inl last ↦ rw (user, last) (0, omega arith, rw user (ground (arith, last)))
          | inr more ↦ rw (user, more, user) (ground (arith, more), ground (arith, more))
        ]
        | inr other ↦ rw (other, other) (pos, omega arith)
      ]

  boundary_from-Passed :
      (window index : ℕ) (messages : List (Message J R))
      → 0 < window
      → let b = boundary_from window index messages in Passed window index messages b.0 b.1
  unfolding boundary_from
  boundary_from-Passed window index [] h = (h, omega arith)
  boundary_from-Passed window index (m ∷ messages) h =
      pass_message-Passed window index m messages _ _
        (boundary_from-Passed window (index + 1) messages h)

  at_boundary :
      (window : ℕ) (messages : List (Message J R)) (o : Option ℕ) (remaining : ℕ)
      → Passed window 0 messages o remaining
      → ((count is_user messages < window) × (or_zero o ≡ 0))
        ⊎ (count is_user (drop (or_zero o) messages) ≡ window)
  at_boundary window messages none remaining (pos, e) = inl (omega arith, refl)
  at_boundary window messages (some b) remaining (k, e, h) =
      let same : b ≡ k = omega arith in inr (rw same h)

  -- The messages from the protected boundary on hold as many messages of the user as the window has
  -- turns, at least one; where all messages hold fewer, everything is protected.
  pub protected_boundary-count :
      (messages : List (Message J R)) (turn_window : ℕ)
      → let window = max 1 turn_window in
        let boundary = protected_boundary messages turn_window in
        ((count is_user messages < window) × (boundary ≡ 0))
        ⊎ (count is_user (drop boundary messages) ≡ window)
  unfolding protected_boundary
  protected_boundary-count messages turn_window =
      at_boundary (max 1 turn_window) messages _ _
        (boundary_from-Passed (max 1 turn_window) 0 messages (omega arith))
