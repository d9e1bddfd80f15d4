-- ===== src/Mesh/Log/Events.antt =====
-- The events that the log of mesh/store.ts holds, line by line.
use ultra_fabric.Prelude.{
  ℕ, ◌≡◌, refl, sym, ◌⊎◌, inl, inr, false, ◌&&◌, Option, none, some, List, [], ◌∷◌, ◌++◌,
  append-nil, append_assoc, if◌then◌else◌, ltb, leb, ◌==◌, nat_equality, length, Bool-cases,
}
use ultra_fabric.Mesh.Log.{MeshEvent, Format}
use ultra_fabric.LogTail.{Bytes, Pieces, pieces_of, cons_byte, strip_return}

abbrev pub lines_of : Pieces → List Bytes
lines_of p = p.first ∷ p.rest

unfoldable pub join_rest : Bytes → List Bytes → Pieces → Pieces
join_rest f [] p = record { first = f ++ p.first; rest = p.rest }
join_rest f (g ∷ rest) p = record { first = f; rest = lines_of (join_rest g rest p) }

join_rest-cons_byte :
    (b : ℕ) (f : Bytes) (rest : List Bytes) (p : Pieces)
    → join_rest (b ∷ f) rest p ≡ cons_byte b (join_rest f rest p)
unfolding join_rest
join_rest-cons_byte b f [] p = refl
join_rest-cons_byte b f (g ∷ rest) p = refl

pub pieces_of-append :
    (xs ys : Bytes)
    → pieces_of (xs ++ ys) ≡ join_rest (pieces_of xs).first (pieces_of xs).rest (pieces_of ys)
unfolding pieces_of
pieces_of-append [] ys = unfold join_rest in refl
pieces_of-append (b ∷ xs) ys = elim (Bool-cases (b == 10)) [
  | inl e ↦ rw (e, pieces_of-append xs ys) (unfold join_rest in refl)
  | inr e ↦ rw (e, pieces_of-append xs ys) (sym (join_rest-cons_byte b _ _ _))
]

-- The file is empty or ends with a newline.
abbrev LastEmpty : List Bytes → Type 0
LastEmpty [] = ⊥
LastEmpty (line ∷ []) = line ≡ []
LastEmpty (line ∷ next ∷ later) = LastEmpty (next ∷ later)

abbrev pub IsWhole : Bytes → Type 0
IsWhole bytes = (bytes ≡ []) ⊎ LastEmpty (pieces_of bytes).rest

LastEmpty-cons : (line : Bytes) (rest : List Bytes) → LastEmpty rest → LastEmpty (line ∷ rest)
LastEmpty-cons line [] h = absurd h
LastEmpty-cons line (next ∷ later) h = h

LastEmpty-snoc : (bytes : Bytes) → LastEmpty (pieces_of (bytes ++ 10 ∷ [])).rest
unfolding pieces_of
LastEmpty-snoc [] = refl
LastEmpty-snoc (b ∷ bytes) = elim (Bool-cases (b == 10)) [
  | inl e ↦
      let p = pieces_of (bytes ++ 10 ∷ []) in
      rw e (LastEmpty-cons p.first p.rest (LastEmpty-snoc bytes))
  | inr e ↦ rw e (LastEmpty-snoc bytes)
]

pub append_newline-IsWhole : (bytes : Bytes) → IsWhole (bytes ++ 10 ∷ [])
append_newline-IsWhole bytes = inr (LastEmpty-snoc bytes)

-- A line's bytes hold no newline.
abbrev pub IsLine : Bytes → Type 0
IsLine [] = Unit {0}
IsLine (b ∷ line) = ((b == 10) ≡ false) × IsLine line

pieces_of-line : (line : Bytes) → IsLine line → pieces_of line ≡ record { first = line; rest = [] }
unfolding pieces_of
pieces_of-line [] h = refl
pieces_of-line (b ∷ line) (e, h) = rw (e, pieces_of-line line h) refl

abbrev pub parsed_events : {D : Type 0} → Option (MeshEvent D) → List (MeshEvent D)
parsed_events none = []
parsed_events (some e) = e ∷ []

module _ {D : Type 0} (format : Format D) (max_event_bytes : ℕ) where
  -- The event of a line: there is none where the line is empty or too long, or is no event.
  unfoldable pub line_events : Bytes → List (MeshEvent D)
  line_events line =
      if ltb 0 (length line) && leb (length line) max_event_bytes
      then parsed_events (format.parse (strip_return line))
      else []

  unfoldable pub lines_events : List Bytes → List (MeshEvent D)
  lines_events [] = []
  lines_events (line ∷ lines) = line_events line ++ lines_events lines

  -- The events of the log, oldest first.
  abbrev pub log_events : Bytes → List (MeshEvent D)
  log_events bytes = lines_events (lines_of (pieces_of bytes))

  pub no_bytes : log_events [] ≡ []
  unfolding lines_events line_events pieces_of
  no_bytes = refl

  lines_events-join_rest :
      (line : Bytes) (rest : List Bytes) (p : Pieces)
      → LastEmpty rest
      → lines_events (lines_of (join_rest line rest p))
        ≡ lines_events (line ∷ rest) ++ lines_events (lines_of p)
  unfolding lines_events join_rest
  lines_events-join_rest line [] p h = absurd h
  lines_events-join_rest line (last ∷ []) p h =
      rw (h, append_assoc (line_events line) (line_events [] ++ []) _) (unfold line_events in refl)
  lines_events-join_rest line (next ∷ g ∷ later) p h =
      rw
        (
          lines_events-join_rest next (g ∷ later) p h,
          append_assoc (line_events line) (line_events next ++ lines_events (g ∷ later)) _,
        )
        refl

  pub log_events-append :
      (xs ys : Bytes) → IsWhole xs → log_events (xs ++ ys) ≡ log_events xs ++ log_events ys
  log_events-append xs ys (inl e) = rw (e, no_bytes) refl
  log_events-append xs ys (inr h) =
      rw (pieces_of-append xs ys) (lines_events-join_rest _ _ (pieces_of ys) h)

  pub log_events-line :
      (line : Bytes) → IsLine line → log_events (line ++ 10 ∷ []) ≡ line_events line
  unfolding pieces_of lines_events join_rest line_events
  log_events-line line h =
      rw (pieces_of-append line (10 ∷ []), pieces_of-line line h)
        (rw (append-nil line) (append-nil (line_events line)))
