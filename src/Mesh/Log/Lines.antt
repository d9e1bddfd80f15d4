-- ===== src/Mesh/Log/Lines.antt =====
-- What `#readEventsAfter` of mesh/store.ts returns, said by the lines of the whole file.
use ultra_fabric.Prelude.{
  ◌≤◌, ◌<◌, ◌≡◌, refl, sym, ap, ◌∙◌, ◌⊎◌, inl, inr, true, false, ◌&&◌, Option, none, some, List, [],
  ◌∷◌, ◌++◌, append-nil, append_assoc, if◌then◌else◌, if_true, if_false, ltb, leb, length,
  length-append, filter, filter-append, take, take-all, take-append, nat_equality, arith,
  Bool-cases,
}
use ultra_fabric.Mesh.Log.{MeshEvent}
use ultra_fabric.Mesh.Log.Events.{
  lines_of, join_rest, pieces_of-append, parsed_events, line_events, lines_events, log_events,
}
use ultra_fabric.LogTail.{Bytes, Pieces, pieces_of, strip_return}
use ultra_fabric.Mesh.Log.Reading.{
  Reader, new_reader, Query, add_segment, is_wanted, push_parsed, emit_line, read_segments,
  read_chunk, read_chunks, finish_read, read_events_after,
}

abbrev pub concat {ℓ} : {A : Type ℓ} → List (List A) → List A
concat [] = []
concat (xs ∷ rest) = xs ++ concat rest

-- The line that is read so far, and the lines after it.
abbrev glue : Bytes → Pieces → List Bytes
glue line p = (line ++ p.first) ∷ p.rest

-- No read returns nothing.
abbrev pub AllRead : List Bytes → Type 0
AllRead [] = Unit {0}
AllRead ([] ∷ chunks) = ⊥
AllRead ((b ∷ chunk) ∷ chunks) = AllRead chunks

module _ {D : Type 0} (q : Query D) where
  abbrev events_of_parse : Option (MeshEvent D) → List (MeshEvent D)
  events_of_parse none = []
  events_of_parse (some e) = if is_wanted q e then e ∷ [] else []

  -- The wanted events of one line: at most one.
  unfoldable events_of_line : Bytes → List (MeshEvent D)
  events_of_line line =
      if ltb 0 (length line) && leb (length line) q.max_event_bytes
      then events_of_parse (q.format.parse (strip_return line))
      else []

  unfoldable events_of_lines : List Bytes → List (MeshEvent D)
  events_of_lines [] = []
  events_of_lines (line ∷ lines) = events_of_line line ++ events_of_lines lines

  events_of_parse-eq-filter :
      (o : Option (MeshEvent D)) → events_of_parse o ≡ filter (is_wanted q) (parsed_events o)
  events_of_parse-eq-filter none = refl
  events_of_parse-eq-filter (some e) = refl

  events_of_line-eq-filter :
      (line : Bytes)
      → events_of_line line ≡ filter (is_wanted q) (line_events q.format q.max_event_bytes line)
  unfolding events_of_line line_events
  events_of_line-eq-filter line =
      elim (Bool-cases (ltb 0 (length line) && leb (length line) q.max_event_bytes)) [
        | inl e ↦ rw e (events_of_parse-eq-filter (q.format.parse (strip_return line)))
        | inr e ↦ rw e refl
      ]

  events_of_lines-eq-filter :
      (lines : List Bytes)
      → events_of_lines lines ≡ filter (is_wanted q) (lines_events q.format q.max_event_bytes lines)
  unfolding events_of_lines lines_events
  events_of_lines-eq-filter [] = refl
  events_of_lines-eq-filter (line ∷ lines) =
      rw (events_of_line-eq-filter line, events_of_lines-eq-filter lines)
        (sym (
          filter-append (is_wanted q) (line_events q.format q.max_event_bytes line)
            (lines_events q.format q.max_event_bytes lines)))

  -- The reader that has not reached its limit, with the bytes of its line.
  record Live (r : Reader D) (line : Bytes) : Type 0 where
    reading : r.reached ≡ false
    below : length r.found < q.limit
    skips : r.skipping ≡ ltb q.max_event_bytes (length line)
    keeps : r.line ≡ (if ltb q.max_event_bytes (length line) then [] else line)

  add_segment-Live :
      (r : Reader D) (line seg : Bytes)
      → Live r line
      → Live (add_segment q.max_event_bytes r seg) (line ++ seg)
  unfolding add_segment
  add_segment-Live r line seg h = ground (arith, length-append line seg)

  add_segment-found :
      (r : Reader D) (seg : Bytes) → (add_segment q.max_event_bytes r seg).found ≡ r.found
  unfolding add_segment
  add_segment-found r seg = ground arith

  record Pushed (r r' : Reader D) (o : Option (MeshEvent D)) : Type 0 where
    adds : r'.found ≡ r.found ++ events_of_parse o
    next :
        ((r'.reached ≡ true) × (length r'.found ≡ q.limit))
        ⊎ ((r'.reached ≡ false) × (length r'.found < q.limit))

  push_parsed-Pushed :
      (r : Reader D) (o : Option (MeshEvent D))
      → r.reached ≡ false
      → length r.found < q.limit
      → Pushed r (push_parsed q r o) o
  push_parsed-Pushed r none e h = ground (arith, append-nil r.found)
  push_parsed-Pushed r (some v) e h =
      ground (arith, append-nil r.found, length-append r.found (v ∷ []))

  record Emitted (r r' : Reader D) (line : Bytes) : Type 0 where
    adds : r'.found ≡ r.found ++ events_of_line line
    next : ((r'.reached ≡ true) × (length r'.found ≡ q.limit)) ⊎ Live r' []

  emit_line-Emitted : (r : Reader D) (line : Bytes) → Live r line → Emitted r (emit_line q r) line
  unfolding emit_line events_of_line
  emit_line-Emitted r line h =
      let o = q.format.parse (strip_return line) in
      let pushed : Pushed r (push_parsed q r o) o = push_parsed-Pushed r o h.reading h.below in
      ground (arith, pushed.adds, pushed.next, append-nil r.found)

  -- What the rest of a read makes of a reader that has read part of a line.
  abbrev Answers : (Reader D → Reader D) → Pieces → Type 0
  Answers rest p =
      (r : Reader D) (line : Bytes)
      → Live r line
      → (rest r).found ≡ take q.limit (r.found ++ events_of_lines (glue line p))

  abbrev Stops : (Reader D → Reader D) → Type 0
  Stops rest = (r : Reader D) → r.reached ≡ true → (rest r).found ≡ r.found

  length-events_of_parse : (o : Option (MeshEvent D)) → length (events_of_parse o) ≤ 1
  length-events_of_parse none = omega arith
  length-events_of_parse (some e) = ground arith

  length-events_of_line : (line : Bytes) → length (events_of_line line) ≤ 1
  unfolding events_of_line
  length-events_of_line line =
      ground (arith, length-events_of_parse (q.format.parse (strip_return line)))

  found-finish_read :
      (r : Reader D) (line : Bytes)
      → Live r line
      → (finish_read q r).found ≡ r.found ++ events_of_line line
  unfolding finish_read events_of_line
  found-finish_read r line h = ground (arith, (emit_line-Emitted r line h).adds, append-nil r.found)

  finish_read-Answers : Answers (finish_read q) (record { first = []; rest = [] })
  unfolding events_of_lines
  finish_read-Answers r line h =
      let short : length (r.found ++ events_of_line line) ≤ q.limit =
        omega (
          arith,
          length-append r.found (events_of_line line),
          length-events_of_line line,
          h.below,
        ) in
      rw (append-nil line, append-nil (events_of_line line), take-all q.limit _ short)
        (found-finish_read r line h)

  finish_read-Stops : Stops (finish_read q)
  unfolding finish_read
  finish_read-Stops r h = ground arith

  -- A line that ends: what the reader has found, and whether it goes on.
  end_of_line :
      (r : Reader D) (line seg : Bytes)
      → Live r line
      → let r' = emit_line q (add_segment q.max_event_bytes r seg) in
        (r'.found ≡ r.found ++ events_of_line (line ++ seg))
        × (((r'.reached ≡ true) × (length r'.found ≡ q.limit)) ⊎ Live r' [])
  end_of_line r line seg h =
      let a = add_segment q.max_event_bytes r seg in
      let e : Emitted a (emit_line q a) (line ++ seg) =
        emit_line-Emitted a (line ++ seg) (add_segment-Live r line seg h) in
      (e.adds ∙ ap (λ es. es ++ events_of_line (line ++ seg)) (add_segment-found r seg), e.next)

  take_found :
      (xs ys zs : List (MeshEvent D))
      → length (xs ++ ys) ≡ q.limit
      → xs ++ ys ≡ take q.limit (xs ++ (ys ++ zs))
  take_found xs ys zs e = rw (← e, ← append_assoc xs ys zs) (sym (take-append (xs ++ ys) zs))

  read_segments-Answers :
      (k : Reader D → Reader D) (p : Pieces) (seg : Bytes) (rest : List Bytes)
      → Answers k p
      → Stops k
      → Answers (λ r. k (read_segments q r seg rest)) (join_rest seg rest p)
  unfolding read_segments join_rest
  read_segments-Answers k p seg [] answers stops r line h =
      let a = add_segment q.max_event_bytes r seg in
      answers a (line ++ seg) (add_segment-Live r line seg h)
      ∙ rw (add_segment-found r seg, append_assoc line seg p.first) refl
  read_segments-Answers k p seg (next ∷ later) answers stops r line h =
      let r' = emit_line q (add_segment q.max_event_bytes r seg) in
      let ys = events_of_line (line ++ seg) in
      let p' = join_rest next later p in
      let (found, next_state) = end_of_line r line seg h in
      elim next_state [
        | inl (stop, full) ↦ rw (if_true _ r' _ stop) (
            stops r' stop
            ∙ found
            ∙ unfold events_of_lines in
              take_found r.found ys (events_of_lines (lines_of p')) (sym (ap length found) ∙ full))
        | inr live ↦ rw (if_false _ r' _ live.reading) (
            read_segments-Answers k p next later answers stops r' [] live
            ∙ unfold events_of_lines in
              rw (found, append_assoc r.found ys (events_of_lines (lines_of p'))) refl)
      ]

  read_chunks-Stops : (chunks : List Bytes) → Stops (λ r. finish_read q (read_chunks q r chunks))
  unfolding read_chunks finish_read
  read_chunks-Stops [] r h = finish_read-Stops r h
  read_chunks-Stops ([] ∷ chunks) r h = finish_read-Stops r h
  read_chunks-Stops ((b ∷ chunk) ∷ chunks) r h = rw (if_true _ r _ h) (finish_read-Stops r h)

  read_chunk-Answers :
      (k : Reader D → Reader D) (chunk bytes : Bytes)
      → Answers k (pieces_of bytes)
      → Stops k
      → Answers (λ r. k (read_chunk q r chunk)) (pieces_of (chunk ++ bytes))
  unfolding read_chunk
  read_chunk-Answers k chunk bytes answers stops =
      let p = pieces_of chunk in
      rw (pieces_of-append chunk bytes)
        (read_segments-Answers k (pieces_of bytes) p.first p.rest answers stops)

  no_chunks-Answers : Answers (finish_read q) (pieces_of [])
  unfolding pieces_of
  no_chunks-Answers = finish_read-Answers

  read_chunks-Answers :
      (chunks : List Bytes)
      → AllRead chunks
      → Answers (λ r. finish_read q (read_chunks q r chunks)) (pieces_of (concat chunks))
  unfolding read_chunks
  read_chunks-Answers [] all r line h = no_chunks-Answers r line h
  read_chunks-Answers ([] ∷ chunks) all r line h = absurd all
  read_chunks-Answers ((b ∷ chunk) ∷ chunks) all r line h = rw (if_false _ r _ h.reading) (
      read_chunk-Answers (λ r. finish_read q (read_chunks q r chunks)) (b ∷ chunk) (concat chunks)
        (read_chunks-Answers chunks all) (read_chunks-Stops chunks) r line h)

  -- However a log is cut into chunks that are not empty, a read returns the first events, up to its
  -- limit (one at least), of those in the log that are after its cursor and match its filter. The
  -- events of the log are those of its lines that are neither empty nor longer than an event may be;
  -- the last line counts with no newline after it.
  pub read_events_after-eq-take :
      (chunks : List Bytes)
      → AllRead chunks
      → 0 < q.limit
      → read_events_after q chunks
        ≡ take q.limit
            (filter (is_wanted q) (log_events q.format q.max_event_bytes (concat chunks)))
  unfolding read_events_after
  read_events_after-eq-take chunks all h =
      read_chunks-Answers chunks all new_reader [] (ground arith)
      ∙ ap (take q.limit) (events_of_lines-eq-filter (lines_of (pieces_of (concat chunks))))
