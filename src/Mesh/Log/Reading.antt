-- ===== src/Mesh/Log/Reading.antt =====
-- `#readEventsAfter` of mesh/store.ts: the log is read in chunks, and a line may cross them.
use ultra_fabric.Prelude.{
  ℕ, ◌+◌, Bool, true, false, ◌&&◌, ◌||◌, not, Option, none, some, List, [], ◌∷◌, ◌++◌,
  if◌then◌else◌, ltb, leb, length,
}
use ultra_fabric.Mesh.Log.{MeshEvent, Format, Filter, allows}
use ultra_fabric.LogTail.{Bytes, pieces_of, strip_return}

-- The variables of `#readEventsAfter`; `line` is the concatenation of `lineChunks`.
pub record Reader (D : Type 0) : Type 0 where
  pub line : Bytes
  pub skipping : Bool
  pub found : List (MeshEvent D)
  pub reached : Bool

abbrev pub new_reader : {D : Type 0} → Reader D
new_reader = record { line = []; skipping = false; found = []; reached = false }

abbrev pub fresh_line : {D : Type 0} → Reader D → Reader D
fresh_line r = record r { line = []; skipping = false }

-- A segment of a line longer than the limit makes the reader skip the rest of that line.
unfoldable pub add_segment : {D : Type 0} → ℕ → Reader D → Bytes → Reader D
add_segment max_event_bytes r segment =
    if r.skipping
    then r
    else if leb (length r.line + length segment) max_event_bytes
    then record r { line = r.line ++ segment }
    else record r { line = []; skipping = true }

-- What a reader asks for, with the format of the lines.
pub record Query (D : Type 0) : Type 0 where
  pub format : Format D
  pub max_event_bytes : ℕ
  pub after : ℕ
  pub wanted : Filter
  pub limit : ℕ

module _ {D : Type 0} (q : Query D) where
  unfoldable pub event_matches : MeshEvent D → Bool
  event_matches e = allows q.wanted.topic (some e.topic) && allows q.wanted.to e.to

  unfoldable pub is_wanted : MeshEvent D → Bool
  is_wanted e = ltb q.after e.sequence && event_matches e

  abbrev pub push_event : Reader D → MeshEvent D → Reader D
  push_event r e =
      let events = r.found ++ e ∷ [] in
      record r { found = events; reached = leb q.limit (length events) }

  abbrev pub push_parsed : Reader D → Option (MeshEvent D) → Reader D
  push_parsed r none = r
  push_parsed r (some e) = if is_wanted e then push_event r e else r

  unfoldable pub emit_line : Reader D → Reader D
  emit_line r =
      if not r.skipping && ltb 0 (length r.line)
      then fresh_line (push_parsed r (q.format.parse (strip_return r.line)))
      else fresh_line r

  -- The loop over the segments of a chunk. What follows the last newline may be empty.
  unfoldable pub read_segments : Reader D → Bytes → List Bytes → Reader D
  read_segments r segment [] = add_segment q.max_event_bytes r segment
  read_segments r segment (next ∷ later) =
      let r' = emit_line (add_segment q.max_event_bytes r segment) in
      let rest = read_segments r' next later in if r'.reached then r' else rest

  unfoldable pub read_chunk : Reader D → Bytes → Reader D
  read_chunk r chunk = let p = pieces_of chunk in read_segments r p.first p.rest

  -- The loop over the chunks, as `readSync` returns them; one with no bytes ends it.
  unfoldable pub read_chunks : Reader D → List Bytes → Reader D
  read_chunks r [] = r
  read_chunks r ([] ∷ chunks) = r
  read_chunks r ((b ∷ chunk) ∷ chunks) =
      let rest = read_chunks (read_chunk r (b ∷ chunk)) chunks in if r.reached then r else rest

  unfoldable pub finish_read : Reader D → Reader D
  finish_read r = if not r.reached && (ltb 0 (length r.line) || r.skipping) then emit_line r else r

  unfoldable pub read_events_after : List Bytes → List (MeshEvent D)
  read_events_after chunks = (finish_read (read_chunks new_reader chunks)).found
