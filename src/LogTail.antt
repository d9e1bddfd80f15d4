-- ===== src/LogTail.antt =====
-- log-tail.ts: a page of the lines of a file, read backwards. Every read is taken to return all the
-- bytes that it asks for.
mod Tests
use ultra_fabric.Prelude.{
  ℕ, zero, suc, ◌+◌, ◌-◌, Bool, true, false, ◌&&◌, ◌||◌, Option, none, some, List, [], ◌∷◌, ◌++◌,
  min, max, ltb, leb, ◌==◌, nat_equality, if◌then◌else◌, length, take, drop, count,
}

abbrev pub Bytes : Type 0
Bytes = List ℕ

-- The bytes up to the next newline, and the pieces after it, one for each newline.
pub record Pieces : Type 0 where
  pub first : Bytes
  pub rest : List Bytes

abbrev pub cut_here : Pieces → Pieces
cut_here p = record { first = []; rest = p.first ∷ p.rest }

abbrev pub cons_byte : ℕ → Pieces → Pieces
cons_byte b p = record p { first = b ∷ p.first }

unfoldable pub pieces_of : Bytes → Pieces
pieces_of [] = record { first = []; rest = [] }
pieces_of (b ∷ bytes) =
    let later = pieces_of bytes in if b == 10 then cut_here later else cons_byte b later

-- A line without the carriage return that it ends with.
unfoldable pub strip_return : Bytes → Bytes
strip_return [] = []
strip_return (b ∷ []) = if b == 13 then [] else b ∷ []
strip_return (b ∷ c ∷ line) = b ∷ strip_return (c ∷ line)

pub record LogLine : Type 0 where
  pub offset : ℕ
  pub raw : Bytes

abbrev pub read_chunk_bytes : ℕ
read_chunk_bytes = 65_536

-- The bytes from an offset to another.
abbrev pub slice : Bytes → ℕ → ℕ → Bytes
slice file from to = take (to - from) (drop from file)

abbrev pub line_at : Bool → ℕ → Bytes → List LogLine
line_at included offset raw =
    if included && ltb 0 (length raw) then record { offset = offset; raw = raw } ∷ [] else []

-- `completeLines`: `included` is `!first || bufferStart === 0`.
unfoldable pub complete_lines : Bool → ℕ → Bytes → List Bytes → List LogLine
complete_lines included offset piece [] = line_at included offset (strip_return piece)
complete_lines included offset piece (next ∷ later) =
    line_at included offset (strip_return piece)
    ++ complete_lines true (offset + length piece + 1) next later

-- The loop that reads chunks backwards, on the start of what is read; each round lowers it, so the
-- end of the file is enough fuel.
unfoldable pub buffer_start : ℕ → Bytes → ℕ → ℕ → ℕ → ℕ → ℕ
buffer_start zero file file_end limit max_bytes start = start
buffer_start (suc fuel) file file_end limit max_bytes start =
    let chunk = min read_chunk_bytes (min start (max_bytes - (file_end - start))) in
    let rest = buffer_start fuel file file_end limit max_bytes (start - chunk) in
    if ltb 0 start
      && leb (count (λ b. b == 10) (slice file start file_end)) limit
      && ltb (file_end - start) max_bytes
    then rest
    else start

pub record Page : Type 0 where
  pub lines : List LogLine
  pub before : Option ℕ

abbrev pub end_of_page : Option ℕ → ℕ → ℕ
end_of_page none size = size
end_of_page (some before) size = min before size

abbrev pub first_offset : List LogLine → Option ℕ
first_offset [] = none
first_offset (l ∷ lines) = some l.offset

-- `readJsonlPageFromDescriptor`; a page has more before it exactly where `before` is given.
unfoldable pub read_page : Bytes → ℕ → Option ℕ → ℕ → Page
read_page file page_limit before page_bytes =
    let file_end = end_of_page before (length file) in
    let limit = max 1 page_limit in
    let start = buffer_start file_end file file_end limit (max 1 page_bytes) file_end in
    let pieces = pieces_of (slice file start file_end) in
    let records = complete_lines (start == 0) start pieces.first pieces.rest in
    let selected = drop (length records - limit) records in
    record {
      lines = selected;
      before =
          if ltb (length selected) (length records) || ltb 0 start
          then first_offset selected
          else none;
    }
