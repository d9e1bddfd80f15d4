-- ===== src/LogTail/Tests.antt =====
-- Runs of log-tail.ts.
use ultra_fabric.Prelude.{◌≡◌, refl, none, some, [], ◌∷◌}
use ultra_fabric.LogTail.{Bytes, read_page, complete_lines, buffer_start, pieces_of, strip_return}

-- `a⏎b\r⏎⏎cd`
abbrev four_lines : Bytes
four_lines = 97 ∷ 10 ∷ 98 ∷ 13 ∷ 10 ∷ 10 ∷ 99 ∷ 100 ∷ []

last_two : read_page four_lines 2 none 100 ≡ record {
  lines = record { offset = 2; raw = 98 ∷ [] } ∷ record { offset = 6; raw = 99 ∷ 100 ∷ [] } ∷ [];
  before = some 2;
}
unfolding read_page complete_lines buffer_start pieces_of strip_return
last_two = refl

-- A bound on the bytes drops the line that it cuts.
cut_line :
    read_page four_lines 2 none 4
    ≡ record { lines = record { offset = 6; raw = 99 ∷ 100 ∷ [] } ∷ []; before = some 6 }
unfolding read_page complete_lines buffer_start pieces_of strip_return
cut_line = refl

the_first :
    read_page four_lines 2 (some 2) 100
    ≡ record { lines = record { offset = 0; raw = 97 ∷ [] } ∷ []; before = none }
unfolding read_page complete_lines buffer_start pieces_of strip_return
the_first = refl
