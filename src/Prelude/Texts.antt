-- ===== src/Prelude/Texts.antt =====
-- What the source uses of JavaScript's text: truthiness, `trim` and `length`.
use Prim.Native.Nat.{ℕ, ◌+◌, ◌-◌}
use Prim.Native.Char.{Char, code}
use Prim.Native.String.{String, [], ◌∷◌}
use mathlib.Core.Bool.{Bool, true, false, ◌&&◌, ◌||◌}
use mathlib.Core.Option.{Option, none, some}
use ultra_fabric.Prelude.Tests.{leb, ◌==◌, nat_equality, string_equality, if◌then◌else◌}

-- A text is false exactly when it is empty.
abbrev pub non_empty : String → Bool
non_empty [] = false
non_empty (c ∷ s) = true

-- The truthiness of `string | undefined`.
abbrev pub truthy : Option String → Bool
truthy none = false
truthy (some s) = non_empty s

-- `...(o ? { field: o } : {})`
abbrev pub keep_truthy : Option String → Option String
keep_truthy none = none
keep_truthy (some []) = none
keep_truthy (some (c ∷ s)) = some (c ∷ s)

-- The white space and line ends that `trim` takes off.
unfoldable pub is_space : ℕ → Bool
is_space c =
    (leb 9 c && leb c 13)
    || c == 32
    || c == 160
    || c == 0x1680
    || (leb 0x2000 c && leb c 0x200a)
    || c == 0x2028
    || c == 0x2029
    || c == 0x202f
    || c == 0x205f
    || c == 0x3000
    || c == 0xfeff

trim_start : String → String
trim_start [] = []
trim_start (c ∷ s) = let rest = trim_start s in if is_space (code c) then rest else c ∷ s

cons_trimmed : Char → String → String
cons_trimmed c [] = if is_space (code c) then [] else c ∷ []
cons_trimmed c (d ∷ s) = c ∷ d ∷ s

trim_end : String → String
trim_end [] = []
trim_end (c ∷ s) = cons_trimmed c (trim_end s)

unfoldable pub trim : String → String
unfolding is_space trim_start cons_trimmed trim_end
trim s = trim_end (trim_start s)

-- `left + right`
unfoldable pub joined : String → String → String
joined [] right = right
joined (c ∷ left) right = c ∷ joined left right

-- `s.length`, in UTF-16 code units.
unfoldable pub text_length : String → ℕ
text_length [] = 0
text_length (c ∷ s) = (if leb 0x10000 (code c) then 2 else 1) + text_length s

-- `s.slice(0, n)`. A character that only half fits is left out; JavaScript keeps its first half.
unfoldable pub slice_start : ℕ → String → String
slice_start n [] = []
slice_start n (c ∷ s) =
    let units : ℕ = if leb 0x10000 (code c) then 2 else 1 in
    let rest = slice_start (n - units) s in if leb units n then c ∷ rest else []
