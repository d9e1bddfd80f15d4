-- ===== src/Compact/Instructions.antt =====
-- compaction/instructions.ts, the part that writes: the bounds of a typed compaction request and its
-- encoding. `JSON.stringify` is a parameter. A text here has no unpaired surrogate, so the test for one
-- is left out.
use Prim.Native.Char.{code}
use Prim.Native.String.{[], ◌∷◌}
use ultra_fabric.Prelude.{
  ℕ, ◌+◌, String, Bool, ◌||◌, Option, none, some, List, ◌⊎◌, inl, inr, ltb, if◌then◌else◌, length,
  text_length, any, joined,
}

pub record TypedRequest : Type 0 where
  pub instructions : Option String
  pub preserve : Option (List String)

pub data Error : Type 0 where
  instructions_too_large preserve_too_many preserve_item_too_large encoded_too_large : Error

char_bytes : ℕ → ℕ
char_bytes c = if ltb c 0x80 then 1 else if ltb c 0x800 then 2 else if ltb c 0x10000 then 3 else 4

-- `utf8Bytes` of bounds.ts.
unfoldable pub utf8_bytes : String → ℕ
unfolding char_bytes
utf8_bytes [] = 0
utf8_bytes (c ∷ s) = char_bytes (code c) + utf8_bytes s

abbrev pub exceeds : ℕ → String → Bool
exceeds limit s = ltb limit (text_length s) || ltb limit (utf8_bytes s)

abbrev pub instructions_error : Option String → Option Error
instructions_error none = none
instructions_error (some s) = if exceeds 8_192 s then some instructions_too_large else none

abbrev pub preserve_error : Option (List String) → Option Error
preserve_error none = none
preserve_error (some items) =
    if ltb 16 (length items)
    then some preserve_too_many
    else if any (exceeds 2_048) items
    then some preserve_item_too_large
    else none

abbrev pub first_error : Option Error → Option Error → Option Error
first_error none later = later
first_error (some e) later = some e

unfoldable pub bounds_error : TypedRequest → Option Error
bounds_error request =
    first_error (instructions_error request.instructions) (preserve_error request.preserve)

abbrev pub unless_bounds_error {ℓ} : {A : Type ℓ} → Option Error → Error ⊎ A → Error ⊎ A
unless_bounds_error none result = result
unless_bounds_error (some e) result = inl e

abbrev pub request_prefix : String
request_prefix = "__pi_fabric_compact_request_v1__:"

module _ (json : TypedRequest → String) where
  unfoldable pub encode_request : TypedRequest → Error ⊎ String
  encode_request request =
      let encoded = joined request_prefix (json request) in
      unless_bounds_error (bounds_error request)
        (if ltb 16_384 (utf8_bytes encoded) then inl encoded_too_large else inr encoded)
