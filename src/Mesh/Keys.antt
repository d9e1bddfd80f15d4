-- ===== src/Mesh/Keys.antt =====
-- The keys and topics that mesh/store.ts accepts.
use Prim.Native.Char.{Char, code}
use Prim.Native.String
use Prim.Native.String.{[], ◌∷◌}
use ultra_fabric.Prelude.{
  ℕ, ◌-◌, ◌≡◌, refl, String, Bool, true, false, ◌&&◌, ◌||◌, not, List, ltb, leb, ◌==◌, nat_equality,
  string_equality, if◌then◌else◌, any,
}

unfoldable pub is_alphanumeric : ℕ → Bool
is_alphanumeric c =
    (leb b'a' c && leb c b'z') || (leb b'A' c && leb c b'Z') || (leb b'0' c && leb c b'9')

is_key_char : ℕ → Bool
unfolding is_alphanumeric
is_key_char c = is_alphanumeric c || c == b'.' || c == b'_' || c == b':' || c == b'/' || c == b'-'

-- `[…]{0,n}$`
unfoldable pub matches_rest : (ℕ → Bool) → ℕ → String → Bool
matches_rest is_char n [] = true
matches_rest is_char n (c ∷ s) = is_char (code c) && ltb 0 n && matches_rest is_char (n - 1) s

-- `^[a-zA-Z0-9][…]{0,n}$`, for the characters of the second class.
unfoldable pub matches_pattern : (ℕ → Bool) → ℕ → String → Bool
unfolding is_alphanumeric matches_rest
matches_pattern is_char n [] = false
matches_pattern is_char n (c ∷ s) = is_alphanumeric (code c) && matches_rest is_char n s

push : String → Char → String
push s c = String.◌++◌ s (c ∷ [])

-- `key.split(/[/:]/)`, from the segment that is being read.
segments : String → String → List String
segments current [] = List.◌∷◌ current List.[]
segments current (c ∷ s) =
    let closed = List.◌∷◌ current (segments "" s) in
    let longer = segments (push current c) s in
    if code c == b'/' || code c == b':' then closed else longer

is_unsafe_segment : String → Bool
is_unsafe_segment segment =
    segment == "__proto__" || segment == "prototype" || segment == "constructor"

unfoldable pub valid_topic : String → Bool
unfolding is_alphanumeric is_key_char matches_rest matches_pattern
valid_topic topic = matches_pattern is_key_char 127 topic

unfoldable pub valid_key : String → Bool
unfolding is_alphanumeric is_key_char matches_rest matches_pattern push segments is_unsafe_segment
valid_key key = matches_pattern is_key_char 255 key && not (any is_unsafe_segment (segments "" key))

lease_key_is_valid : valid_key "path-leases/v1" ≡ true
unfolding valid_key
lease_key_is_valid = refl

prototype_is_refused : valid_key "a/__proto__:b" ≡ false
unfolding valid_key
prototype_is_refused = refl
