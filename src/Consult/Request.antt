-- ===== src/Consult/Request.antt =====
-- consult/policy.ts: the request that is parsed from the input of a consultation. Its `text` is the
-- `boundedText` of reducer.ts.
use Prim.Native.Char.{Char, code}
use ultra_fabric.Prelude.{
  ℕ, String, Bool, true, false, ◌&&◌, ◌||◌, not, Option, none, some, List, [], ◌∷◌, ◌++◌, ltb, leb,
  ◌==◌, nat_equality, string_equality, if◌then◌else◌, is_some, any, includes, non_empty, trim,
  text_length, is_space, joined,
}
use ultra_fabric.Mesh.Keys.{is_alphanumeric, matches_pattern}
use ultra_fabric.Consult.Values.{
  JsonValue, text, array, JsonValues, no_values, value_then, ◌>>=◌, only_if, field_of, is_object,
  bounded_text, number_of_values,
}

pub data ConsultMode : Type 0 where
  auto partition challenge compare : ConsultMode

pub data ConsultJustification : Type 0 where
  context_capacity independent_verification structural_diversity : ConsultJustification

pub record ConsultPerspective : Type 0 where
  pub id : String
  pub question : String
  pub scope : List String
  pub model : Option String

pub record ConsultRequest : Type 0 where
  pub objective : String
  pub decision : String
  pub mode : ConsultMode
  pub proposal : Option String
  pub justification : ConsultJustification
  pub independence : String
  pub could_change : String
  pub perspectives : List ConsultPerspective

-- `replaceAll("\\", "/")`
forward_slashes : String → String
forward_slashes String.[] = String.[]
forward_slashes (String.◌∷◌ c s) =
    let rest = forward_slashes s in if code c == 92 then joined "/" rest else String.◌∷◌ c rest

-- `replace(/^(?:\.\/)+/, "")`
strip_dots : String → String
strip_dots String.[] = String.[]
strip_dots (String.◌∷◌ c String.[]) = String.◌∷◌ c String.[]
strip_dots (String.◌∷◌ c (String.◌∷◌ d s)) =
    let rest = strip_dots s in
    if code c == b'.' && code d == b'/' then rest else String.◌∷◌ c (String.◌∷◌ d s)

cons_stripped : Char → String → String
cons_stripped c String.[] = if code c == b'/' then String.[] else String.◌∷◌ c String.[]
cons_stripped c (String.◌∷◌ d s) = String.◌∷◌ c (String.◌∷◌ d s)

-- `replace(/\/+$/g, "")`
strip_slashes : String → String
strip_slashes String.[] = String.[]
strip_slashes (String.◌∷◌ c s) = cons_stripped c (strip_slashes s)

cons_part : Char → List String → List String
cons_part c [] = String.◌∷◌ c String.[] ∷ []
cons_part c (p ∷ ps) = String.◌∷◌ c p ∷ ps

-- `split("/")`
parts_of : String → List String
parts_of String.[] = "" ∷ []
parts_of (String.◌∷◌ c s) =
    let rest = parts_of s in if code c == b'/' then "" ∷ rest else cons_part c rest

has_null : String → Bool
has_null String.[] = false
has_null (String.◌∷◌ c s) = code c == 0 || has_null s

starts_with_char : ℕ → String → Bool
starts_with_char n String.[] = false
starts_with_char n (String.◌∷◌ c s) = code c == n

is_letter : ℕ → Bool
is_letter c = (leb b'a' c && leb c b'z') || (leb b'A' c && leb c b'Z')

-- `/^[A-Za-z]:\//`
has_drive : String → Bool
has_drive (String.◌∷◌ c (String.◌∷◌ d s)) =
    is_letter (code c) && code d == b':' && starts_with_char b'/' s
has_drive _ = false

unfoldable pub normalize_consult_path : JsonValue → Option String
unfolding forward_slashes strip_dots cons_stripped strip_slashes cons_part parts_of has_null
    starts_with_char is_letter has_drive
normalize_consult_path (text value) =
    let normalized = strip_slashes (strip_dots (forward_slashes (trim value))) in
    let parts = parts_of normalized in
    if ltb 1_024 (text_length value)
      || has_null value
      || not (non_empty normalized)
      || normalized == "."
      || starts_with_char b'/' normalized
      || starts_with_char b'~' normalized
      || has_drive normalized
      || includes ".." parts
      || includes "." parts
      || includes "" parts
    then none
    else some normalized
normalize_consult_path _ = none

-- The loop of `normalizeScope`; `paths` is what it has so far.
unfoldable pub collect_paths : List String → JsonValues → Option (List String)
collect_paths paths no_values = some paths
collect_paths paths (value_then v vs) = normalize_consult_path v >>= λ path.
    collect_paths (if includes path paths then paths else paths ++ path ∷ []) vs

unfoldable pub normalize_scope : Option JsonValue → Option (List String)
normalize_scope none = some []
normalize_scope (some (array vs)) = only_if (leb (number_of_values vs) 32) (collect_paths [] vs)
normalize_scope (some _) = none

is_id_tail : ℕ → Bool
unfolding is_alphanumeric
is_id_tail c = is_alphanumeric c || c == b'_' || c == b'-'

-- The pattern of an id. It has no bound of its own; an id here has at most 64 characters.
unfoldable pub is_perspective_id : String → Bool
unfolding is_id_tail matches_pattern
is_perspective_id id = matches_pattern is_id_tail 64 id

-- `\S+$`
unfoldable pub is_word : String → Bool
is_word String.[] = false
is_word (String.◌∷◌ c String.[]) = not (is_space (code c))
is_word (String.◌∷◌ c (String.◌∷◌ d s)) = not (is_space (code c)) && is_word (String.◌∷◌ d s)

-- `[^/\s]+\/\S+$`; the first argument says whether a character was there already.
unfoldable pub is_model_name : Bool → String → Bool
is_model_name started String.[] = false
is_model_name started (String.◌∷◌ c s) =
    let later = is_model_name true s in
    if code c == b'/' then started && is_word s else not (is_space (code c)) && later

abbrev pub is_model : Option String → Bool
is_model none = false
is_model (some s) = is_model_name false s

unfoldable pub parse_perspective : JsonValue → Option ConsultPerspective
parse_perspective value =
    let model = bounded_text 256 (field_of "model" value) in
    bounded_text 64 (field_of "id" value) >>= λ id.
    bounded_text 4_096 (field_of "question" value) >>= λ question.
    normalize_scope (field_of "scope" value) >>= λ scope.
    only_if (is_perspective_id id && (not (is_some (field_of "model" value)) || is_model model))
      (some (record { id = id; question = question; scope = scope; model = model }))

-- The loop over the perspectives; `seen` is what it has so far.
unfoldable pub parse_perspectives :
    List ConsultPerspective → JsonValues → Option (List ConsultPerspective)
parse_perspectives seen no_values = some seen
parse_perspectives seen (value_then v vs) = parse_perspective v >>= λ p.
    let later = parse_perspectives (seen ++ p ∷ []) vs in
    only_if (not (any (λ e. e.id == p.id) seen)) later

abbrev pub mode_of : Option JsonValue → Option ConsultMode
mode_of none = some auto
mode_of (some (text s)) =
    if s == "auto"
    then some auto
    else if s == "partition"
    then some partition
    else if s == "challenge"
    then some challenge
    else if s == "compare"
    then some compare
    else none
mode_of (some _) = none

abbrev pub justification_of : Option JsonValue → Option ConsultJustification
justification_of (some (text s)) =
    if s == "context_capacity"
    then some context_capacity
    else if s == "independent_verification"
    then some independent_verification
    else if s == "structural_diversity"
    then some structural_diversity
    else none
justification_of _ = none

abbrev pub values_of : Option JsonValue → Option JsonValues
values_of (some (array vs)) = some vs
values_of _ = none

-- The fields of `input.admission`: why, the independence, and what could change.
unfoldable pub parse_intent : Option JsonValue → Option (ConsultJustification × String × String)
parse_intent none = none
parse_intent (some value) = justification_of (field_of "justification" value) >>= λ justification.
    bounded_text 2_048 (field_of "independence" value) >>= λ independence.
    bounded_text 2_048 (field_of "couldChange" value) >>= λ could_change.
    some (justification, independence, could_change)

unfoldable pub parse_request : JsonValue → Option ConsultRequest
parse_request input =
    let proposal = bounded_text 8_192 (field_of "proposal" input) in
    only_if (is_object input && (not (is_some (field_of "proposal" input)) || is_some proposal)) (
      bounded_text 8_192 (field_of "objective" input) >>= λ objective.
      bounded_text 2_048 (field_of "decision" input) >>= λ decision.
      mode_of (field_of "mode" input) >>= λ mode.
      parse_intent (field_of "admission" input) >>= λ intent.
      values_of (field_of "perspectives" input) >>= λ items.
      parse_perspectives [] items >>= λ perspectives. some (record {
        objective = objective;
        decision = decision;
        mode = mode;
        proposal = proposal;
        justification = intent.0;
        independence = intent.1;
        could_change = intent.2;
        perspectives = perspectives;
      }))
