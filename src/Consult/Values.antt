-- ===== src/Consult/Values.antt =====
-- consult/reducer.ts: what it reads of a worker's JSON value. A field that is absent is `undefined`, and
-- no field is there twice.
use ultra_fabric.Prelude.{
  ℕ, suc, String, Bool, true, false, ◌&&◌, ◌||◌, not, Option, none, some, List, [], ◌∷◌, ◌++◌, max,
  ltb, leb, ◌==◌, nat_equality, string_equality, if◌then◌else◌, is_some, includes, non_empty, trim,
  text_length,
}

-- `integer` is a whole number that is not negative; `other` is another number, a Boolean or null.
mutual
  pub data JsonValue : Type 0 where
    text : String → JsonValue
    integer : ℕ → JsonValue
    other : JsonValue
    array : JsonValues → JsonValue
    object : JsonFields → JsonValue

  pub data JsonValues : Type 0 where
    no_values : JsonValues
    value_then : JsonValue → JsonValues → JsonValues

  pub data JsonFields : Type 0 where
    no_fields : JsonFields
    field_then : String → JsonValue → JsonFields → JsonFields

pub data ConsultStance : Type 0 where
  support challenge mixed silent : ConsultStance

pub data Confidence : Type 0 where
  low medium high : Confidence

pub record ConsultEvidenceCandidate : Type 0 where
  pub path : String
  pub line : Option ℕ
  pub end_line : Option ℕ
  pub claim : String

pub record ParsedFinding : Type 0 where
  pub summary : String
  pub confidence : Confidence
  pub evidence : List ConsultEvidenceCandidate

pub record ParsedWorkerValue : Type 0 where
  pub stance : ConsultStance
  pub recommendation : Option String
  pub findings : List ParsedFinding
  pub risks : List String
  pub uncertainty : List String

pub record ConsultReductionLimits : Type 0 where
  pub max_findings_per_worker : ℕ
  pub max_evidence_per_finding : ℕ

infixl 5 ◌>>=◌
abbrev pub ◌>>=◌ {ℓ κ} : {A : Type ℓ} {B : Type κ} → Option A → (A → Option B) → Option B
none >>= f = none
some a >>= f = f a

-- Go on only if the test holds.
abbrev pub only_if {ℓ} : {A : Type ℓ} → Bool → Option A → Option A
only_if b o = if b then o else none

unfoldable pub field_in : String → JsonFields → Option JsonValue
field_in key no_fields = none
field_in key (field_then k v fields) =
    let rest = field_in key fields in if k == key then some v else rest

-- `record(value)?.[key]`
abbrev pub field_of : String → JsonValue → Option JsonValue
field_of key (object o) = field_in key o
field_of key _ = none

abbrev pub is_object : JsonValue → Bool
is_object (object _) = true
is_object _ = false

unfoldable pub bounded_text : ℕ → Option JsonValue → Option String
bounded_text max_length (some (text s)) =
    let normalized = trim s in
    if non_empty normalized && leb (text_length normalized) max_length
    then some normalized
    else none
bounded_text max_length _ = none

abbrev pub number_of_values : JsonValues → ℕ
number_of_values no_values = 0
number_of_values (value_then v vs) = suc (number_of_values vs)

-- The loop of `boundedStrings`; `output` is what it has so far.
unfoldable pub collect_texts : ℕ → List String → JsonValues → Option (List String)
collect_texts max_length output no_values = some output
collect_texts max_length output (value_then v vs) =
    bounded_text max_length (some v) >>= λ normalized.
    collect_texts max_length
      (if includes normalized output then output else output ++ normalized ∷ []) vs

unfoldable pub bounded_strings : ℕ → ℕ → Option JsonValue → Option (List String)
bounded_strings max_items max_length (some (array vs)) =
    only_if (leb (number_of_values vs) max_items) (collect_texts max_length [] vs)
bounded_strings max_items max_length _ = none

abbrev pub positive_integer : Option JsonValue → Option ℕ
positive_integer (some (integer n)) = if n == 0 then none else some n
positive_integer _ = none

-- `endLine` is below `line`, or there without it.
abbrev pub is_misplaced : Option ℕ → Option ℕ → Bool
is_misplaced line none = false
is_misplaced none (some last) = true
is_misplaced (some first) (some last) = ltb last first

unfoldable pub parse_evidence : JsonValue → Option ConsultEvidenceCandidate
parse_evidence value =
    let line = positive_integer (field_of "line" value) in
    let end_line = positive_integer (field_of "endLine" value) in
    bounded_text 1_024 (field_of "path" value) >>= λ path.
    bounded_text 2_048 (field_of "claim" value) >>= λ claim.
    if (is_some (field_of "line" value) && not (is_some line))
      || (is_some (field_of "endLine" value) && not (is_some end_line))
      || is_misplaced line end_line
    then none
    else some (record { path = path; line = line; end_line = end_line; claim = claim })

unfoldable pub parse_all_evidence : JsonValues → Option (List ConsultEvidenceCandidate)
parse_all_evidence no_values = some []
parse_all_evidence (value_then v vs) =
    let rest = parse_all_evidence vs in
    parse_evidence v >>= λ parsed. rest >>= λ later. some (parsed ∷ later)

-- The array that is there, if it is one and has at most so many entries.
abbrev pub array_within : ℕ → Option JsonValue → Option JsonValues
array_within most (some (array vs)) = only_if (leb (number_of_values vs) most) (some vs)
array_within most _ = none

abbrev pub confidence_of : Option JsonValue → Option Confidence
confidence_of (some (text s)) =
    if s == "low"
    then some low
    else if s == "medium"
    then some medium
    else if s == "high"
    then some high
    else none
confidence_of _ = none

abbrev pub stance_of : Option JsonValue → Option ConsultStance
stance_of (some (text s)) =
    if s == "support"
    then some support
    else if s == "challenge"
    then some challenge
    else if s == "mixed"
    then some mixed
    else if s == "silent"
    then some silent
    else none
stance_of _ = none

unfoldable pub parse_finding : ℕ → JsonValue → Option ParsedFinding
parse_finding maximum_evidence value = bounded_text 2_048 (field_of "summary" value) >>= λ summary.
    confidence_of (field_of "confidence" value) >>= λ confidence.
    array_within maximum_evidence (field_of "evidence" value) >>= λ items.
    parse_all_evidence items >>= λ evidence.
    some (record { summary = summary; confidence = confidence; evidence = evidence })

unfoldable pub parse_findings : ℕ → JsonValues → Option (List ParsedFinding)
parse_findings maximum_evidence no_values = some []
parse_findings maximum_evidence (value_then v vs) =
    let rest = parse_findings maximum_evidence vs in
    parse_finding maximum_evidence v >>= λ finding. rest >>= λ later. some (finding ∷ later)

abbrev pub is_silent : ConsultStance → Bool
is_silent silent = true
is_silent _ = false

abbrev pub has_none {ℓ} : {A : Type ℓ} → List A → Bool
has_none [] = true
has_none (x ∷ xs) = false

-- A worker that is silent says nothing, and another has a finding.
abbrev pub fits_stance : ParsedWorkerValue → Bool
fits_stance p =
    if is_silent p.stance
    then has_none p.findings
      && not (is_some p.recommendation)
      && has_none p.risks
      && has_none p.uncertainty
    else not (has_none p.findings)

unfoldable pub parse_worker_value :
    ConsultReductionLimits → Option JsonValue → Option ParsedWorkerValue
parse_worker_value limits none = none
parse_worker_value limits (some value) =
    let recommendation = bounded_text 2_048 (field_of "recommendation" value) in
    only_if
      (is_object value
        && (not (is_some (field_of "recommendation" value)) || is_some recommendation))
      (stance_of (field_of "stance" value) >>= λ stance.
        bounded_strings 16 1_024 (field_of "risks" value) >>= λ risks.
        bounded_strings 16 1_024 (field_of "uncertainty" value) >>= λ uncertainty.
        array_within (max 1 limits.max_findings_per_worker) (field_of "findings" value) >>= λ items.
        parse_findings (max 1 limits.max_evidence_per_finding) items >>= λ findings.
        let parsed : ParsedWorkerValue = record {
          stance = stance;
          recommendation = recommendation;
          findings = findings;
          risks = risks;
          uncertainty = uncertainty;
        } in
        only_if (fits_stance parsed) (some parsed))
