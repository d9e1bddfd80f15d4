-- ===== src/Routing.antt =====
-- routing/model-router.ts: the choice of a model among a requested one and its fallbacks. Costs are
-- natural numbers of some unit, and a reason is a constructor in place of its text.
pub mod Choice
mod Tests
use ultra_fabric.Prelude.{
  ℕ, suc, String, Bool, true, false, ◌&&◌, ◌||◌, not, Option, none, some, List, [], ◌∷◌, ◌++◌, ltb,
  leb, ◌==◌, string_equality, if◌then◌else◌, length, take, filter, any, find, map, or_default, trim,
  unique, ◌⊎◌, inl, inr,
}

pub data Modality : Type 0 where
  text image : Modality

abbrev pub same_modality : Modality → Modality → Bool
same_modality text text = true
same_modality image image = true
same_modality _ _ = false

pub record Candidate : Type 0 where
  pub key : String
  pub available : Bool
  pub authenticated : Bool
  pub input : List Modality
  pub reasoning : Bool
  pub context_window : ℕ
  pub max_tokens : ℕ
  pub input_cost : ℕ
  pub output_cost : ℕ

pub record Requirements : Type 0 where
  pub input : List Modality
  pub reasoning : Bool
  pub min_context_window : Option ℕ
  pub min_output_tokens : Option ℕ
  pub max_input_cost : Option ℕ
  pub max_output_cost : Option ℕ

pub data Downgrade : Type 0 where
  smaller_context smaller_output reasoning_lost : Downgrade
  input_lost : Modality → Downgrade

pub data Reason : Type 0 where
  unavailable unauthenticated reasoning_required : Reason
  missing_input : Modality → Reason
  context_below output_below input_cost_above output_cost_above : ℕ → Reason
  quality_downgrade_blocked : List Downgrade → Reason

pub record Consideration : Type 0 where
  pub model : String
  pub is_eligible : Bool
  pub reasons : List Reason

pub data Kind : Type 0 where
  primary fallback : Kind

pub data Cause : Type 0 where
  requested primary_unavailable primary_unauthenticated capability_mismatch : Cause

pub data Quality : Type 0 where
  preserved downgraded : Quality

pub record Decision : Type 0 where
  pub requested_model : String
  pub selected_model : String
  pub kind : Kind
  pub cause : Cause
  pub quality : Quality
  pub downgrade_reasons : List Downgrade
  pub requirements : Requirements
  pub considered : List Consideration

pub record Input : Type 0 where
  pub requested_model : String
  pub fallback_models : List String
  pub requirements : Requirements
  pub candidates : List Candidate
  pub allow_quality_downgrade : Bool

abbrev pub includes_modality : Modality → List Modality → Bool
includes_modality m ms = any (same_modality m) ms

-- `if (test) reasons.push(reason)`
abbrev pub reason_if {ℓ} : {A : Type ℓ} → Bool → A → List A
reason_if true reason = reason ∷ []
reason_if false reason = []

missing_inputs : List Modality → List Modality → List Reason
missing_inputs had [] = []
missing_inputs had (m ∷ ms) =
    reason_if (not (includes_modality m had)) (missing_input m) ++ missing_inputs had ms

reason_below : ℕ → (ℕ → Reason) → Option ℕ → List Reason
reason_below value reason none = []
reason_below value reason (some bound) = reason_if (ltb value bound) (reason bound)

reason_above : ℕ → (ℕ → Reason) → Option ℕ → List Reason
reason_above value reason none = []
reason_above value reason (some bound) = reason_if (ltb bound value) (reason bound)

access_reasons : Candidate → List Reason
access_reasons c =
    if not c.available then unavailable ∷ [] else reason_if (not c.authenticated) unauthenticated

unfoldable pub hard_reasons : Candidate → Requirements → List Reason
unfolding missing_inputs reason_below reason_above access_reasons
hard_reasons c r =
    access_reasons c
    ++ missing_inputs c.input r.input
    ++ reason_if (r.reasoning && not c.reasoning) reasoning_required
    ++ reason_below c.context_window context_below r.min_context_window
    ++ reason_below c.max_tokens output_below r.min_output_tokens
    ++ reason_above c.input_cost input_cost_above r.max_input_cost
    ++ reason_above c.output_cost output_cost_above r.max_output_cost

lost_inputs : List Modality → List Modality → List Downgrade
lost_inputs had [] = []
lost_inputs had (m ∷ ms) =
    reason_if (not (includes_modality m had)) (input_lost m) ++ lost_inputs had ms

unfoldable pub quality_reasons : Candidate → Candidate → List Downgrade
unfolding lost_inputs
quality_reasons first c =
    reason_if (ltb c.context_window first.context_window) smaller_context
    ++ reason_if (ltb c.max_tokens first.max_tokens) smaller_output
    ++ reason_if (first.reasoning && not c.reasoning) reasoning_lost
    ++ lost_inputs c.input first.input

abbrev is_unavailable : Reason → Bool
is_unavailable unavailable = true
is_unavailable _ = false

abbrev is_unauthenticated : Reason → Bool
is_unauthenticated unauthenticated = true
is_unauthenticated _ = false

fallback_reason : Candidate → List Reason → Cause
fallback_reason first reasons =
    if not first.available || any is_unavailable reasons
    then primary_unavailable
    else if not first.authenticated || any is_unauthenticated reasons
    then primary_unauthenticated
    else capability_mismatch

abbrev pub unknown_candidate : String → Candidate
unknown_candidate key = record {
  key = key;
  available = false;
  authenticated = false;
  input = [];
  reasoning = false;
  context_window = 0;
  max_tokens = 0;
  input_cost = 0;
  output_cost = 0;
}

-- `byKey.get(key)`, the last candidate with the key, or an unavailable one.
unfoldable pub candidate_for : String → List Candidate → Candidate
candidate_for key [] = unknown_candidate key
candidate_for key (c ∷ cs) =
    let rest = candidate_for key cs in
    if any (λ d. d.key == key) cs then rest else if c.key == key then c else rest

abbrev pub is_empty {ℓ} : {A : Type ℓ} → List A → Bool
is_empty [] = true
is_empty (x ∷ xs) = false

module _ (input : Input) where
  abbrev pub requested_key : String
  requested_key = trim input.requested_model

  abbrev pub primary_candidate : Candidate
  primary_candidate = candidate_for requested_key input.candidates

  -- The keys in the order in which they are tried.
  abbrev pub ordered_keys : List String
  ordered_keys = take 9 (unique (requested_key ∷ input.fallback_models))

  -- What a key other than the first loses against an available primary.
  unfoldable pub downgrades : Bool → String → List Downgrade
  downgrades is_first key =
      if not is_first && primary_candidate.available
      then quality_reasons primary_candidate (candidate_for key input.candidates)
      else []

  -- The reasons against a key, the blocked downgrade included.
  unfoldable pub reasons_against : Bool → String → List Reason
  reasons_against is_first key =
      let reasons = hard_reasons (candidate_for key input.candidates) input.requirements in
      let lost = downgrades is_first key in
      reasons
      ++ reason_if (is_empty reasons && not (is_empty lost) && not input.allow_quality_downgrade)
          (quality_downgrade_blocked lost)

  -- The loop over the keys; the error is the list of what was considered.
  unfoldable pub route_from :
      Bool → List Consideration → List String → Decision ⊎ List Consideration
  unfolding fallback_reason
  route_from is_first considered [] = inr considered
  route_from is_first considered (key ∷ keys) =
      let reasons = reasons_against is_first key in
      let rest =
        route_from false
          (considered ++ record { model = key; is_eligible = false; reasons = reasons } ∷ [])
          keys in
      if not (is_empty reasons)
      then rest
      else inl (record {
        requested_model = requested_key;
        selected_model = key;
        kind = if is_first then primary else fallback;
        cause =
            if is_first
            then requested
            else fallback_reason primary_candidate
                (hard_reasons primary_candidate input.requirements);
        quality = if not (is_empty (downgrades is_first key)) then downgraded else preserved;
        downgrade_reasons = downgrades is_first key;
        requirements = input.requirements;
        considered = considered ++ record { model = key; is_eligible = true; reasons = [] } ∷ [];
      })

  unfoldable pub route_model : Decision ⊎ List Consideration
  route_model = route_from true [] ordered_keys
