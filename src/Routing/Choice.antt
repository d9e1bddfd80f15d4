-- ===== src/Routing/Choice.antt =====
-- Which model routing/model-router.ts selects.
use ultra_fabric.Prelude.{
  ℕ, ◌≡◌, refl, ◌∙◌, sym, ap, String, Bool, true, false, ◌&&◌, ◌||◌, not, Option, none, some, List,
  [], ◌∷◌, ◌++◌, arith, ltb, leb, if◌then◌else◌, all, map, string_equality, ◌⊎◌, inl, inr,
  Bool-cases, append-nil, take, unique,
}
use ultra_fabric.Routing.{
  Modality, quality_downgrade_blocked, unauthenticated, context_below, input_cost_above,
  output_below, output_cost_above, reasoning_lost, reasoning_required, smaller_context,
  smaller_output, Candidate, Requirements, Reason, Consideration, Decision, Input, preserved,
  includes_modality, reason_if, is_empty, hard_reasons, missing_inputs, reason_below, reason_above,
  access_reasons, quality_reasons, lost_inputs, candidate_for, primary_candidate, ordered_keys,
  requested_key, downgrades, reasons_against, route_from, route_model,
}

is_empty_both :
    {A : Type 0} (xs ys : List A) {a b : Bool}
    → is_empty xs ≡ a
    → is_empty ys ≡ b
    → is_empty (xs ++ ys) ≡ (a && b)
is_empty_both [] ys p q = q ∙ ground arith
is_empty_both (x ∷ xs) ys p q = ground arith

is_empty-reason_if : {A : Type 0} (b : Bool) (x : A) → is_empty (reason_if b x) ≡ not b
is_empty-reason_if true x = refl
is_empty-reason_if false x = refl

reason_unless :
    {A : Type 0} (b : Bool) (x : A) (c : Bool) → not b ≡ c → is_empty (reason_if b x) ≡ c
reason_unless true x c e = e
reason_unless false x c e = e

abbrev pub at_least : ℕ → Option ℕ → Bool
at_least value none = true
at_least value (some bound) = leb bound value

abbrev pub at_most : ℕ → Option ℕ → Bool
at_most value none = true
at_most value (some bound) = leb value bound

-- A candidate meets the requirements.
unfoldable pub meets : Candidate → Requirements → Bool
meets c r =
    (c.available && c.authenticated)
    && all (λ m. includes_modality m c.input) r.input
    && (not r.reasoning || c.reasoning)
    && at_least c.context_window r.min_context_window
    && at_least c.max_tokens r.min_output_tokens
    && at_most c.input_cost r.max_input_cost
    && at_most c.output_cost r.max_output_cost

-- A candidate can do what the first one can.
unfoldable pub preserves : Candidate → Candidate → Bool
preserves first c =
    leb first.context_window c.context_window
    && leb first.max_tokens c.max_tokens
    && (not first.reasoning || c.reasoning)
    && all (λ m. includes_modality m c.input) first.input

missing_inputs-all :
    (had ms : List Modality)
    → is_empty (missing_inputs had ms) ≡ all (λ m. includes_modality m had) ms
unfolding missing_inputs
missing_inputs-all had [] = refl
missing_inputs-all had (m ∷ ms) = elim (Bool-cases (includes_modality m had)) [
  | inl e ↦ rw e (missing_inputs-all had ms)
  | inr e ↦ rw e refl
]

lost_inputs-all :
    (had ms : List Modality) → is_empty (lost_inputs had ms) ≡ all (λ m. includes_modality m had) ms
unfolding lost_inputs
lost_inputs-all had [] = refl
lost_inputs-all had (m ∷ ms) = elim (Bool-cases (includes_modality m had)) [
  | inl e ↦ rw e (lost_inputs-all had ms)
  | inr e ↦ rw e refl
]

reason_below-at_least :
    (value : ℕ) (reason : ℕ → Reason) (bound : Option ℕ)
    → is_empty (reason_below value reason bound) ≡ at_least value bound
unfolding reason_below
reason_below-at_least value reason none = refl
reason_below-at_least value reason (some b) =
    is_empty-reason_if (ltb value b) (reason b) ∙ ground arith

reason_above-at_most :
    (value : ℕ) (reason : ℕ → Reason) (bound : Option ℕ)
    → is_empty (reason_above value reason bound) ≡ at_most value bound
unfolding reason_above
reason_above-at_most value reason none = refl
reason_above-at_most value reason (some b) =
    is_empty-reason_if (ltb b value) (reason b) ∙ ground arith

access_reasons-available :
    (c : Candidate) → is_empty (access_reasons c) ≡ (c.available && c.authenticated)
unfolding access_reasons
access_reasons-available c = elim (Bool-cases c.available) [
  | inl e ↦ rw e (is_empty-reason_if (not c.authenticated) unauthenticated ∙ ground arith)
  | inr e ↦ rw e refl
]

hard_reasons-meets : (c : Candidate) (r : Requirements) → is_empty (hard_reasons c r) ≡ meets c r
unfolding hard_reasons access_reasons meets
hard_reasons-meets c r =
    let last = reason_above c.output_cost output_cost_above r.max_output_cost in
    let input_cost = reason_above c.input_cost input_cost_above r.max_input_cost in
    let output = reason_below c.max_tokens output_below r.min_output_tokens in
    let context = reason_below c.context_window context_below r.min_context_window in
    let thinking = reason_if (r.reasoning && not c.reasoning) reasoning_required in
    let missing = missing_inputs c.input r.input in
    let h1 =
      is_empty_both (access_reasons c) missing (access_reasons-available c)
        (missing_inputs-all c.input r.input) in
    let h2 =
      is_empty_both (access_reasons c ++ missing) thinking h1
        (reason_unless _ _ (not r.reasoning || c.reasoning) (ground arith)) in
    let h3 =
      is_empty_both (access_reasons c ++ missing ++ thinking) context h2
        (reason_below-at_least c.context_window context_below r.min_context_window) in
    let h4 =
      is_empty_both (access_reasons c ++ missing ++ thinking ++ context) output h3
        (reason_below-at_least c.max_tokens output_below r.min_output_tokens) in
    let h5 =
      is_empty_both (access_reasons c ++ missing ++ thinking ++ context ++ output) input_cost h4
        (reason_above-at_most c.input_cost input_cost_above r.max_input_cost) in
    is_empty_both (access_reasons c ++ missing ++ thinking ++ context ++ output ++ input_cost) last
      h5 (reason_above-at_most c.output_cost output_cost_above r.max_output_cost)

quality_reasons-preserves :
    (first c : Candidate) → is_empty (quality_reasons first c) ≡ preserves first c
unfolding quality_reasons preserves
quality_reasons-preserves first c =
    let lost = lost_inputs c.input first.input in
    let thinking = reason_if (first.reasoning && not c.reasoning) reasoning_lost in
    let output = reason_if (ltb c.max_tokens first.max_tokens) smaller_output in
    let context = reason_if (ltb c.context_window first.context_window) smaller_context in
    let h1 =
      is_empty_both context output
        (reason_unless _ _ (leb first.context_window c.context_window) (ground arith))
        (reason_unless _ _ (leb first.max_tokens c.max_tokens) (ground arith)) in
    let h2 =
      is_empty_both (context ++ output) thinking h1
        (reason_unless _ _ (not first.reasoning || c.reasoning) (ground arith)) in
    is_empty_both (context ++ output ++ thinking) lost h2 (lost_inputs-all c.input first.input)

-- The model of the decision, if there is one.
abbrev pub selected : Decision ⊎ List Consideration → Option String
selected (inl d) = some d.selected_model
selected (inr considered) = none

is_empty-reason_last :
    {A : Type 0} (xs : List A) (a b : Bool) (x : A)
    → is_empty (xs ++ reason_if (is_empty xs && a && b) x) ≡ (is_empty xs && not (a && b))
is_empty-reason_last [] a b x = is_empty-reason_if (a && b) x
is_empty-reason_last (y ∷ xs) a b x = refl

module _ (input : Input) where
  -- A key can be selected: it meets the requirements, and when it stands in for an available primary,
  -- it can do what the primary can, or a downgrade is allowed.
  unfoldable pub eligible : Bool → String → Bool
  eligible is_first key =
      let c = candidate_for key input.candidates in
      let first = primary_candidate input in
      meets c input.requirements
      && (is_first || not first.available || input.allow_quality_downgrade || preserves first c)

  unfoldable pub first_eligible : Bool → List String → Option String
  first_eligible is_first [] = none
  first_eligible is_first (key ∷ keys) =
      if eligible is_first key then some key else first_eligible false keys

  lost-preserves :
      (is_first : Bool) (key : String)
      → is_empty (downgrades input is_first key) ≡ (
          is_first
          || not (primary_candidate input).available
          || preserves (primary_candidate input) (candidate_for key input.candidates))
  unfolding downgrades
  lost-preserves is_first key =
      elim (Bool-cases (not is_first && (primary_candidate input).available)) [
        | inl e ↦ rw e (quality_reasons-preserves _ _ ∙ ground arith)
        | inr e ↦ rw e (ground arith)
      ]

  reasons_against-eligible :
      (is_first : Bool) (key : String)
      → is_empty (reasons_against input is_first key) ≡ eligible is_first key
  unfolding reasons_against eligible
  reasons_against-eligible is_first key =
      let c = candidate_for key input.candidates in
      let lost = downgrades input is_first key in
      let reasons = hard_reasons c input.requirements in
      ground (
        arith,
        is_empty-reason_last reasons (not (is_empty lost)) (not input.allow_quality_downgrade)
            (quality_downgrade_blocked lost),
        hard_reasons-meets c input.requirements,
        lost-preserves is_first key,
      )

  route_from-first_eligible :
      (is_first : Bool) (considered : List Consideration) (keys : List String)
      → selected (route_from input is_first considered keys) ≡ first_eligible is_first keys
  unfolding route_from first_eligible
  route_from-first_eligible is_first considered [] = refl
  route_from-first_eligible is_first considered (key ∷ keys) =
      elim (Bool-cases (eligible is_first key)) [
        | inl e ↦ rw (reasons_against-eligible is_first key, e) refl
        | inr e ↦
            rw (reasons_against-eligible is_first key, e) (route_from-first_eligible false _ keys)
      ]

  -- The model that is selected is the first, of the first nine distinct keys among the requested one and
  -- its fallbacks, that meets the requirements and, where it stands in for an available primary, can do
  -- what that one can, unless a downgrade is allowed. When none of the nine does, no model is selected.
  pub route_model-first_eligible :
      selected (route_model input)
      ≡ first_eligible true (take 9 (unique (requested_key input ∷ input.fallback_models)))
  unfolding route_model
  route_model-first_eligible = route_from-first_eligible true [] (ordered_keys input)

  route_from_quality :
      (is_first : Bool) (considered : List Consideration) (keys : List String) (d : Decision)
      → input.allow_quality_downgrade ≡ false
      → route_from input is_first considered keys ≡ inl d
      → d.quality ≡ preserved
  unfolding route_from eligible
  route_from_quality is_first considered [] d a e = absurd (ground arith)
  route_from_quality is_first considered (key ∷ keys) d a e =
      elim (Bool-cases (is_empty (reasons_against input is_first key))) [
        | inl q ↦
            let kept : is_empty (downgrades input is_first key) ≡ true =
              ground (arith, lost-preserves is_first key, reasons_against-eligible is_first key) in
            ground arith
        | inr q ↦
            let entry : Consideration = record {
              model = key;
              is_eligible = false;
              reasons = reasons_against input is_first key;
            } in
            route_from_quality false (considered ++ entry ∷ []) keys d a (ground arith)
      ]

  -- When no downgrade is allowed, a decision keeps the quality of the model that was requested.
  route_model_quality :
      (d : Decision)
      → input.allow_quality_downgrade ≡ false
      → route_model input ≡ inl d
      → d.quality ≡ preserved
  unfolding route_model
  route_model_quality d a e = route_from_quality true [] (ordered_keys input) d a e

  models-append_one :
      (cs : List Consideration) (c : Consideration) (keys : List String)
      → map (λ x. x.model) (cs ++ c ∷ []) ++ keys ≡ map (λ x. x.model) cs ++ (c.model ∷ keys)
  models-append_one [] c keys = refl
  models-append_one (x ∷ cs) c keys = ap (λ ks. x.model ∷ ks) (models-append_one cs c keys)

  route_from_considered :
      (is_first : Bool) (considered out : List Consideration) (keys : List String)
      → route_from input is_first considered keys ≡ inr out
      → map (λ c. c.model) out ≡ map (λ c. c.model) considered ++ keys
  unfolding route_from
  route_from_considered is_first considered out [] e =
      ap (map (λ c. c.model)) (sym (ground arith)) ∙ sym (append-nil _)
  route_from_considered is_first considered out (key ∷ keys) e =
      elim (Bool-cases (is_empty (reasons_against input is_first key))) [
        | inl q ↦ absurd (ground arith)
        | inr q ↦
            let entry : Consideration = record {
              model = key;
              is_eligible = false;
              reasons = reasons_against input is_first key;
            } in
            route_from_considered false (considered ++ entry ∷ []) out keys (ground arith)
            ∙ models-append_one considered entry keys
      ]

  -- When no model is selected, every key was considered, in its order.
  route_model_considered :
      (out : List Consideration)
      → route_model input ≡ inr out
      → map (λ c. c.model) out ≡ ordered_keys input
  unfolding route_model
  route_model_considered out e = route_from_considered true [] out (ordered_keys input) e
