-- ===== src/Context/Fate.antt =====
-- What `applyContextQos` of context/qos.ts does to each message.
use ultra_fabric.Prelude.{
  ℕ, zero, suc, ◌+◌, ◌<◌, ◌≡◌, refl, sym, ap, subst, ◌∙◌, ◌⊎◌, inl, inr, String, true, false, not,
  ◌||◌, ◌==◌, nat_equality, Option, none, some, List, [], ◌∷◌, string_equality, leb, max,
  text_length, Dict, includes, arith, Bool-cases,
}
use ultra_fabric.Context.{
  Message, RetirementReason, superseded_success, oversized_result, pre_handoff_retirement,
  oversized_retirable, retirable, evidence_bearing, text_body, Identified, QosCandidate, Latest,
  Collected, ContextQosReport, Options, QosFormat, protected_boundary, identities, result_identity,
  collect_results,
}
use ultra_fabric.Context.Collecting.{
  message_at, some_inj, Succeeded, IsCandidate, AllCandidates, AllKnown, IsCollected,
  collect_results-IsCollected, new-IsCollected,
}
use ultra_fabric.Context.Retire.{
  Output, marker_details, retired, retire_at, retire_candidate, retire_superseded, oversized_at,
  retire_oversized, retire_above, apply_context_qos,
}

evidence_bearing-marker_details :
    (reason : RetirementReason) → evidence_bearing (marker_details reason) ≡ true
unfolding evidence_bearing
evidence_bearing-marker_details reason = refl

retirable_listed :
    (name : String) → includes name retirable ≡ true → includes name oversized_retirable ≡ true
unfolding includes
retirable_listed name h = ground arith

module _ {J R : Type 0} (format : QosFormat J) (calls : Dict String) (all : List (Message J R))
    (boundary : ℕ) where
  -- The newer result that a marker names.
  pub record Newer (index : ℕ) (identity id : String) : Type 0 where
    pub later : ℕ
    pub result : Identified
    pub after : index < later
    pub known : Succeeded calls all later result
    pub same_identity : result.identity ≡ identity
    pub same_id : result.id ≡ id

  abbrev pub IsGrounded : ℕ → Identified → RetirementReason → Type 0
  IsGrounded index result (superseded_success id chars) = Newer index result.identity id
  IsGrounded index result (oversized_result chars) = Unit {0}
  IsGrounded index result (pre_handoff_retirement chars) = Unit {0}

  -- A message that may be retired at an index, and as what.
  pub record Retires (index : ℕ) (m o : Message J R) : Type 0 where
    pub result : Identified
    pub reason : RetirementReason
    pub old : index < boundary
    pub identified : result_identity calls m ≡ some result
    pub listed : includes result.name oversized_retirable ≡ true
    pub succeeded : m.is_error ≡ false
    pub plain : evidence_bearing m.details ≡ false
    pub marked : o ≡ retired format m result.name reason
    pub grounded : IsGrounded index result reason

  abbrev pub Fate : ℕ → Message J R → Message J R → Type 0
  Fate index m o = (o ≡ m) ⊎ Retires index m o

  -- Each message of the second list is what becomes of the one at its place in the first.
  abbrev pub Fates : ℕ → List (Message J R) → List (Message J R) → Type 0
  Fates index [] [] = Unit {0}
  Fates index [] (o ∷ output) = ⊥
  Fates index (m ∷ messages) [] = ⊥
  Fates index (m ∷ messages) (o ∷ output) = Fate index m o × Fates (index + 1) messages output

  same-Retires :
      (ceiling index : ℕ) (m o : Message J R) (result : Identified) (body : String)
      → some result ≡ result_identity calls o
      → o ≡ m
      → (leb boundary index || o.is_error || evidence_bearing o.details) ≡ false
      → not (includes result.name oversized_retirable) ≡ false
      → Retires index m (retired format m result.name (oversized_result (text_length body)))
  same-Retires ceiling index m o result body e same kept listed = record {
    result = result;
    reason = oversized_result (text_length body);
    old = ground (arith, kept);
    identified = ap (result_identity calls) (sym same) ∙ sym e;
    listed = ground (arith, listed);
    succeeded = ap (λ (x : Message J R). x.is_error) (sym same) ∙ ground (arith, kept);
    plain = ap (λ (x : Message J R). evidence_bearing x.details) (sym same) ∙ ground (arith, kept);
    marked = refl;
    grounded = tt;
  }

  oversized_at-Fate :
      (ceiling index : ℕ) (m o : Message J R) (result : Option Identified) (body : Option String)
      (r : ContextQosReport)
      → result ≡ result_identity calls o
      → Fate index m o
      → Fate index m (oversized_at format boundary ceiling index m o result body r).0
  oversized_at-Fate ceiling index m o none body r e f = f
  oversized_at-Fate ceiling index m o (some result) none r e f = f
  oversized_at-Fate ceiling index m o (some result) (some body) r e (inl same) =
      let is_kept = leb boundary index || o.is_error || evidence_bearing o.details in
      elim (Bool-cases (leb (text_length body) ceiling)) [
        | inl short ↦ rw short (inl same)
        | inr long ↦ elim (Bool-cases is_kept) [
          | inl kept ↦ rw (long, kept) (inl same)
          | inr open_to ↦ elim (Bool-cases (not (includes result.name oversized_retirable))) [
            | inl other ↦ rw (long, open_to, other) (inl same)
            | inr listed ↦
                rw (long, open_to, listed)
                  (inr (same-Retires ceiling index m o result body e same open_to listed))
          ]
        ]
      ]
  oversized_at-Fate ceiling index m o (some result) (some body) r e (inr gone) =
      let marked : evidence_bearing o.details ≡ true =
        ap (λ (x : Message J R). evidence_bearing x.details) gone.marked
        ∙ evidence_bearing-marker_details gone.reason in
      let kept : (leb boundary index || o.is_error || evidence_bearing o.details) ≡ true =
        ground (arith, marked) in
      elim (Bool-cases (leb (text_length body) ceiling)) [
        | inl short ↦ rw short (inr gone)
        | inr long ↦ rw (long, kept) (inr gone)
      ]

  retire_oversized-Fates :
      (ceiling index : ℕ) (messages output : List (Message J R)) (r : ContextQosReport)
      → Fates index messages output
      → Fates index messages
          (retire_oversized format calls boundary ceiling index messages output r).messages
  unfolding retire_oversized
  retire_oversized-Fates ceiling index [] output r f = f
  retire_oversized-Fates ceiling index (m ∷ messages) [] r f = absurd f
  retire_oversized-Fates ceiling index (m ∷ messages) (o ∷ output) r (f, later) = (
    oversized_at-Fate ceiling index m o (result_identity calls o) (text_body o.content) r refl f,
    retire_oversized-Fates ceiling (index + 1) messages output _ later,
  )

  retire_at-Fates :
      (index k n : ℕ) (name : String) (reason : RetirementReason) (m : Message J R)
      (messages output : List (Message J R))
      → n ≡ index + k
      → message_at k messages ≡ some m
      → Fate n m (retired format m name reason)
      → Fates index messages output
      → Fates index messages (retire_at format k name reason messages output)
  unfolding retire_at
  retire_at-Fates index k n name reason m [] output e at f fs = fs
  retire_at-Fates index k n name reason m (x ∷ messages) [] e at f fs = absurd fs
  retire_at-Fates index zero n name reason m (x ∷ messages) (o ∷ output) e at f (g, fs) =
      let same : m ≡ x = some_inj at in
      let here : n ≡ index = omega arith in
      (
        subst (λ i. Fate i x (retired format x name reason)) here
            (subst (λ y. Fate n y (retired format y name reason)) same f),
        fs,
      )
  retire_at-Fates index (suc k) n name reason m (x ∷ messages) (o ∷ output) e at f (g, fs) =
      (g, retire_at-Fates (index + 1) k n name reason m messages output (omega arith) at f fs)

  candidate-Retires :
      (latest : Dict Latest) (c : QosCandidate)
      → AllKnown calls all latest
      → (known : IsCandidate calls all latest c) → (known.newest.index == c.index) ≡ false
      → c.index < boundary
      → Retires c.index known.known.message (
          retired format known.known.message c.identified.name
            (superseded_success known.newest.id c.chars))
  unfolding AllKnown
  candidate-Retires latest c all known apart old =
      let (result, newer, same_identity, same_id) =
        all c.identified.identity known.newest known.found in
      record {
        result = c.identified;
        reason = superseded_success known.newest.id c.chars;
        old = old;
        identified = known.known.identified;
        listed = retirable_listed c.identified.name known.listed;
        succeeded = known.known.succeeded;
        plain = known.known.plain;
        marked = refl;
        grounded = record {
          later = known.newest.index;
          result = result;
          after = ground (arith, known.no_older, apart);
          known = newer;
          same_identity = same_identity;
          same_id = same_id;
        };
      }

  retire_candidate-Fates :
      (latest : Dict Latest) (c : QosCandidate) (out : Output J R)
      → AllKnown calls all latest
      → (h : IsCandidate calls all latest c) → Fates 0 all out.messages
      → Fates 0 all (retire_candidate format boundary all c (some h.newest) out).messages
  retire_candidate-Fates latest c out known h fs =
      elim (Bool-cases (h.newest.index == c.index || leb boundary c.index)) [
        | inl kept ↦ rw kept fs
        | inr gone ↦ rw gone (
            retire_at-Fates 0 c.index c.index c.identified.name
              (superseded_success h.newest.id c.chars) h.known.message all out.messages
              (omega arith) h.known.place
              (inr
                (candidate-Retires latest c known h (ground (arith, gone)) (ground (arith, gone))))
              fs)
      ]

  retire_superseded-Fates :
      (latest : Dict Latest) (candidates : List QosCandidate) (out : Output J R)
      → AllKnown calls all latest
      → AllCandidates calls all latest candidates
      → Fates 0 all out.messages
      → Fates 0 all (retire_superseded format boundary latest all candidates out).messages
  unfolding retire_superseded
  retire_superseded-Fates latest [] out known cs fs = fs
  retire_superseded-Fates latest (c ∷ candidates) out known (h, cs) fs =
      retire_superseded-Fates latest candidates _ known cs
        (rw h.found (retire_candidate-Fates latest c out known h fs))

  same-Fates : (index : ℕ) (messages : List (Message J R)) → Fates index messages messages
  same-Fates index [] = tt
  same-Fates index (m ∷ messages) = (inl refl, same-Fates (index + 1) messages)

  retire_above-Fates :
      (limit : Option ℕ) (out : Output J R)
      → Fates 0 all out.messages
      → Fates 0 all (retire_above format calls boundary limit all out).messages
  retire_above-Fates none out fs = fs
  retire_above-Fates (some limit) out fs =
      retire_oversized-Fates (max 1 limit) 0 all out.messages out.report fs

-- Whatever the messages and the options, every message stays in its place, and it stays as it is or
-- only its content and details are replaced. It is replaced only before the protected boundary, where
-- it is the result of a known call of one of the tools listed, is no error and bears no evidence; and
-- where its marker names a newer result, that one stands later, answers a call with the same identity,
-- its name and arguments, is no error and bears no evidence.
pub apply_context_qos-Fates :
    {J R : Type 0} (format : QosFormat J) (messages : List (Message J R)) (options : Options)
    → Fates format
        (identities format messages [])
        messages
        (protected_boundary messages options.turn_window)
        0
        messages
        (apply_context_qos format messages options).messages
unfolding apply_context_qos
apply_context_qos-Fates format messages options =
    let calls = identities format messages [] in
    let boundary = protected_boundary messages options.turn_window in
    let minimum = max 1 options.min_result_chars in
    let s : Collected = record { latest = []; candidates = []; protected_results = 0 } in
    let start : IsCollected calls messages 0 s = new-IsCollected calls messages in
    let (n, v) =
      collect_results-IsCollected calls messages boundary minimum 0 messages s
        (λ k m e. let n : 0 + k ≡ k = omega arith in rw n e) start in
    retire_above-Fates format calls messages boundary options.max_result_chars _ (
      retire_superseded-Fates format calls messages boundary
        (collect_results calls boundary minimum 0 messages s).latest
        (collect_results calls boundary minimum 0 messages s).candidates _ v.known v.candidates
        (same-Fates format calls messages boundary 0 messages))
