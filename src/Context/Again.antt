-- ===== src/Context/Again.antt =====
-- context/handoff-retirement.ts applied to what it returned.
use ultra_fabric.Prelude.{
  ℕ, zero, suc, ◌≡◌, inl, inr, refl, ap, ◌∙◌, String, Bool, true, false, ◌&&◌, ◌||◌, not, Option,
  none, some, List, [], ◌∷◌, ◌==◌, string_equality, eq_iff, if◌then◌else◌, ltb, includes,
  text_length, is_some, arith, Bool-cases,
}
use ultra_fabric.Context.{
  Message, RetirementReason, retirable, if_filled, short_name, evidence_bearing, text_body,
  ContextQosReport, QosFormat, pre_handoff_retirement,
}
use ultra_fabric.Context.Handoff.{
  HandoffOptions, is_continuation, continuation_boundary, handoff_at, retire_planned, retire_before,
  retire_to, apply_handoff_retirement, no_report,
}
use ultra_fabric.Context.Retire.{Output, has_changed, retired}

module _ {J R : Type 0} (format : QosFormat J) where
  -- A message that the loop leaves alone, whatever the counts.
  abbrev IsDone : Message J R → Type 0
  IsDone m =
      (r : ContextQosReport)
      → ((retire_planned format m r).0 ≡ m)
        × ((retire_planned format m r).1.retired_results ≡ r.retired_results)

  handoff_at-evidence :
      (m : Message J R) (name body : Option String) (r : ContextQosReport)
      → evidence_bearing m.details ≡ true
      → ((handoff_at format m name body r).0 ≡ m)
        × ((handoff_at format m name body r).1.retired_results ≡ r.retired_results)
  handoff_at-evidence m none body r h = (refl, refl)
  handoff_at-evidence m (some name) none r h = (refl, refl)
  handoff_at-evidence m (some name) (some body) r h =
      let kept : (m.is_error || evidence_bearing m.details) ≡ true = ground (arith, h) in
      elim (Bool-cases (not (includes name retirable))) [
        | inl other ↦ rw other (refl, refl)
        | inr listed ↦ rw (listed, kept) (refl, refl)
      ]

  evidence-IsDone : (m : Message J R) → evidence_bearing m.details ≡ true → IsDone m
  unfolding retire_planned
  evidence-IsDone m h r = elim (Bool-cases (m.role == "toolResult" && is_some m.tool_call_id)) [
    | inl e ↦ rw e (handoff_at-evidence m _ _ r h)
    | inr e ↦ rw e (refl, refl)
  ]

  -- What one round makes of a message: the message itself, which it leaves alone whatever the counts
  -- are, or a retired one.
  record Round (m o : Message J R) : Type 0 where
    done : IsDone o
    same_boundary : (id : String) → is_continuation id o ≡ is_continuation id m

  same-Round : (m : Message J R) → IsDone m → Round m m
  same-Round m done = record { done = done; same_boundary = λ id. refl }

  retired-Round :
      (m : Message J R) (name : String) (reason : RetirementReason)
      → (m.role == "toolResult") ≡ true
      → Round m (retired format m name reason)
  unfolding evidence_bearing
  retired-Round m name reason h =
      let other : (m.role == "custom") ≡ false = ground (
        arith,
        eq_iff m.role "toolResult",
        eq_iff m.role "custom",
        eq_iff "toolResult" "custom",
        h,
      ) in
      record {
        done = evidence-IsDone (retired format m name reason) refl;
        same_boundary = λ id. rw other refl;
      }

  -- A round that leaves the message alone does so for any counts.
  handoff_at-IsDone :
      (m : Message J R) (name body : Option String)
      → (m.role == "toolResult" && is_some m.tool_call_id) ≡ true
      → if_filled (short_name m.tool_name) ≡ name
      → text_body m.content ≡ body
      → ((r : ContextQosReport)
          → ((handoff_at format m name body r).0 ≡ m)
            × ((handoff_at format m name body r).1.retired_results ≡ r.retired_results))
      → IsDone m
  unfolding retire_planned
  handoff_at-IsDone m name body test en eb h r = rw (test, en, eb) (h r)

  handoff_at-Round :
      (m : Message J R) (name body : Option String) (r : ContextQosReport)
      → (m.role == "toolResult" && is_some m.tool_call_id) ≡ true
      → if_filled (short_name m.tool_name) ≡ name
      → text_body m.content ≡ body
      → Round m (handoff_at format m name body r).0
  handoff_at-Round m none body r t en eb =
      same-Round m (handoff_at-IsDone m none body t en eb (λ r'. (refl, refl)))
  handoff_at-Round m (some name) none r t en eb =
      same-Round m (handoff_at-IsDone m (some name) none t en eb (λ r'. (refl, refl)))
  handoff_at-Round m (some name) (some body) r t en eb =
      elim (Bool-cases (not (includes name retirable))) [
        | inl other ↦ rw other (
            same-Round m
              (handoff_at-IsDone m (some name) (some body) t en eb (λ r'. rw other (refl, refl))))
        | inr listed ↦ elim (Bool-cases (m.is_error || evidence_bearing m.details)) [
          | inl kept ↦
              rw (listed, kept)
                (same-Round m (
                  handoff_at-IsDone m (some name) (some body) t en eb
                    (λ r'. rw (listed, kept) (refl, refl))))
          | inr gone ↦
              rw (listed, gone)
                (retired-Round m name (pre_handoff_retirement (text_length body))
                  (ground (arith, t)))
        ]
      ]

  retire_planned-Round :
      (m : Message J R) (r : ContextQosReport) → Round m (retire_planned format m r).0
  unfolding retire_planned
  retire_planned-Round m r = elim (Bool-cases (m.role == "toolResult" && is_some m.tool_call_id)) [
    | inl e ↦ rw e (handoff_at-Round m _ _ r e refl refl)
    | inr e ↦ rw e (same-Round m (λ r'. rw e (refl, refl)))
  ]

  -- The messages that the loop has passed: each is left alone by another round, and starts the
  -- executor's part if it did.
  retire_before-again :
      (boundary : ℕ) (messages : List (Message J R)) (r r' : ContextQosReport)
      → let out = retire_before format boundary messages r in
        let again = retire_before format boundary out.messages r' in
        (again.messages ≡ out.messages) × (again.report.retired_results ≡ r'.retired_results)
  unfolding retire_before
  retire_before-again zero messages r r' = (refl, refl)
  retire_before-again (suc boundary) [] r r' = (refl, refl)
  retire_before-again (suc boundary) (m ∷ messages) r r' =
      let at = retire_planned format m r in
      let (same, counts) = (retire_planned-Round m r).done r' in
      let (later, later_counts) =
        retire_before-again boundary messages at.1 (retire_planned format at.0 r').1 in
      (λ i. same i ∷ later i, later_counts ∙ counts)

  continuation_boundary-retire_before :
      (id : String) (boundary : ℕ) (messages : List (Message J R)) (r : ContextQosReport)
      → continuation_boundary id (retire_before format boundary messages r).messages
        ≡ continuation_boundary id messages
  unfolding retire_before continuation_boundary
  continuation_boundary-retire_before id zero messages r = refl
  continuation_boundary-retire_before id (suc boundary) [] r = refl
  continuation_boundary-retire_before id (suc boundary) (m ∷ messages) r =
      let at = retire_planned format m r in
      rw
        (
          (retire_planned-Round m r).same_boundary id,
          continuation_boundary-retire_before id boundary messages at.1,
        )
        refl

  retire_to-again :
      (id : String) (messages : List (Message J R)) (o : Option ℕ)
      → continuation_boundary id messages ≡ o
      → let out = retire_to format o messages in
        let again = retire_to format (continuation_boundary id out.messages) out.messages in
        (again.messages ≡ out.messages) × (again.report.retired_results ≡ 0)
  retire_to-again id messages none e = rw e (refl, refl)
  retire_to-again id messages (some boundary) e =
      rw (continuation_boundary-retire_before id boundary messages no_report, e)
        (retire_before-again boundary messages no_report no_report)

  abbrev retire_if : Bool → String → List (Message J R) → Output J R
  retire_if enabled id messages =
      if enabled
      then retire_to format (continuation_boundary id messages) messages
      else record { messages = messages; report = no_report }

  retire_if-again :
      (enabled : Bool) (id : String) (messages : List (Message J R))
      → let out = retire_if enabled id messages in
        let again = retire_if enabled id out.messages in
        (again.messages ≡ out.messages) × (again.report.retired_results ≡ 0)
  retire_if-again true id messages = retire_to-again id messages _ refl
  retire_if-again false id messages = (refl, refl)

  -- The pass is idempotent: applied to the messages that it returned, with the same options, it
  -- returns them as they are and reports no change.
  pub apply_handoff_retirement-again :
      (messages : List (Message J R)) (options : HandoffOptions)
      → let out = apply_handoff_retirement format messages options in
        let again = apply_handoff_retirement format out.messages options in
        (again.messages ≡ out.messages) × (has_changed again ≡ false)
  unfolding apply_handoff_retirement
  apply_handoff_retirement-again messages options =
      let (same, counts) = retire_if-again options.enabled options.continuation_id messages in
      (same, ap (λ (n : ℕ). ltb 0 n) counts)
