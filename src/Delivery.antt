-- ===== src/Delivery.antt =====
-- agents/persistent/delivery-policy.ts: how a message of a persistent agent reaches the main one.
mod Tests
use ultra_fabric.Prelude.{
  ◌≡◌, refl, String, Bool, true, false, ◌&&◌, ◌||◌, not, Option, none, some, ◌⊎◌, inl, inr, arith,
  eq_iff, ◌==◌, string_equality, if◌then◌else◌, or_default, Bool-cases, is_some, subst, ap,
}

pub record DeliveryPolicy : Type 0 where
  pub delivery : String
  pub trigger_turn : Bool

pub data Error : Type 0 where
  invalid_delivery trigger_required trigger_refused : Error

unfoldable pub is_active : String → Bool
is_active delivery = delivery == "steer" || delivery == "followUp"

unfoldable pub is_passive : String → Bool
is_passive delivery = delivery == "mailbox" || delivery == "nextTurn"

active_policy : String → Option Bool → Error ⊎ DeliveryPolicy
active_policy delivery none = inl trigger_required
active_policy delivery (some trigger_turn) =
    inr (record { delivery = delivery; trigger_turn = trigger_turn })

passive_policy : String → Option Bool → Error ⊎ DeliveryPolicy
passive_policy delivery (some true) = inl trigger_refused
passive_policy delivery _ = inr (record { delivery = delivery; trigger_turn = false })

unfoldable pub resolve_policy : Option String → Option Bool → Error ⊎ DeliveryPolicy
unfolding active_policy passive_policy
resolve_policy delivery trigger_turn =
    let resolved = or_default delivery "mailbox" in
    if not (is_active resolved) && not (is_passive resolved)
    then inl invalid_delivery
    else if is_active resolved
    then active_policy resolved trigger_turn
    else passive_policy resolved trigger_turn

-- The deliveries that have a notice, and their names.
pub data NoticeDelivery : Type 0 where
  steer follow_up next_turn : NoticeDelivery

abbrev pub delivery_text : NoticeDelivery → String
delivery_text steer = "steer"
delivery_text follow_up = "followUp"
delivery_text next_turn = "nextTurn"

unfoldable pub delivery_notice : NoticeDelivery → Bool → Option String
delivery_notice next_turn trigger_turn =
    some
      "[Deferred persistent Agent delivery: queued for the next user turn; this message never starts Main.]"
delivery_notice delivery trigger_turn =
    if not trigger_turn
    then some
        "[Passive persistent Agent delivery: triggerTurn=false; this message does not start Main when idle.]"
    else none

abbrev IsSteering : String → Type 0
IsSteering delivery = (delivery ≡ "steer") ⊎ (delivery ≡ "followUp")

-- What a policy that is accepted for a call says.
pub record Honours (trigger_turn : Option Bool) (p : DeliveryPolicy) : Type 0 where
  pub starts : p.trigger_turn ≡ true → IsSteering p.delivery
  pub asked : IsSteering p.delivery → trigger_turn ≡ some p.trigger_turn
  pub resolved : resolve_policy (some p.delivery) (some p.trigger_turn) ≡ inr p
  pub noticed :
      (d : NoticeDelivery)
      → delivery_text d ≡ p.delivery
      → is_some (delivery_notice d p.trigger_turn) ≡ not p.trigger_turn

active_texts : (d : String) → is_active d ≡ true → IsSteering d
unfolding is_active
active_texts d a = elim (Bool-cases (d == "steer")) [
  | inl e ↦ inl (ground (arith, eq_iff d "steer"))
  | inr e ↦ inr (ground (arith, eq_iff d "followUp"))
]

texts_active : (d : String) → IsSteering d → is_active d ≡ true
unfolding is_active
texts_active d (inl e) = rw e refl
texts_active d (inr e) = rw e refl

active_noticed :
    (n : NoticeDelivery) (t : Bool)
    → is_active (delivery_text n) ≡ true
    → is_some (delivery_notice n t) ≡ not t
unfolding is_active delivery_notice
active_noticed steer true a = refl
active_noticed steer false a = refl
active_noticed follow_up true a = refl
active_noticed follow_up false a = refl
active_noticed next_turn t a = absurd (cc a)

passive_noticed : (n : NoticeDelivery) → is_some (delivery_notice n false) ≡ true
unfolding delivery_notice
passive_noticed steer = refl
passive_noticed follow_up = refl
passive_noticed next_turn = refl

active-Honours :
    (d : String) (t : Bool)
    → is_active d ≡ true
    → Honours (some t) (record { delivery = d; trigger_turn = t })
unfolding resolve_policy active_policy passive_policy
active-Honours d t a = record {
  starts = λ e. active_texts d a;
  asked = λ e. refl;
  resolved = ground arith;
  noticed = λ n e. active_noticed n t (rw e a);
}

passive-Honours :
    (d : String) (t : Option Bool)
    → is_active d ≡ false
    → is_passive d ≡ true
    → Honours t (record { delivery = d; trigger_turn = false })
unfolding resolve_policy active_policy passive_policy
passive-Honours d t a p = record {
  starts = λ e. absurd (cc e);
  asked = λ e. absurd (ground (arith, texts_active d e));
  resolved = ground arith;
  noticed = λ n e. passive_noticed n;
}

resolved-Honours :
    (d : String) (t : Option Bool) (p : DeliveryPolicy)
    → resolve_policy (some d) t ≡ inr p
    → Honours t p
unfolding resolve_policy active_policy passive_policy
resolved-Honours d none p e = elim (Bool-cases (is_active d)) [
  | inl a ↦ absurd (ground arith)
  | inr n ↦
      let same : record { delivery = d; trigger_turn = false } ≡ p = ground arith in
      subst (Honours none) same (passive-Honours d none n (ground arith))
]
resolved-Honours d (some false) p e = elim (Bool-cases (is_active d)) [
  | inl a ↦
      let same : record { delivery = d; trigger_turn = false } ≡ p = ground arith in
      subst (Honours (some false)) same (active-Honours d false a)
  | inr n ↦
      let same : record { delivery = d; trigger_turn = false } ≡ p = ground arith in
      subst (Honours (some false)) same (passive-Honours d (some false) n (ground arith))
]
resolved-Honours d (some true) p e = elim (Bool-cases (is_active d)) [
  | inl a ↦
      let same : record { delivery = d; trigger_turn = true } ≡ p = ground arith in
      subst (Honours (some true)) same (active-Honours d true a)
  | inr n ↦ absurd (ground arith)
]

-- A policy that is accepted starts the main agent only by `steer` or `followUp`, with these it does so
-- as asked in so many words, it is what a call that asks for it in full resolves to, and with a delivery
-- that has notices it has one exactly when it does not start the main agent.
pub resolve_policy-Honours :
    (delivery : Option String) (trigger_turn : Option Bool) (p : DeliveryPolicy)
    → resolve_policy delivery trigger_turn ≡ inr p
    → Honours trigger_turn p
unfolding resolve_policy
resolve_policy-Honours none t p e = resolved-Honours "mailbox" t p e
resolve_policy-Honours (some d) t p e = resolved-Honours d t p e
