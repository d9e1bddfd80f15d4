-- ===== src/Delivery/Tests.antt =====
-- agents/persistent/delivery-policy.ts at concrete calls.
use ultra_fabric.Prelude.{refl, true, some}
use ultra_fabric.Delivery.{
  DeliveryPolicy, Honours, resolve_policy, is_active, resolve_policy-Honours,
}

abbrev steering : DeliveryPolicy
steering = record { delivery = "steer"; trigger_turn = true }

resolve_policy-Honours_example : Honours (some true) steering
unfolding resolve_policy is_active
resolve_policy-Honours_example = resolve_policy-Honours (some "steer") (some true) steering refl
