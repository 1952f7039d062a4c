-- ===== src/Risk/Tests.antt =====
-- Assessments of a payment.
use offline_pay.Prelude.{ℕ, ◌≤◌, ◌≡◌, refl, false, none, some, arith}
use offline_pay.Prelude.Int.{pos, ◌+ℤ◌, ◌-ℤ◌}
use offline_pay.Domain.{Device, DeviceStatus, PaymentIntentPayload}
use offline_pay.Risk.Engine.{
  RedisView, manual_review, assess, score_of, rules, amount_rule, hop_rule, failure_rule,
  velocity_rule, count_rule, location_rule, add_points, last_reason, trust_score_impact, action_for,
  is_blocked,
}
use offline_pay.Risk.Order.{severity, assess-le}

abbrev redis : RedisView
redis = record { velocity = some 2; is_drifting = false }

abbrev phone : ℕ → Device
phone trust = record {
  device_id = "dev-1";
  owner_id = "alice";
  public_key = "k";
  trust_score = pos trust;
  status = DeviceStatus.active;
  created_at = 0;
  revoked_at = none;
}

abbrev payment : ℕ → PaymentIntentPayload
payment amount = record {
  txn_id = "txn-1";
  sender_id = "alice";
  receiver_id = "bob";
  amount = pos amount;
  currency = "INR";
  nonce = "n-1";
  expiry = 900;
  device_id = "dev-1";
  token_id = "tok-1";
}

-- A large payment of a device with half the trust.
spike :
    (assess redis (some (phone 500)) (payment 60000) (pos 1) (pos 0) false).action ≡ manual_review
unfolding assess score_of rules amount_rule hop_rule failure_rule velocity_rule count_rule
    location_rule add_points last_reason trust_score_impact action_for is_blocked ◌+ℤ◌ ◌-ℤ◌
spike = refl

assess-le_example :
    severity (assess redis (some (phone 900)) (payment 100) (pos 1) (pos 0) false).action
    ≤ severity (assess redis (some (phone 500)) (payment 60000) (pos 6) (pos 3) false).action
unfolding is_blocked
assess-le_example =
    assess-le redis (phone 900) (phone 500) (payment 100) (payment 60000) (pos 1) (pos 6) (pos 0)
      (pos 3) false refl (omega arith) (omega arith) (omega arith) (omega arith)
