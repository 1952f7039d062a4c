-- ===== src/Risk/Engine.antt =====
-- `Assess`. A score (a float64) is counted in ten-thousandths, exact for a trust score in
-- thousandths; the rounding of floats is not modelled. What Redis answers is a parameter.
use offline_pay.Prelude.{
  ℕ, String, Bool, true, false, ◌&&◌, Option, none, some, List, [], ◌∷◌, if◌then◌else◌, ltb,
}
use offline_pay.Prelude.Int.{ℤ, pos, ◌+ℤ◌, ◌-ℤ◌, ltb_ℤ, leb_ℤ}
use offline_pay.Domain.{Device, DeviceStatus, PaymentIntentPayload}

pub data RiskAction : Type 0 where
  allow throttle manual_review reject : RiskAction

pub record RiskAssessment : Type 0 where
  pub action : RiskAction
  pub score : ℤ
  pub reason : String

-- `velocity` is the number of payments in the last minute, absent without Redis or after an error;
-- `is_drifting` says that the last location is over 100 km away and faster than 800 km/h.
pub record RedisView : Type 0 where
  pub velocity : Option ℕ
  pub is_drifting : Bool

-- What a rule adds to the score, and the reason that it sets.
abbrev pub Rule : Type 0
Rule = ℕ × Option String

unfoldable pub amount_rule : ℤ → Rule
amount_rule amount =
    if ltb_ℤ (pos 50000) amount
    then (4000, some "transaction amount spike")
    else if ltb_ℤ (pos 15000) amount
    then (1500, some "moderate transaction amount")
    else (0, none)

unfoldable pub hop_rule : ℤ → Rule
hop_rule hop_count =
    if ltb_ℤ (pos 5) hop_count then (2500, some "excessive relay hop count") else (0, none)

unfoldable pub failure_rule : ℤ → Rule
failure_rule recent_failures =
    if ltb_ℤ (pos 5) recent_failures
    then (4000, some "reputation alert: excessive historical failures")
    else if ltb_ℤ (pos 2) recent_failures
    then (1500, some "reputation warning: moderate historical failures")
    else (0, none)

unfoldable pub count_rule : ℕ → Rule
count_rule count =
    if ltb 10 count
    then (5000, some "velocity check: excessive transactions per minute")
    else if ltb 4 count
    then (2000, some "velocity check: elevated transaction frequency")
    else (0, none)

unfoldable pub velocity_rule : Option ℕ → Rule
unfolding count_rule
velocity_rule none = (0, none)
velocity_rule (some count) = count_rule count

unfoldable pub location_rule : Bool → Rule
location_rule is_drifting =
    if is_drifting
    then (3500, some "location drift: physically impossible travel velocity")
    else (0, none)

-- The rules in the order of the source.
unfoldable pub rules : RedisView → PaymentIntentPayload → ℤ → ℤ → Bool → List Rule
unfolding amount_rule hop_rule failure_rule velocity_rule location_rule
rules redis intent hop_count recent_failures is_located =
    amount_rule intent.amount
    ∷ hop_rule hop_count
    ∷ failure_rule recent_failures
    ∷ velocity_rule redis.velocity
    ∷ location_rule (is_located && redis.is_drifting)
    ∷ []

unfoldable pub add_points : ℤ → List Rule → ℤ
add_points score [] = score
add_points score ((points, _) ∷ rest) = add_points (score +ℤ pos points) rest

abbrev pub reason_or : Option String → String → String
reason_or none old = old
reason_or (some new) old = new

-- A later rule overwrites the reason.
unfoldable pub last_reason : String → List Rule → String
last_reason reason [] = reason
last_reason reason ((_, new) ∷ rest) = last_reason (reason_or new reason) rest

-- `(1.0 - dev.TrustScore) * 0.3`
unfoldable pub trust_score_impact : ℤ → ℤ
trust_score_impact trust_score = let doubt = pos 1000 -ℤ trust_score in doubt +ℤ doubt +ℤ doubt

unfoldable pub action_for : ℤ → RiskAction
action_for score =
    if leb_ℤ (pos 8000) score
    then reject
    else if leb_ℤ (pos 5000) score
    then manual_review
    else if leb_ℤ (pos 3000) score
    then throttle
    else allow

unfoldable pub is_blocked : DeviceStatus → Bool
is_blocked DeviceStatus.active = false
is_blocked DeviceStatus.revoked = true
is_blocked DeviceStatus.compromised = true
is_blocked (DeviceStatus.other _) = false

unfoldable pub score_of : RedisView → Device → PaymentIntentPayload → ℤ → ℤ → Bool → ℤ
unfolding rules add_points trust_score_impact
score_of redis dev intent hop_count recent_failures is_located =
    add_points (trust_score_impact dev.trust_score)
      (rules redis intent hop_count recent_failures is_located)

-- `Assess`; without a device it is nil. `is_located` says that neither coordinate is 0.
unfoldable pub assess :
    RedisView → Option Device → PaymentIntentPayload → ℤ → ℤ → Bool → RiskAssessment
unfolding rules score_of last_reason action_for is_blocked
assess redis none intent hop_count recent_failures is_located = record {
  action = reject;
  score = pos 10000;
  reason = "unregistered device";
}
assess redis (some dev) intent hop_count recent_failures is_located =
    if is_blocked dev.status
    then record { action = reject; score = pos 10000; reason = "device status is" }
    else record {
      action = action_for (score_of redis dev intent hop_count recent_failures is_located);
      score = score_of redis dev intent hop_count recent_failures is_located;
      reason = last_reason "low risk" (rules redis intent hop_count recent_failures is_located);
    }
