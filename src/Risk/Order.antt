-- ===== src/Risk/Order.antt =====
-- A payment that looks worse is not judged more mildly.
use offline_pay.Prelude.{ℕ, ◌≤◌, ◌≡◌, Bool, false, some, List, [], ◌∷◌, arith, Bool-cases, inl, inr}
use offline_pay.Prelude.Int.{ℤ, pos, ◌+ℤ◌, ◌≤ℤ◌, int_laws}
use offline_pay.Domain.{Device, PaymentIntentPayload}
use offline_pay.Risk.Engine.{
  RiskAction, allow, throttle, manual_review, reject, RedisView, Rule, amount_rule, hop_rule,
  failure_rule, rules, add_points, trust_score_impact, action_for, is_blocked, score_of, assess,
}

-- How severe an action is.
abbrev pub severity : RiskAction → ℕ
severity allow = 0
severity throttle = 1
severity manual_review = 2
severity reject = 3

amount_rule-le : (a b : ℤ) → a ≤ℤ b → (amount_rule a).0 ≤ (amount_rule b).0
unfolding amount_rule
amount_rule-le a b h = ground arith

hop_rule-le : (a b : ℤ) → a ≤ℤ b → (hop_rule a).0 ≤ (hop_rule b).0
unfolding hop_rule
hop_rule-le a b h = ground arith

failure_rule-le : (a b : ℤ) → a ≤ℤ b → (failure_rule a).0 ≤ (failure_rule b).0
unfolding failure_rule
failure_rule-le a b h = ground arith

-- Every rule of the second list adds at least as much.
abbrev RulesLe : List Rule → List Rule → Type 0
RulesLe [] [] = Unit {0}
RulesLe ((p, _) ∷ rest) ((q, _) ∷ rest') = (p ≤ q) × RulesLe rest rest'
RulesLe _ _ = ⊥

add_points-le :
    (a b : ℤ) (l l' : List Rule) → a ≤ℤ b → RulesLe l l' → add_points a l ≤ℤ add_points b l'
unfolding add_points
add_points-le a b [] [] h k = h
add_points-le a b ((p, r) ∷ l) ((q, r') ∷ l') h (le, k) =
    add_points-le (a +ℤ pos p) (b +ℤ pos q) l l' (omega int_laws) k
add_points-le a b [] (_ ∷ _) h k = elim k [ ]
add_points-le a b (_ ∷ _) [] h k = elim k [ ]

trust_score_impact-le : (a b : ℤ) → a ≤ℤ b → trust_score_impact b ≤ℤ trust_score_impact a
unfolding trust_score_impact
trust_score_impact-le a b h = omega int_laws

action_for-le : (a b : ℤ) → a ≤ℤ b → severity (action_for a) ≤ severity (action_for b)
unfolding action_for
action_for-le a b h = ground arith

severity-le : (action : RiskAction) → severity action ≤ 3
severity-le allow = omega arith
severity-le throttle = omega arith
severity-le manual_review = omega arith
severity-le reject = omega arith

-- A riskier payment is never judged more mildly: with the same answers of Redis, and a location known for
-- both or for neither, if the second
-- payment's amount, hop count and recent failures are at least those of the first, and its device's
-- trust score at most that of the first, and that first device is neither revoked nor compromised,
-- then its action is at least as severe.
pub assess-le :
    (redis : RedisView) (dev dev' : Device) (intent intent' : PaymentIntentPayload)
    (hops hops' failures failures' : ℤ) (located : Bool)
    → is_blocked dev.status ≡ false
    → dev'.trust_score ≤ℤ dev.trust_score
    → intent.amount ≤ℤ intent'.amount
    → hops ≤ℤ hops'
    → failures ≤ℤ failures'
    → severity (assess redis (some dev) intent hops failures located).action
      ≤ severity (assess redis (some dev') intent' hops' failures' located).action
unfolding assess score_of rules
assess-le redis dev dev' intent intent' hops hops' failures failures' located open_ trust amount hop
      fail =
    let a : ℤ = score_of redis dev intent hops failures located in
    let b : ℤ = score_of redis dev' intent' hops' failures' located in
    let le : a ≤ℤ b =
      add_points-le (trust_score_impact dev.trust_score) (trust_score_impact dev'.trust_score)
        (rules redis intent hops failures located) (rules redis intent' hops' failures' located)
        (trust_score_impact-le dev'.trust_score dev.trust_score trust)
        (
          amount_rule-le intent.amount intent'.amount amount,
          (
            hop_rule-le hops hops' hop,
            (failure_rule-le failures failures' fail, (omega arith, (omega arith, tt))),
          ),
        ) in
    elim (Bool-cases (is_blocked dev'.status)) [
      | inl blocked ↦ rw (open_, blocked) (severity-le (action_for a))
      | inr passes ↦ rw (open_, passes) (action_for-le a b le)
    ]
