-- ===== src/Recovery/Decisions.antt =====
-- Classification and decision: internal/recovery/recovery.go and models.go. `strings.ToLower` and
-- the optional LLM are arguments.
use offline_pay.Prelude.{
  ℕ, ◌+◌, ◌-◌, ◌*◌, ◌^◌, String, str_append, Bool, true, false, not, ◌&&◌, ◌||◌, Option, none, some,
  List, [], ◌∷◌, ltb, leb, if◌then◌else◌, ite,
}
use offline_pay.Prelude.Int.{ℤ, pos, ltb_ℤ, wrap64, pos_part, neg_part}
use offline_pay.Domain.{Time}
use offline_pay.Database.{
  FailureCategory, RecoveryAction, RecoveryState, Result, ok, err, contains_text,
}

pub record FailureEvent : Type 0 where
  pub id : String
  pub txn_id : String
  pub amount : ℤ
  pub code : String
  pub reason : String
  pub occurred_at : Time

pub record Classification : Type 0 where
  pub category : FailureCategory
  pub confidence : ℤ
  pub origin : String

pub record Decision : Type 0 where
  pub action : RecoveryAction
  pub reason : String

-- `MinimumConfidence`
abbrev pub minimum_confidence : ℤ
minimum_confidence = pos 70

contains_any : String → List String → Bool
contains_any s [] = false
contains_any s (v ∷ values) = contains_text s v || contains_any s values

abbrev valid_category : FailureCategory → Bool
valid_category (FailureCategory.other _) = false
valid_category _ = true

abbrev rule : FailureCategory → ℤ → Classification
rule category confidence = record { category = category; confidence = confidence; origin = "RULE" }

-- A classification that the LLM proposes is used only if it is well formed.
accept_proposal : Result Classification → Classification
accept_proposal (err e) = record {
  category = FailureCategory.unknown;
  confidence = pos 0;
  origin = "LLM_INVALID";
}
accept_proposal (ok c) =
    if not (valid_category c.category) || ltb_ℤ c.confidence (pos 0) || ltb_ℤ (pos 100) c.confidence
    then record { category = FailureCategory.unknown; confidence = pos 0; origin = "LLM_INVALID" }
    else record c { origin = "LLM" }

ask_llm : Option (FailureEvent → Result Classification) → FailureEvent → Classification
unfolding accept_proposal
ask_llm none e = rule FailureCategory.unknown (pos 0)
ask_llm (some llm) e = accept_proposal (llm e)

-- `RulesFirstClassifier.Classify`
unfoldable pub classify :
    (String → String)
    → Option (FailureEvent → Result Classification)
    → FailureEvent
    → Classification
unfolding contains_any ask_llm
classify to_lower llm e =
    let code = to_lower (str_append e.code (str_append " " e.reason)) in
    if contains_any code
      ("timeout" ∷ "temporary" ∷ "connection" ∷ "redis" ∷ "outbox" ∷ "unavailable" ∷ [])
    then rule FailureCategory.network (pos 95)
    else if contains_any code
        ("nonce" ∷ "replay" ∷ "signature" ∷ "revoked" ∷ "attestation" ∷ "security" ∷ [])
    then rule FailureCategory.security (pos 99)
    else if contains_any code ("ledger" ∷ "balance" ∷ "token" ∷ "duplicate" ∷ "consistency" ∷ [])
    then rule FailureCategory.consistency (pos 95)
    else if contains_any code ("database" ∷ "postgres" ∷ "infrastructure" ∷ [])
    then rule FailureCategory.infrastructure (pos 95)
    else if contains_any code ("declined" ∷ "expired" ∷ "insufficient" ∷ "payment" ∷ [])
    then rule FailureCategory.payment (pos 95)
    else ask_llm llm e

pub record Policy : Type 0 where
  pub max_attempts : ℕ
  pub max_amount : ℤ
  pub max_elapsed : ℕ
  pub cooldown : ℕ

-- Durations are nanoseconds: 24 hours and one minute.
abbrev pub default_policy : Policy
default_policy = record {
  max_attempts = 3;
  max_amount = pos 5000000;
  max_elapsed = 86400000000000;
  cooldown = 60000000000;
}

-- `Policy.Validate`
unfoldable pub validate : Policy → Bool
validate p =
    ltb 0 p.max_attempts && ltb_ℤ (pos 0) p.max_amount && ltb 0 p.max_elapsed && ltb 0 p.cooldown

abbrev decide_category : FailureCategory → Decision
decide_category FailureCategory.network = record {
  action = RecoveryAction.retry;
  reason = "transient_failure";
}
decide_category FailureCategory.infrastructure = record {
  action = RecoveryAction.retry;
  reason = "transient_failure";
}
decide_category FailureCategory.payment = record {
  action = RecoveryAction.compensate;
  reason = "payment_failure_requires_compensation";
}
decide_category FailureCategory.security = record {
  action = RecoveryAction.escalate;
  reason = "security_or_consistency_failure";
}
decide_category FailureCategory.consistency = record {
  action = RecoveryAction.escalate;
  reason = "security_or_consistency_failure";
}
decide_category _ = record { action = RecoveryAction.abstain; reason = "unknown_failure" }

-- `Policy.Decide`
unfoldable pub decide : Policy → FailureEvent → Classification → ℕ → Time → Decision
decide p e c attempts now =
    if ltb_ℤ p.max_amount e.amount || ltb (e.occurred_at + p.max_elapsed) now
    then record { action = RecoveryAction.escalate; reason = "recovery_budget_exceeded" }
    else if leb p.max_attempts attempts
    then record { action = RecoveryAction.exhausted; reason = "attempt_limit_exceeded" }
    else if ltb_ℤ c.confidence minimum_confidence
    then record {
      action = RecoveryAction.abstain;
      reason = "classification_confidence_below_threshold";
    }
    else decide_category c.category

-- `Policy.NextAttempt`: the pause doubles with each attempt, as an int64.
unfoldable pub next_attempt : Policy → ℕ → Time → Time
next_attempt p attempt now =
    let n = if ltb attempt 1 then 1 else attempt in
    let d = wrap64 (pos (p.cooldown * 2 ^ (n - 1))) in now + pos_part d - neg_part d

-- `IsValidTransition` of internal/recovery/models.go
abbrev recovery_next : RecoveryState → RecoveryState → Bool
recovery_next RecoveryState.pending RecoveryState.diagnosed = true
recovery_next RecoveryState.diagnosed RecoveryState.scheduled = true
recovery_next RecoveryState.diagnosed RecoveryState.escalated = true
recovery_next RecoveryState.scheduled RecoveryState.recovering = true
recovery_next RecoveryState.scheduled RecoveryState.exhausted = true
recovery_next RecoveryState.scheduled RecoveryState.escalated = true
recovery_next RecoveryState.recovering RecoveryState.scheduled = true
recovery_next RecoveryState.recovering RecoveryState.compensated = true
recovery_next RecoveryState.recovering RecoveryState.escalated = true
recovery_next RecoveryState.recovering RecoveryState.exhausted = true
recovery_next _ _ = false

unfoldable pub RecoveryState-discrete : Discrete RecoveryState
RecoveryState-discrete = hlevel

unfoldable pub is_valid_recovery_transition : RecoveryState → RecoveryState → Bool
is_valid_recovery_transition from to =
    ite (RecoveryState-discrete from to) true (recovery_next from to)

-- `IdempotencyKey`: one for each transaction, whatever the action.
unfoldable pub idempotency_key : String → RecoveryAction → String
idempotency_key txn_id action = str_append "recovery:" txn_id

unfoldable pub state_for : RecoveryAction → RecoveryState
state_for RecoveryAction.retry = RecoveryState.scheduled
state_for RecoveryAction.compensate = RecoveryState.scheduled
state_for RecoveryAction.exhausted = RecoveryState.exhausted
state_for _ = RecoveryState.escalated

unfoldable pub scheduled_at : RecoveryAction → Policy → Time → Option Time
unfolding next_attempt
scheduled_at RecoveryAction.retry p now = some (next_attempt p 1 now)
scheduled_at RecoveryAction.compensate p now = some (next_attempt p 1 now)
scheduled_at _ p now = none
