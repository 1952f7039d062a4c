-- ===== src/Recovery/Laws.antt =====
-- What the recovery policy (internal/recovery/recovery.go) and the states of an operation
-- (internal/recovery/models.go) guarantee.
use offline_pay.Prelude.{ℕ, ◌+◌, ◌≤◌, ◌<◌, ◌≡◌, refl, ◌⊎◌, true, false, arith}
use offline_pay.Prelude.Int.{ltb_ℤ}
use offline_pay.Domain.{Time}
use offline_pay.Database.{FailureCategory, RecoveryAction, RecoveryState}
use offline_pay.Recovery.Decisions.{
  FailureEvent, Classification, Policy, decide, minimum_confidence, is_valid_recovery_transition,
}

-- A decision to retry or to compensate is only made within the policy: the amount and the age of
-- the failure are within its bounds, attempts are left, the classification is confident enough,
-- and its category is neither a security nor a consistency failure.
pub decide-within_policy :
    (p : Policy) (e : FailureEvent) (c : Classification) (attempts : ℕ) (now : Time)
    → ((decide p e c attempts now).action ≡ RecoveryAction.retry)
      ⊎ ((decide p e c attempts now).action ≡ RecoveryAction.compensate)
    → (ltb_ℤ p.max_amount e.amount ≡ false)
      × (now ≤ e.occurred_at + p.max_elapsed)
      × (attempts < p.max_attempts)
      × (ltb_ℤ c.confidence minimum_confidence ≡ false)
      × ((c.category ≡ FailureCategory.network)
          ⊎ (c.category ≡ FailureCategory.infrastructure)
          ⊎ (c.category ≡ FailureCategory.payment))
unfolding decide
decide-within_policy p e c attempts now h =
    (ground arith, ground arith, ground arith, ground arith, ground arith)

-- The states that an operation can pass through.
pub data RecoveryReach (s : RecoveryState) : RecoveryState → Type 0 where
  here : RecoveryReach s s
  next :
      {t u : RecoveryState}
      → RecoveryReach s t
      → is_valid_recovery_transition t u ≡ true
      → RecoveryReach s u

abbrev pub IsTerminal : RecoveryState → Type 0
IsTerminal s =
    (s ≡ RecoveryState.compensated) ⊎ (s ≡ RecoveryState.escalated) ⊎ (s ≡ RecoveryState.exhausted)

terminal_stays :
    (s t : RecoveryState) → IsTerminal s → is_valid_recovery_transition s t ≡ true → t ≡ s
unfolding is_valid_recovery_transition
terminal_stays s t h e = ground arith

-- A recovery operation that is compensated, escalated or exhausted stays so: no sequence of valid
-- transitions leaves such a state.
pub RecoveryReach-final : {s t : RecoveryState} → IsTerminal s → RecoveryReach s t → t ≡ s
RecoveryReach-final h here = refl
RecoveryReach-final {s} h (next {t} {u} r e) =
    ground (arith, RecoveryReach-final h r, terminal_stays t u)
