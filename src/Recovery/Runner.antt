-- ===== src/Recovery/Runner.antt =====
-- `RunOnce` of internal/recovery/manager.go: the operations that are due get their next attempt, as
-- a message to the relay, or end. The marshalling of a request is a parameter, and so is what the
-- database's driver does with a statement while the rows of another one are open.
use offline_pay.Prelude.{
  ℕ, ◌+◌, String, Bool, true, false, ◌&&◌, Option, none, some, List, [], ◌∷◌, if◌then◌else◌, leb,
  ◌==◌, take,
}
use offline_pay.Prelude.Int.{ℤ, pos, negsuc}
use offline_pay.Domain.{Time}
use offline_pay.Database.{
  Error, ok, require, RecoveryAction, RecoveryState, RecoveryOperation, ⊤, Db, ◌>>=◌, ◌>>◌, pure,
  raise, clock, in_tx, exec, query, with_tx, update, where_rows, order_by, recovery_id_key,
}
use offline_pay.Repository.{create_outbox_event}
use offline_pay.Recovery.Decisions.{Policy, next_attempt}

unfoldable pub is_scheduled : RecoveryState → Bool
is_scheduled RecoveryState.scheduled = true
is_scheduled RecoveryState.pending = false
is_scheduled RecoveryState.diagnosed = false
is_scheduled RecoveryState.recovering = false
is_scheduled RecoveryState.compensated = false
is_scheduled RecoveryState.escalated = false
is_scheduled RecoveryState.exhausted = false

-- A comparison with NULL is not true.
abbrev pub has_come : Time → Option Time → Bool
has_come now none = false
has_come now (some t) = leb t now

unfoldable pub is_due : Time → RecoveryOperation → Bool
unfolding is_scheduled
is_due now o = is_scheduled o.state && has_come now o.next_attempt_at

abbrev pub time_key : Option Time → ℕ
time_key none = 0
time_key (some t) = t

-- The rows that the select statement finds.
unfoldable pub due_operations : ℕ → Time → List RecoveryOperation → List RecoveryOperation
unfolding is_due
due_operations limit now rows = take limit (
    order_by (λ (o : RecoveryOperation). time_key o.next_attempt_at) (where_rows (is_due now) rows))

-- `UPDATE recovery_operations ... WHERE recovery_id = $n`, with the check of the attempt count.
unfoldable pub update_operation : String → RecoveryState → ℕ → Option Time → Db ⊤
update_operation id state attempts next = exec in_tx λ now s.
    require (leb attempts 3) Error.check_violation (
      ok (record s {
        recoveries =
            update recovery_id_key id
              (λ o. record o { state = state; attempt_count = attempts; next_attempt_at = next })
              s.recoveries;
      }))

-- `UPDATE recovery_operations SET state='EXHAUSTED', next_attempt_at=NULL ...`
unfoldable pub exhaust_operation : String → Db ⊤
exhaust_operation id = exec in_tx λ now s. ok (record s {
  recoveries =
      update recovery_id_key id
        (λ o. record o { state = RecoveryState.exhausted; next_attempt_at = none }) s.recoveries;
})

abbrev pub is_compensation : RecoveryAction → Bool
is_compensation RecoveryAction.compensate = true
is_compensation RecoveryAction.retry = false
is_compensation RecoveryAction.escalate = false
is_compensation RecoveryAction.abstain = false
is_compensation RecoveryAction.exhausted = false

unfoldable pub request_type : RecoveryAction → String
request_type action =
    if is_compensation action
    then "RecoveryCompensationReviewRequested"
    else "RecoveryRetryRequested"

-- The state that the attempt leaves the operation in.
unfoldable pub state_after : Policy → RecoveryAction → ℕ → RecoveryState
state_after p action attempts =
    if is_compensation action
    then RecoveryState.escalated
    else if attempts == p.max_attempts
    then RecoveryState.exhausted
    else RecoveryState.scheduled

unfoldable pub next_after : Policy → RecoveryAction → ℕ → Time → Option Time
unfolding state_after is_scheduled
next_after p action attempts now =
    if is_scheduled (state_after p action attempts)
    then some (next_attempt p (attempts + 1) now)
    else none

module _ (p : Policy) (marshal : RecoveryOperation → ℕ → String) where
  -- One more attempt.
  unfoldable pub request_attempt : RecoveryOperation → Db ⊤
  unfolding request_type state_after next_after update_operation
  request_attempt o = do
    now ← clock
    create_outbox_event in_tx "payment.recovery" (request_type o.action)
        (marshal o (o.attempt_count + 1))
    update_operation o.recovery_id (state_after p o.action (o.attempt_count + 1))
        (o.attempt_count + 1) (next_after p o.action (o.attempt_count + 1) now)

  unfoldable pub run_operation : RecoveryOperation → Db ⊤
  unfolding request_attempt exhaust_operation
  run_operation o =
      if leb p.max_attempts o.attempt_count
      then exhaust_operation o.recovery_id
      else request_attempt o

  -- The loop over the rows, which are still open. `busy` is what the driver makes of another
  -- statement on the connection meanwhile: an error, or none if it has read all rows before.
  unfoldable pub run_operations : Option Error → List RecoveryOperation → Db ⊤
  unfolding run_operation
  run_operations busy [] = pure tt
  run_operations none (o ∷ rest) = run_operation o >> run_operations none rest
  run_operations (some e) (o ∷ rest) = raise e

  unfoldable pub run_tx : Option Error → ℕ → Db ⊤
  unfolding run_operations due_operations
  run_tx busy limit = do
    now ← clock
    due ← query in_tx (λ s. due_operations limit now s.recoveries)
    run_operations busy due

  -- `if limit <= 0 { limit = 50 }`
  unfoldable pub run_once : Option Error → ℤ → Db ⊤
  unfolding run_tx
  run_once busy (pos n) = with_tx (run_tx busy (if n == 0 then 50 else n))
  run_once busy (negsuc n) = with_tx (run_tx busy 50)
