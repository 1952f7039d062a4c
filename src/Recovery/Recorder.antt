-- ===== src/Recovery/Recorder.antt =====
-- `RecordFailure` of internal/recovery/manager.go: the diagnosis of a failure is written before
-- any recovery work is scheduled. The two ids come from the uuid package, and are arguments.
use offline_pay.Prelude.{
  String, Bool, true, false, not, ◌&&◌, ◌||◌, ◌∷◌, ite, str_dec, ◌==◌, if◌then◌else◌,
}
use offline_pay.Prelude.Int.{pos, ltb_ℤ, leb_ℤ}
use offline_pay.Domain.{Time}
use offline_pay.Database.{
  Store, Error, Result, ok, require, intent_key, failure_key, recovery_key, recovery_txn_key,
  exists, ⊤, Db, ◌>>=◌, ◌>>◌, pure, raise_if, clock, in_tx, stmt, exec, with_tx, FailureRow,
  RecoveryOperation,
}
use offline_pay.Repository.{create_audit_event, create_payment_event, create_outbox_event}
use offline_pay.Recovery.Decisions.{
  FailureEvent, Classification, Decision, Policy, decide, state_for, scheduled_at, idempotency_key,
}

-- `INSERT INTO failure_events ... ON CONFLICT (failure_id) DO NOTHING`
abbrev pub insert_failure : FailureRow → Store → Result Store
insert_failure f s =
    if exists failure_key f.failure_id s.failures
    then ok s
    else require (leb_ℤ (pos 0) f.confidence && leb_ℤ f.confidence (pos 100)) Error.check_violation
        (require (exists intent_key f.txn_id s.intents) Error.foreign_key
          (ok (record s { failures = f ∷ s.failures })))

-- `INSERT INTO recovery_operations ... ON CONFLICT (idempotency_key) DO NOTHING RETURNING`: the
-- flag says whether a row was inserted. `txn_id` is unique too, by migration 000005.
abbrev pub insert_operation : RecoveryOperation → Store → Result (Bool × Store)
insert_operation o s =
    if exists recovery_key o.idempotency_key s.recoveries
    then ok (false, s)
    else require (not (exists recovery_txn_key o.txn_id s.recoveries)) Error.duplicate_key (
        require (exists intent_key o.txn_id s.intents) Error.foreign_key
          (ok (true, record s { recoveries = o ∷ s.recoveries })))

-- `appendDecision`; `payload` is the marshalled decision.
unfoldable pub append_decision : String → String → Db ⊤
append_decision txn_id payload = do
  now ← clock
  create_audit_event in_tx (record {
    txn_id = txn_id;
    event_type = "RecoveryDiagnosed";
    payload = payload;
    created_at = 0;
  })
  create_payment_event in_tx (record {
    txn_id = txn_id;
    event_type = "RecoveryDiagnosed";
    event_version = 1;
    payload = payload;
    created_at = now;
  })
  create_outbox_event in_tx "payment.recovery" "RecoveryDiagnosed" payload

-- What a manager is made of: the policy, the classifier, and the marshalling of a decision.
pub record Manager : Type 0 where
  pub policy : Policy
  pub classifier : FailureEvent → Classification
  pub marshal : String → Decision → Classification → String

abbrev is_empty : String → Bool
is_empty s = ite (str_dec s "") true false

-- An id and a time that the caller left out are filled in.
abbrev pub complete_event : String → Time → FailureEvent → FailureEvent
complete_event fresh now e = record e {
  id = if is_empty e.id then fresh else e.id;
  occurred_at = if e.occurred_at == 0 then now else e.occurred_at;
}

-- What the transaction of `RecordFailure` writes.
unfoldable pub write_ahead :
    Manager → String → FailureEvent → Classification → Decision → Time → Db ⊤
unfolding append_decision
write_ahead m fresh event c d now = do
  exec in_tx (λ _. insert_failure (record {
    failure_id = event.id;
    txn_id = event.txn_id;
    category = c.category;
    code = event.code;
    reason = event.reason;
    confidence = c.confidence;
    classifier_source = c.origin;
    occurred_at = event.occurred_at;
  }))
  inserted ← stmt in_tx (
      insert_operation (record {
        recovery_id = fresh;
        txn_id = event.txn_id;
        idempotency_key = idempotency_key event.txn_id d.action;
        action = d.action;
        state = state_for d.action;
        attempt_count = 0;
        next_attempt_at = scheduled_at d.action m.policy now;
      }))
  if inserted then append_decision event.txn_id (m.marshal fresh d c) else pure tt

-- `RecordFailure`
unfoldable pub record_failure : Manager → String → String → FailureEvent → Db Decision
unfolding write_ahead
record_failure m failure_id recovery_id event = do
  raise_if (is_empty event.txn_id || ltb_ℤ event.amount (pos 0))
      (Error.message "invalid failure event")
  now ← clock
  let e = complete_event failure_id now event
  let c = m.classifier e
  let d = decide m.policy e c 0 now
  with_tx (write_ahead m recovery_id e c d now)
  pure d
