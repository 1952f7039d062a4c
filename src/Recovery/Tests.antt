-- ===== src/Recovery/Tests.antt =====
-- The policy and the states of recovery on concrete failures.
use offline_pay.Prelude.{
  ◌≤◌, ◌+◌, ◌<◌, ◌≡◌, refl, ◌⊎◌, inl, inr, false, some, [], ◌∷◌, str_dec, Bool-cases,
}
use offline_pay.Prelude.Int.{pos, ltb_ℤ}
use offline_pay.Database.{
  FailureCategory, RecoveryAction, RecoveryState, RecoveryOperation, World, calm, empty_store, exec,
  stmt,
}
use offline_pay.Recovery.Decisions.{
  FailureEvent, Classification, decide, default_policy, minimum_confidence,
  is_valid_recovery_transition, RecoveryState-discrete,
}
use offline_pay.Recovery.Runner.{
  run_operation, request_attempt, update_operation, state_after, next_after, request_type,
}
use offline_pay.Recovery.Tries.{Tried, run_operation-Tried}
use offline_pay.Repository.{create_outbox_event}
use offline_pay.Recovery.Laws.{decide-within_policy, RecoveryReach, RecoveryReach-final}

abbrev timeout : FailureEvent
timeout = record {
  id = "f-1";
  txn_id = "txn-1";
  amount = pos 30;
  code = "timeout";
  reason = "";
  occurred_at = 100;
}

abbrev network_failure : Classification
network_failure = record {
  category = FailureCategory.network;
  confidence = pos 95;
  origin = "RULE";
}

retries : (decide default_policy timeout network_failure 1 200).action ≡ RecoveryAction.retry
unfolding decide
retries = refl

decide-within_policy_example :
    (ltb_ℤ (pos 5000000) (pos 30) ≡ false)
    × (200 ≤ 100 + 86400000000000)
    × (1 < 3)
    × (ltb_ℤ (pos 95) minimum_confidence ≡ false)
    × ((FailureCategory.network ≡ FailureCategory.network)
        ⊎ (FailureCategory.network ≡ FailureCategory.infrastructure)
        ⊎ (FailureCategory.network ≡ FailureCategory.payment))
decide-within_policy_example =
    decide-within_policy default_policy timeout network_failure 1 200 (inl retries)

escalated_stays : RecoveryReach RecoveryState.escalated RecoveryState.escalated
unfolding is_valid_recovery_transition RecoveryState-discrete
escalated_stays = RecoveryReach.next RecoveryReach.here refl

RecoveryReach-final_example : RecoveryState.escalated ≡ RecoveryState.escalated
RecoveryReach-final_example = RecoveryReach-final (inr (inl refl)) escalated_stays

abbrev operation : RecoveryOperation
operation = record {
  recovery_id = "r-1";
  txn_id = "txn-1";
  idempotency_key = "recovery:txn-1";
  action = RecoveryAction.retry;
  state = RecoveryState.scheduled;
  attempt_count = 2;
  next_attempt_at = some 50;
}

abbrev start : World
start = calm (record empty_store { recoveries = operation ∷ [] }) 100

run_operation-Tried_example :
    Tried 3 operation start.store
      (run_operation default_policy (λ o n. "{}") operation start).1.store
unfolding run_operation request_attempt update_operation exec stmt create_outbox_event state_after
    next_after request_type str_dec Bool-cases
run_operation-Tried_example =
    run_operation-Tried default_policy (λ o n. "{}") operation start
      (run_operation default_policy (λ o n. "{}") operation start).1 refl refl
