-- ===== src/Settlement/Tests.antt =====
-- A settlement on concrete tables, and the guarantees applied to it.
use offline_pay.Risk.{
  assess, score_of, rules, amount_rule, hop_rule, failure_rule, velocity_rule, count_rule,
  location_rule, add_points, last_reason, trust_score_impact, action_for, is_blocked,
}
use offline_pay.Prelude.{
  String, ◌≡◌, ◌≢◌, refl, ap, true, false, some, [], ◌∷◌, ite, str_dec, arith,
}
use offline_pay.Prelude.Int.{pos, ◌+ℤ◌, add64, sub64, wrap64, ◌-ℤ◌}
use offline_pay.Domain.{
  is_valid_transition, is_valid_token_transition, PaymentState-discrete, TokenStatus-discrete,
}
use offline_pay.Database.{
  World, Store, Result, ok, find, token_key, stmt, exec, query, query_row, with_tx,
}
use offline_pay.Repository.{
  get_payment_intent, get_device_attestation, get_device, get_token, get_token_for_update,
  hold_token, consume_token, transition_token, get_balance_for_update, update_balance,
  create_payment_intent, register_nonce, update_payment_intent_status, create_ledger_entry,
  create_audit_event, create_outbox_event, create_payment_event, create_payment_snapshot,
  create_saga_state, update_saga_state,
}
use offline_pay.EventSource.{save_event_and_snapshot}
use offline_pay.Saga.{compensate_all, execute, run_steps}
use offline_pay.Settlement.Rollback.{IsPinned, Kept, ledger_compensate-blocked, compensate_all-Kept}
use offline_pay.Settlement.Entries.{ledger_net}
use offline_pay.Settlement.Steps.{
  reservation_txn, Payment, ledger_compensate, ledger_step, consume_step, reserve_step, saga_steps,
}
use offline_pay.Settlement.Platform.{canonical_intent, canonical_token}
use offline_pay.Settlement.Service.{Outcome, settle}
use offline_pay.Settlement.Money.{IsBacked}
use offline_pay.Settlement.Exact.{ValidBalances, total_funds}
use offline_pay.Settlement.Guarantees.{
  Request, payment, settle-IsBacked, settle-ledger_net, settle-total_funds, settle-total_funds_self,
  settle-no_double_spend,
}
use offline_pay.Settlement.Lab.{
  after_bob, envelope, ids, lab, lab_of, payload_to, run_to, series, settled, start, tables,
  token_of,
}

-- The settlement of the token between alice and bob, and of alice with herself.
bob_paid : run_to "bob" ≡ (ok settled, after_bob)
unfolding settle assess score_of rules amount_rule hop_rule failure_rule velocity_rule count_rule
    location_rule add_points last_reason trust_score_impact action_for is_blocked str_dec add64
    sub64 wrap64 ◌+ℤ◌ ◌-ℤ◌ is_valid_transition is_valid_token_transition PaymentState-discrete
    TokenStatus-discrete stmt exec query query_row with_tx get_payment_intent get_device_attestation
    get_device get_token get_token_for_update hold_token consume_token transition_token
    get_balance_for_update update_balance create_payment_intent register_nonce
    update_payment_intent_status create_ledger_entry create_audit_event create_outbox_event
    create_payment_event create_payment_snapshot create_saga_state update_saga_state
    save_event_and_snapshot execute run_steps saga_steps canonical_intent canonical_token
bob_paid = refl

abbrev after_self : World
after_self = (run_to "alice").1

self_paid : run_to "alice" ≡ (ok settled, after_self)
unfolding settle assess score_of rules amount_rule hop_rule failure_rule velocity_rule count_rule
    location_rule add_points last_reason trust_score_impact action_for is_blocked str_dec add64
    sub64 wrap64 ◌+ℤ◌ ◌-ℤ◌ is_valid_transition is_valid_token_transition PaymentState-discrete
    TokenStatus-discrete stmt exec query query_row with_tx get_payment_intent get_device_attestation
    get_device get_token get_token_for_update hold_token consume_token transition_token
    get_balance_for_update update_balance create_payment_intent register_nonce
    update_payment_intent_status create_ledger_entry create_audit_event create_outbox_event
    create_payment_event create_payment_snapshot create_saga_state update_saga_state
    save_event_and_snapshot execute run_steps saga_steps canonical_intent canonical_token
self_paid = refl

token_found : find token_key "tok-1" tables.tokens ≡ some (token_of "tok-1")
unfolding str_dec
token_found = refl

abbrev request_of : (receiver : String) → Request lab (envelope receiver) tables
request_of receiver = record {
  bytes = receiver;
  signed = record { payload = payload_to receiver; device_signature = "k" };
  token = token_of "tok-1";
  decrypted = refl;
  decoded = refl;
  found_token = token_found;
}

tables_valid : ValidBalances tables.balances
tables_valid k b h = ground arith

apart : ¬ (◌≡◌ {A = String} "alice" "bob")
unfolding str_dec
apart e =
    let t : true ≡ false = ap (λ (s : String). ite (str_dec s "alice") true false) e in absurd (cc)

settle-total_funds_example : total_funds after_bob.store.balances ≡ total_funds tables.balances
settle-total_funds_example =
    settle-total_funds lab ids (envelope "bob") (pos 2) start after_bob settled bob_paid refl
      (request_of "bob") tables_valid (ground arith) (ground arith) apart

settle-total_funds_self_example :
    total_funds after_self.store.balances ≡ total_funds tables.balances +ℤ pos 30
settle-total_funds_self_example =
    settle-total_funds_self lab ids (envelope "alice") (pos 2) start after_self settled self_paid
      refl (request_of "alice") tables_valid (ground arith) (ground arith) refl

abbrev run_series : String → String → World → Result Outcome × World
run_series id saga_id w =
    settle (lab_of series) (record ids { saga_id = saga_id }) (record (envelope id) { txn_id = id })
      (pos 2) w

abbrev after_first : World
after_first = (run_series "tok-1" "saga-1" start).1

abbrev after_second : World
after_second = (run_series "tok-2" "saga-2" after_first).1

first_paid : run_series "tok-1" "saga-1" start ≡ (ok settled, after_first)
unfolding settle assess score_of rules amount_rule hop_rule failure_rule velocity_rule count_rule
    location_rule add_points last_reason trust_score_impact action_for is_blocked str_dec add64
    sub64 wrap64 ◌+ℤ◌ ◌-ℤ◌ is_valid_transition is_valid_token_transition PaymentState-discrete
    TokenStatus-discrete stmt exec query query_row with_tx get_payment_intent get_device_attestation
    get_device get_token get_token_for_update hold_token consume_token transition_token
    get_balance_for_update update_balance create_payment_intent register_nonce
    update_payment_intent_status create_ledger_entry create_audit_event create_outbox_event
    create_payment_event create_payment_snapshot create_saga_state update_saga_state
    save_event_and_snapshot execute run_steps saga_steps canonical_intent canonical_token
first_paid = refl

second_paid : run_series "tok-2" "saga-2" after_first ≡ (ok settled, after_second)
unfolding settle assess score_of rules amount_rule hop_rule failure_rule velocity_rule count_rule
    location_rule add_points last_reason trust_score_impact action_for is_blocked str_dec add64
    sub64 wrap64 ◌+ℤ◌ ◌-ℤ◌ is_valid_transition is_valid_token_transition PaymentState-discrete
    TokenStatus-discrete stmt exec query query_row with_tx get_payment_intent get_device_attestation
    get_device get_token get_token_for_update hold_token consume_token transition_token
    get_balance_for_update update_balance create_payment_intent register_nonce
    update_payment_intent_status create_ledger_entry create_audit_event create_outbox_event
    create_payment_event create_payment_snapshot create_saga_state update_saga_state
    save_event_and_snapshot execute run_steps saga_steps canonical_intent canonical_token
second_paid = refl

second_token_found : find token_key "tok-2" after_first.store.tokens ≡ some (token_of "tok-2")
unfolding settle assess score_of rules amount_rule hop_rule failure_rule velocity_rule count_rule
    location_rule add_points last_reason trust_score_impact action_for is_blocked str_dec add64
    sub64 wrap64 ◌+ℤ◌ ◌-ℤ◌ is_valid_transition is_valid_token_transition PaymentState-discrete
    TokenStatus-discrete stmt exec query query_row with_tx get_payment_intent get_device_attestation
    get_device get_token get_token_for_update hold_token consume_token transition_token
    get_balance_for_update update_balance create_payment_intent register_nonce
    update_payment_intent_status create_ledger_entry create_audit_event create_outbox_event
    create_payment_event create_payment_snapshot create_saga_state update_saga_state
    save_event_and_snapshot execute run_steps saga_steps canonical_intent canonical_token
second_token_found = refl

abbrev series_request :
    (id : String) (s : Store)
    → find token_key id s.tokens ≡ some (token_of id)
    → Request (lab_of series) (record (envelope id) { txn_id = id }) s
series_request id s found = record {
  bytes = id;
  signed = record { payload = series id; device_signature = "k" };
  token = token_of id;
  decrypted = refl;
  decoded = refl;
  found_token = found;
}

settle-no_double_spend_example :
    (◌≢◌ {A = String} "tok-1" "tok-2")
    × (◌≢◌ {A = String} "tok-1" "tok-2")
    × (◌≢◌ {A = String} "tok-1" "tok-2")
settle-no_double_spend_example =
    settle-no_double_spend (lab_of series) (record ids { saga_id = "saga-1" })
      (record ids { saga_id = "saga-2" }) (record (envelope "tok-1") { txn_id = "tok-1" })
      (record (envelope "tok-2") { txn_id = "tok-2" }) (pos 2) (pos 2) start after_first
      after_second settled settled first_paid refl second_paid refl
      (series_request "tok-1" tables token_found)
      (series_request "tok-2" after_first.store second_token_found)

backed : IsBacked tables
unfolding ◌+ℤ◌
backed = refl

settle-IsBacked_example : IsBacked after_bob.store
settle-IsBacked_example =
    settle-IsBacked lab ids (envelope "bob") (pos 2) start after_bob settled bob_paid refl
      (request_of "bob") tables_valid (ground arith) (ground arith) apart backed

ids_differ : ¬ (◌≡◌ {A = String} "txn-1" (reservation_txn "tok-1"))
unfolding str_dec
ids_differ e =
    let t : true ≡ false = ap (λ (s : String). ite (str_dec s "txn-1") true false) e in absurd (cc)

settle-ledger_net_example :
    (ledger_net "txn-1" after_bob.store.ledger ≡ ledger_net "txn-1" tables.ledger)
    × (ledger_net (reservation_txn "tok-1") after_bob.store.ledger
        ≡ pos 50 +ℤ ledger_net (reservation_txn "tok-1") tables.ledger)
settle-ledger_net_example =
    settle-ledger_net lab ids (envelope "bob") (pos 2) start after_bob settled bob_paid refl
      (request_of "bob") ids_differ

abbrev bob_payment : Payment
bob_payment = payment (pos 2) (request_of "bob")

pinned : IsPinned "txn-1" after_bob.store
unfolding settle assess score_of rules amount_rule hop_rule failure_rule velocity_rule count_rule
    location_rule add_points last_reason trust_score_impact action_for is_blocked str_dec add64
    sub64 wrap64 ◌+ℤ◌ ◌-ℤ◌ is_valid_transition is_valid_token_transition PaymentState-discrete
    TokenStatus-discrete stmt exec query query_row with_tx get_payment_intent get_device_attestation
    get_device get_token get_token_for_update hold_token consume_token transition_token
    get_balance_for_update update_balance create_payment_intent register_nonce
    update_payment_intent_status create_ledger_entry create_audit_event create_outbox_event
    create_payment_event create_payment_snapshot create_saga_state update_saga_state
    save_event_and_snapshot execute run_steps saga_steps canonical_intent canonical_token
pinned = (refl, refl)

ledger_compensate-blocked_example : ¬ (ledger_compensate bob_payment after_bob ≡ (ok tt, after_bob))
ledger_compensate-blocked_example = ledger_compensate-blocked bob_payment after_bob after_bob pinned

compensate_all-Kept_example :
    Kept after_bob.store
      (compensate_all "saga-1"
        (ledger_step bob_payment ∷ consume_step bob_payment ∷ reserve_step bob_payment ∷ [])
        after_bob).1.store
compensate_all-Kept_example =
    compensate_all-Kept bob_payment "saga-1"
      (consume_step bob_payment ∷ reserve_step bob_payment ∷ []) after_bob pinned
