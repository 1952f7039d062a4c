-- ===== src/Settlement/Steps.antt =====
-- The saga steps of `Settle` (internal/settlement/service.go): each action and compensation runs
-- in a transaction of its own.
use offline_pay.Prelude.{
  String, str_append, Bool, true, false, not, ◌&&◌, ◌||◌, none, some, List, [], ◌∷◌, ite, str_dec,
  if◌then◌else◌,
}
use offline_pay.Prelude.Int.{ℤ, add64, sub64, ltb_ℤ}
use Prim.Native.String.{compare}
use text.Mathlib.Text.{is_le}
use offline_pay.Domain.{
  Time, PaymentState, PaymentState-discrete, TokenStatus, TokenStatus-discrete, Direction,
  EntryType, OfflineToken, PaymentIntentPayload, PaymentIntent, EncryptedEnvelope, AccountBalance,
  LedgerEntry, NonceRegistry, PaymentEvent,
}
use offline_pay.Database.{
  Store, Error, Result, ok, err, require, ⊤, Db, ◌>>=◌, ◌>>◌, pure, raise_if, attempt, ignore,
  wrap_error, clock, in_tx, exec, query_row, find, exists, delete_rows, intent_key, token_key,
}
use offline_pay.Repository.{
  get_balance_for_update, create_payment_intent, register_nonce, get_token_for_update, hold_token,
  invalidate_token, consume_token, update_balance, update_payment_intent_status,
  create_ledger_entry, create_audit_event, create_outbox_event, get_payment_intent,
}
use offline_pay.EventSource.{save_event_and_snapshot}
use offline_pay.Saga.{SagaStep}
use offline_pay.Settlement.Platform.{Platform, Field, Json}

abbrev same_text : String → String → Bool
same_text a b = ite (str_dec a b) true false

-- A row that still references `txn_id`, so that its payment intent cannot be deleted.
abbrev pub nonce_refers : String → List NonceRegistry → Bool
nonce_refers txn_id [] = false
nonce_refers txn_id (n ∷ rows) = same_text n.txn_id txn_id || nonce_refers txn_id rows

abbrev pub ledger_refers : String → List LedgerEntry → Bool
ledger_refers txn_id [] = false
ledger_refers txn_id (e ∷ rows) = same_text e.txn_id txn_id || ledger_refers txn_id rows

abbrev pub event_refers : String → List PaymentEvent → Bool
event_refers txn_id [] = false
event_refers txn_id (e ∷ rows) = same_text e.txn_id txn_id || event_refers txn_id rows

abbrev pub is_referenced : String → Store → Bool
is_referenced txn_id s =
    nonce_refers txn_id s.nonces
    || ledger_refers txn_id s.ledger
    || event_refers txn_id s.events
    || exists (λ f. f.txn_id) txn_id s.failures
    || exists (λ r. r.txn_id) txn_id s.recoveries

-- `DELETE FROM payment_intents WHERE txn_id = $1`
unfoldable pub delete_intent : String → Db ⊤
delete_intent txn_id = exec in_tx λ now s.
    require (not (exists intent_key txn_id s.intents && is_referenced txn_id s)) Error.foreign_key
      (ok (record s { intents = delete_rows (λ i. same_text i.txn_id txn_id) s.intents }))

-- `DELETE FROM nonce_registry WHERE nonce = $1`
unfoldable pub delete_nonce : String → Db ⊤
delete_nonce nonce =
    exec in_tx
      λ now s. ok (record s { nonces = delete_rows (λ n. same_text n.nonce nonce) s.nonces })

-- The two accounts of a payment, as the map `accountBalances` holds them.
pub record Accounts : Type 0 where
  pub sender : AccountBalance
  pub receiver : AccountBalance

-- The rows are locked in the order of `sort.Strings`, here with `get` for each lock.
unfoldable pub lock_accounts : (String → Db AccountBalance) → String → String → Db Accounts
lock_accounts get sender receiver =
    if is_le (compare sender receiver)
    then (do a ← get sender; b ← get receiver; pure (record { sender = a; receiver = b }))
    else (do b ← get receiver; a ← get sender; pure (record { sender = a; receiver = b }))

-- `"tok-res-" + tokenID`, the ledger's transaction of a token's reservation.
abbrev pub reservation_txn : String → String
reservation_txn token_id = str_append "tok-res-" token_id

-- What the steps share: the decrypted payload, the envelope, the token as it was read, the hop
-- count, and the platform.
pub record Payment : Type 0 where
  pub platform : Platform
  pub p : PaymentIntentPayload
  pub env : EncryptedEnvelope
  pub token : OfflineToken
  pub hop_count : ℤ

module _ (x : Payment) where
  open x use {platform, p, env, token, hop_count}

  abbrev pub change_amount : ℤ
  change_amount = sub64 token.value p.amount

  -- The row that RESERVE adds.
  abbrev pub reserved_intent : Time → PaymentIntent
  reserved_intent now = record {
    txn_id = p.txn_id;
    sender_id = p.sender_id;
    receiver_id = p.receiver_id;
    amount = p.amount;
    currency = p.currency;
    nonce = p.nonce;
    expiry = p.expiry;
    status = PaymentState.reserved;
    device_id = p.device_id;
    token_id = p.token_id;
    failure_reason = none;
    settled_at = none;
    rejected_at = none;
    relay_hops = hop_count;
    signature_hash = str_append "sig-hash-" p.txn_id;
    created_at = now;
    updated_at = now;
  }

  unfoldable pub reserve_action : Db ⊤
  unfolding lock_accounts
  reserve_action = do
    accounts ←
        lock_accounts
          (λ a. wrap_error "failed to lock balance for account" (get_balance_for_update a))
          p.sender_id p.receiver_id
    raise_if (ltb_ℤ accounts.sender.reserved_balance token.value)
        (Error.message "insufficient reserved balance")
    now ← clock
    wrap_error "failed to create reservation intent"
        (create_payment_intent in_tx (reserved_intent now))
    wrap_error "nonce_reused" (register_nonce in_tx p.nonce env.txn_id p.expiry)

  abbrev delete_if_reserved : Result PaymentIntent → Db ⊤
  delete_if_reserved (err e) = pure tt
  delete_if_reserved (ok i) =
      if ite (PaymentState-discrete i.status PaymentState.reserved) true false
      then ignore (delete_intent p.txn_id)
      else pure tt

  -- The error of the first statement is the one that counts.
  abbrev as_result : Result ⊤ → Db ⊤
  as_result r w = (r, w)

  unfoldable pub reserve_compensate : Db ⊤
  reserve_compensate = do
    first ← attempt (delete_nonce p.nonce)
    current ← attempt (query_row in_tx (λ s. find intent_key p.txn_id s.intents))
    delete_if_reserved current
    as_result first

  unfoldable pub consume_action : Db ⊤
  consume_action = do
    locked ← get_token_for_update p.token_id
    raise_if (ite (TokenStatus-discrete locked.status TokenStatus.issued) false true)
        (Error.message "token state mismatch: expected ISSUED")
    hold_token in_tx p.token_id

  abbrev invalidate_if_held : Result OfflineToken → Db ⊤
  invalidate_if_held (err e) = pure tt
  invalidate_if_held (ok t) =
      if ite (TokenStatus-discrete t.status TokenStatus.held) true false
      then invalidate_token in_tx p.token_id
      else pure tt

  unfoldable pub consume_compensate : Db ⊤
  consume_compensate = do
    current ← attempt (query_row in_tx (λ s. find token_key p.token_id s.tokens))
    invalidate_if_held current

  abbrev pub ledger_entry : String → String → Direction → ℤ → EntryType → ℤ → LedgerEntry
  ledger_entry txn_id account_id direction amount entry_type balance_after = record {
    txn_id = txn_id;
    account_id = account_id;
    direction = direction;
    amount = amount;
    entry_type = entry_type;
    balance_after = balance_after;
    created_at = 0;
  }

  -- The status, the two entries of the payment, and the one that balances the reservation.
  unfoldable pub write_ledger : ℤ → ℤ → Db ⊤
  write_ledger sender_available receiver_available = do
    update_payment_intent_status in_tx p.txn_id PaymentState.settled none
    create_ledger_entry (
        ledger_entry p.txn_id p.sender_id Direction.debit p.amount EntryType.settlement
          sender_available)
    create_ledger_entry (
        ledger_entry p.txn_id p.receiver_id Direction.credit p.amount EntryType.settlement
          receiver_available)
    create_ledger_entry (
        ledger_entry (reservation_txn p.token_id) p.sender_id Direction.credit token.value
          EntryType.release sender_available)

  unfoldable pub ledger_action : Db ⊤
  unfolding lock_accounts
  ledger_action = do
    consume_token in_tx p.token_id
    accounts ← lock_accounts get_balance_for_update p.sender_id p.receiver_id
    let new_sender_reserved = sub64 accounts.sender.reserved_balance token.value
    let new_sender_available = add64 accounts.sender.available_balance change_amount
    update_balance in_tx p.sender_id new_sender_available new_sender_reserved
    let new_receiver_available = add64 accounts.receiver.available_balance p.amount
    update_balance in_tx p.receiver_id new_receiver_available accounts.receiver.reserved_balance
    write_ledger new_sender_available new_receiver_available

  abbrev pub is_release : EntryType → Bool
  is_release EntryType.release = true
  is_release _ = false

  abbrev pub is_settlement_entry : LedgerEntry → Bool
  is_settlement_entry e =
      same_text e.txn_id p.txn_id
      || (same_text e.txn_id (reservation_txn p.token_id) && is_release e.entry_type)

  unfoldable pub ledger_compensate : Db ⊤
  unfolding lock_accounts
  ledger_compensate = do
    accounts ← lock_accounts get_balance_for_update p.sender_id p.receiver_id
    let new_sender_reserved = add64 accounts.sender.reserved_balance token.value
    let new_sender_available = sub64 accounts.sender.available_balance change_amount
    update_balance in_tx p.sender_id new_sender_available new_sender_reserved
    let new_receiver_available = sub64 accounts.receiver.available_balance p.amount
    update_balance in_tx p.receiver_id new_receiver_available accounts.receiver.reserved_balance
    exec in_tx (λ now s. ok (record s { ledger = delete_rows is_settlement_entry s.ledger }))
    delete_intent p.txn_id

  abbrev pub settled_fields : Time → List Field
  settled_fields now =
      record { name = "txn_id"; value = Json.text p.txn_id }
      ∷ record { name = "sender"; value = Json.text p.sender_id }
      ∷ record { name = "receiver"; value = Json.text p.receiver_id }
      ∷ record { name = "amount"; value = Json.int p.amount }
      ∷ record { name = "token_id"; value = Json.text p.token_id }
      ∷ record { name = "settled_at"; value = Json.time now }
      ∷ record { name = "relay_hops"; value = Json.int hop_count }
      ∷ []

  abbrev pub audit_fields : List Field
  audit_fields =
      record { name = "intent"; value = Json.payload p }
      ∷ record { name = "token_value"; value = Json.int token.value }
      ∷ record { name = "change_amount"; value = Json.int change_amount }
      ∷ []

  -- The event is saved only if the intent can be read back.
  abbrev pub save_settled : Time → Result PaymentIntent → Db ⊤
  save_settled now (err e) = pure tt
  save_settled now (ok intent) =
      save_event_and_snapshot 5 in_tx p.txn_id "IntentSettled" 1
        (platform.marshal (settled_fields now)) (some intent)

  unfoldable pub publish_action : Db ⊤
  publish_action = do
    now ← clock
    create_audit_event in_tx (record {
      txn_id = p.txn_id;
      event_type = "PaymentSettled";
      payload = platform.marshal audit_fields;
      created_at = 0;
    })
    create_outbox_event in_tx "payment.settled" "PaymentSettled"
        (platform.marshal (settled_fields now))
    intent ← attempt (get_payment_intent p.txn_id)
    save_settled now intent

  -- `LIKE '%txn_id%'`, for a transaction id without wildcards of its own.
  -- The payload of a message is JSONB, for which PostgreSQL has no LIKE, so the second statement
  -- always fails.
  unfoldable pub publish_compensate : Db ⊤
  publish_compensate = do
    exec in_tx (λ now s.
        ok (record s { audits = delete_rows (λ a. same_text a.txn_id p.txn_id) s.audits }))
    exec in_tx (λ now s. err (Error.message "operator does not exist: jsonb ~~ unknown"))
    exec in_tx (λ now s.
        ok (record s { events = delete_rows (λ e. same_text e.txn_id p.txn_id) s.events }))

  abbrev pub reserve_step : SagaStep
  reserve_step = record {
    name = "RESERVE";
    action = reserve_action;
    compensate = some reserve_compensate;
  }

  abbrev pub consume_step : SagaStep
  consume_step = record {
    name = "CONSUME_TOKEN";
    action = consume_action;
    compensate = some consume_compensate;
  }

  abbrev pub ledger_step : SagaStep
  ledger_step = record {
    name = "LEDGER_COMMIT";
    action = ledger_action;
    compensate = some ledger_compensate;
  }

  abbrev pub publish_step : SagaStep
  publish_step = record {
    name = "PUBLISH";
    action = publish_action;
    compensate = some publish_compensate;
  }

  -- The steps in the order in which the saga runs them.
  unfoldable pub saga_steps : List SagaStep
  unfolding reserve_action reserve_compensate consume_action consume_compensate write_ledger
      ledger_action ledger_compensate publish_action publish_compensate
  saga_steps = reserve_step ∷ consume_step ∷ ledger_step ∷ publish_step ∷ []
