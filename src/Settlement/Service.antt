-- ===== src/Settlement/Service.antt =====
-- `Settle` and `saveFailedIntent` of internal/settlement/service.go. The ids that the uuid package
-- makes are arguments; logs and metrics are left out.
use offline_pay.Risk.{assess, RiskAction}
use offline_pay.Prelude.{
  ◌+◌, String, str_append, Bool, true, false, not, ◌||◌, Option, none, some, List, [], ◌∷◌, ite,
  str_dec, ltb, if◌then◌else◌,
}
use offline_pay.Prelude.Int.{ℤ, pos, ltb_ℤ}
use offline_pay.Domain.{
  PaymentState, DeviceStatus, Device, OfflineToken, PaymentIntentPayload, PaymentIntent,
  EncryptedEnvelope, DeviceAttestation,
}
use offline_pay.Database.{
  Error, Result, ok, err, ⊤, Db, ◌>>=◌, ◌>>◌, pure, attempt, ignore, clock, direct, error_contains,
  is_no_rows,
}
use offline_pay.Repository.{
  create_payment_intent, create_outbox_event, get_payment_intent, get_device_attestation,
  get_device, get_token,
}
use offline_pay.EventSource.{save_event_and_snapshot}
use offline_pay.Saga.{execute}
use offline_pay.Recovery.{record_failure}
use offline_pay.Settlement.Platform.{
  Platform, SignedPaymentIntent, Json, Field, canonical_intent, canonical_token,
}
use offline_pay.Settlement.Steps.{saga_steps}

-- What `Settle` returns: a status, and an error or nil.
pub record Outcome : Type 0 where
  pub status : PaymentState
  pub error : Option Error

-- The ids that the uuid package makes for one request.
pub record FreshIds : Type 0 where
  pub saga_id : String
  pub failure_id : String
  pub recovery_id : String

-- The text of a state, as the JSON of a failed payment holds it.
unfoldable pub state_text : PaymentState → String
state_text PaymentState.created = "CREATED"
state_text PaymentState.signed = "SIGNED"
state_text PaymentState.encrypted = "ENCRYPTED"
state_text PaymentState.broadcast = "BROADCAST"
state_text PaymentState.relayed = "RELAYED"
state_text PaymentState.validated = "VALIDATED"
state_text PaymentState.reserved = "RESERVED"
state_text PaymentState.settled = "SETTLED"
state_text PaymentState.rejected = "REJECTED"
state_text PaymentState.failed = "FAILED"
state_text PaymentState.expired = "EXPIRED"
state_text PaymentState.duplicate = "DUPLICATE"
state_text PaymentState.reconciled = "RECONCILED"
state_text (PaymentState.other s) = s

-- `err.Error()`
unfoldable pub error_text : Error → String
error_text Error.no_rows = "sql: no rows in result set"
error_text Error.outage = "driver: bad connection"
error_text Error.duplicate_key = "pq: duplicate key value violates unique constraint"
error_text Error.foreign_key = "pq: insert or update on table violates foreign key constraint"
error_text Error.check_violation = "pq: new row for relation violates check constraint"
error_text Error.tx_aborted = "pq: current transaction is aborted"
error_text Error.offline = "database connection down (simulated chaos)"
error_text (Error.message s) = s
error_text (Error.wrap s e) = str_append s (str_append ": " (error_text e))

-- The three fields of a failed payment's event, and the four of its outbox message.
abbrev failed_event_fields : PaymentState → String → ℤ → List Field
failed_event_fields status reason hop_count =
    record { name = "reason"; value = Json.text reason }
    ∷ record { name = "status"; value = Json.text (state_text status) }
    ∷ record { name = "relay_hops"; value = Json.int hop_count }
    ∷ []

-- `saveFailedIntent`: three writes on the pool's own connection, whose errors are dropped.
unfoldable pub save_failed_intent : Platform → EncryptedEnvelope → PaymentState → String → ℤ → Db ⊤
save_failed_intent platform env status reason hop_count = do
  now ← clock
  let intent : PaymentIntent = record {
    txn_id = env.txn_id;
    sender_id = "UNKNOWN";
    receiver_id = "UNKNOWN";
    amount = pos 0;
    currency = "USD";
    nonce = env.nonce;
    expiry = now + 3600000000000;
    status = status;
    device_id = "UNKNOWN";
    token_id = "UNKNOWN";
    failure_reason = some reason;
    settled_at = none;
    rejected_at = none;
    relay_hops = hop_count;
    signature_hash = "";
    created_at = now;
    updated_at = now;
  }
  ignore (create_payment_intent direct intent)
  ignore (
      create_outbox_event direct "payment.failed" "PaymentFailed" (
        platform.marshal (
          record { name = "txn_id"; value = Json.text env.txn_id }
          ∷ failed_event_fields status reason hop_count)))
  ignore (
      save_event_and_snapshot 5 direct env.txn_id "IntentFailed" 1
        (platform.marshal (failed_event_fields status reason hop_count)) (some intent))

-- The statuses that make a second settlement of the same transaction a duplicate.
abbrev pub is_processed : PaymentState → Bool
is_processed PaymentState.settled = true
is_processed PaymentState.rejected = true
is_processed PaymentState.failed = true
is_processed PaymentState.duplicate = true
is_processed _ = false

abbrev pub already_processed : Result PaymentIntent → Bool
already_processed (err e) = false
already_processed (ok i) = is_processed i.status

abbrev pub is_untrusted : Result (Option DeviceAttestation) → Bool
is_untrusted (err e) = false
is_untrusted (ok none) = false
is_untrusted (ok (some a)) = ite (str_dec a.trust_level "UNTRUSTED") true false

abbrev pub is_withdrawn : DeviceStatus → Bool
is_withdrawn DeviceStatus.active = false
is_withdrawn DeviceStatus.revoked = true
is_withdrawn DeviceStatus.compromised = true
is_withdrawn (DeviceStatus.other _) = false

abbrev pub is_reject : RiskAction → Bool
is_reject RiskAction.reject = true
is_reject _ = false

abbrev pub differs : String → String → Bool
differs a b = ite (str_dec a b) false true

-- What `Settle` makes of an error of the saga: the status, the reason and the error it returns.
pub record Verdict : Type 0 where
  pub status : PaymentState
  pub reason : String
  pub error : Error

unfoldable pub judge : Error → Verdict
unfolding error_text
judge e =
    if is_no_rows e || error_contains e "nonce_reused"
    then record { status = PaymentState.duplicate; reason = "nonce_reused"; error = e }
    else if not (differs (error_text e) "token_already_consumed_concurrent")
        || error_contains e "token state mismatch"
        || error_contains e "insufficient reserved balance"
    then record {
      status = PaymentState.duplicate;
      reason = "token_already_consumed";
      error = Error.message "spending token already consumed";
    }
    else if error_contains e "duplicate key" || error_contains e "unique constraint"
    then record {
      status = PaymentState.duplicate;
      reason = "transaction_already_processed";
      error = Error.message "transaction already processed";
    }
    else record { status = PaymentState.failed; reason = error_text e; error = e }

module _ (platform : Platform) (fresh : FreshIds) (env : EncryptedEnvelope) (hop_count : ℤ) where
  -- A refusal: the failed payment is recorded, and the status returned with an error.
  unfoldable pub refuse : PaymentState → String → Error → Db Outcome
  refuse status reason error =
      save_failed_intent platform env status reason hop_count
      >> pure (record { status = status; error = some error })

  unfoldable pub reject_payment : String → String → Db Outcome
  unfolding refuse
  reject_payment reason error = refuse PaymentState.rejected reason (Error.message error)

  -- Recovery is recorded only if the failed payment can be read back, and its error is dropped.
  unfoldable pub record_recovery : Verdict → Result PaymentIntent → Db ⊤
  record_recovery v (err e) = pure tt
  record_recovery v (ok current) = do
    now ← clock
    ignore (
        record_failure platform.recovery fresh.failure_id fresh.recovery_id (record {
          id = "";
          txn_id = current.txn_id;
          amount = current.amount;
          code = v.reason;
          reason = error_text v.error;
          occurred_at = now;
        }))

  unfoldable pub after_saga : Result ⊤ → Db Outcome
  unfolding record_recovery
  after_saga (ok u) = pure (record { status = PaymentState.settled; error = none })
  after_saga (err e) = do
    let v = judge e
    save_failed_intent platform env v.status v.reason hop_count
    current ← attempt (get_payment_intent env.txn_id)
    record_recovery v current
    pure (record { status = v.status; error = some v.error })

  -- Steps 10 and 11 of `Settle`.
  unfoldable pub run_saga : PaymentIntentPayload → OfflineToken → Db Outcome
  unfolding after_saga
  run_saga p token = do
    r ← attempt (
        execute fresh.saga_id p.txn_id (
          saga_steps (record {
            platform = platform;
            p = p;
            env = env;
            token = token;
            hop_count = hop_count;
          })))
    after_saga r

  -- Steps 8 (after the lookup) and 9: the token and the risk engine.
  unfoldable pub check_token : Device → PaymentIntentPayload → OfflineToken → Db Outcome
  unfolding run_saga reject_payment
  check_token device p token = do
    now ← clock
    let signed =
        canonical_token platform.format_int token.token_id token.owner_id token.value token.expiry
    if not (platform.verify platform.bank_public_key signed token.token_signature)
        then reject_payment "invalid_token_signature" "invalid bank signature on token"
        else if differs token.owner_id p.sender_id
        then reject_payment "token_owner_mismatch" "token owner does not match sender"
        else if ltb token.expiry now
        then reject_payment "token_expired" "spending token expired"
        else if token.consumed
        then refuse PaymentState.duplicate "token_already_consumed"
            (Error.message "spending token already consumed")
        else if ltb_ℤ token.value p.amount
        then reject_payment "insufficient_token_value" "token value is less than payment amount"
        else let assessment = assess platform.redis (some device) p hop_count (pos 0) false in
          if is_reject assessment.action
          then reject_payment (str_append "risk_rejection: " assessment.reason)
              "transaction rejected by risk engine"
          else run_saga p token

  unfoldable pub look_up_token : Device → PaymentIntentPayload → Result OfflineToken → Db Outcome
  unfolding check_token
  look_up_token device p (err e) =
      refuse PaymentState.rejected "token_not_found" (Error.wrap "token not found" e)
  look_up_token device p (ok token) = check_token device p token

  -- Steps 6 to 8: the signature, the expiry and the token's lookup.
  unfoldable pub check_signature : Device → SignedPaymentIntent → Option String → Db Outcome
  unfolding look_up_token
  check_signature device signed none =
      reject_payment "invalid_device_public_key" "failed to parse PEM block containing public key"
  check_signature device signed (some key) = do
    now ← clock
    let p = signed.payload
    if not (platform.verify key (canonical_intent platform.format_int p) signed.device_signature)
        then reject_payment "invalid_device_signature" "invalid device signature"
        else if ltb p.expiry now
        then refuse PaymentState.expired "transaction_expired" (Error.message "transaction expired")
        else if not (differs p.token_id "")
        then reject_payment "missing_offline_token" "offline transactions require a spending token"
        else (attempt (get_token p.token_id) >>= look_up_token device p)

  -- Step 5: the device.
  unfoldable pub check_device : SignedPaymentIntent → Result Device → Db Outcome
  unfolding check_signature
  check_device signed (err e) =
      refuse PaymentState.rejected "device_not_found" (Error.wrap "device not found" e)
  check_device signed (ok device) =
      if is_withdrawn device.status
      then reject_payment "device_revoked_or_compromised" "device is revoked/compromised"
      else check_signature device signed (platform.parse_public_key device.public_key)

  -- Steps 4 and 5: the attestation and the device's lookup.
  unfoldable pub check_attestation : SignedPaymentIntent → Db Outcome
  unfolding check_device
  check_attestation signed = do
    att ← attempt (get_device_attestation signed.payload.device_id)
    if is_untrusted att
        then reject_payment "device_attestation_untrusted"
            "device attestation verification failed: untrusted level"
        else (attempt (get_device signed.payload.device_id) >>= check_device signed)

  -- Steps 2 and 3: decryption and decoding.
  unfoldable pub decode_payload : Option SignedPaymentIntent → Db Outcome
  unfolding check_attestation
  decode_payload none = reject_payment "malformed_json_payload" "malformed json payload"
  decode_payload (some signed) = check_attestation signed

  unfoldable pub decode_bytes : Option String → Db Outcome
  unfolding decode_payload
  decode_bytes none = reject_payment "decryption_failure" "decryption failure"
  decode_bytes (some bytes) = decode_payload (platform.unmarshal bytes)

  unfoldable pub open_envelope : Db Outcome
  unfolding decode_bytes
  open_envelope = decode_bytes (platform.decrypt env)

  -- `Settle`
  unfoldable pub settle : Db Outcome
  unfolding open_envelope
  settle = do
    existing ← attempt (get_payment_intent env.txn_id)
    if already_processed existing
        then pure (record {
          status = PaymentState.duplicate;
          error = some (Error.message "transaction already processed");
        })
        else open_envelope
