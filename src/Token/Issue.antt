-- ===== src/Token/Issue.antt =====
-- `ComputeOfflineCreditLimit` and `IssueToken` of internal/token/service.go. The token's id (from
-- the uuid package), the bank's signature and the marshalled token are arguments.
use offline_pay.Prelude.{
  ℕ, ◌+◌, ◌*◌, ◌/◌, String, str_append, Bool, true, false, not, ◌&&◌, none, List, [], ◌∷◌,
  if◌then◌else◌,
}
use offline_pay.Prelude.Int.{ℤ, pos, pos_part, add64, sub64, ltb_ℤ, leb_ℤ}
use offline_pay.Domain.{
  Time, Device, DeviceStatus, OfflineToken, TokenStatus, PaymentIntent, PaymentState, Direction,
  EntryType, LedgerEntry,
}
use offline_pay.Database.{
  Error, Result, ok, Db, ◌>>=◌, ◌>>◌, pure, raise_if, attempt, ignore, wrap_error, clock, in_tx,
  with_tx,
}
use offline_pay.Repository.{
  get_devices_by_owner, create_device, get_balance_for_update, update_balance, create_token,
  create_payment_intent, create_ledger_entry, create_outbox_event,
}
use offline_pay.Settlement.{canonical_token, reservation_txn}

-- What the loop over an owner's devices has seen.
pub record Standing : Type 0 where
  pub best_trust_score : ℤ
  pub has_compromised : Bool
  pub has_active : Bool

abbrev pub see : DeviceStatus → ℤ → Standing → Standing
see DeviceStatus.compromised trust s = record s { has_compromised = true }
see DeviceStatus.revoked trust s = record s { has_compromised = true }
see (DeviceStatus.other _) trust s = s
see DeviceStatus.active trust s = record s {
  has_active = true;
  best_trust_score = if ltb_ℤ s.best_trust_score trust then trust else s.best_trust_score;
}

unfoldable pub survey : Standing → List Device → Standing
survey s [] = s
survey s (d ∷ devices) = survey (see d.status d.trust_score s) devices

-- `int64(200 + best*4800)` at a trust score in thousandths: cents, rounded towards zero. The source
-- computes it in float64, which can round below the exact value.
unfoldable pub limit_at : ℤ → ℤ
limit_at trust =
    let limit = pos ((200000 + pos_part trust * 4800) / 1000) in
    if ltb_ℤ limit (pos 0) then pos 0 else limit

unfoldable pub limit_of : Standing → ℤ
unfolding limit_at
limit_of s = if s.has_compromised && not s.has_active then pos 0 else limit_at s.best_trust_score

abbrev pub nothing_seen : Standing
nothing_seen = record { best_trust_score = pos 0; has_compromised = false; has_active = false }

unfoldable pub limit_for : List Device → ℤ
unfolding survey limit_of
limit_for [] = pos 200
limit_for (d ∷ devices) = limit_of (survey nothing_seen (d ∷ devices))

-- `ComputeOfflineCreditLimit`
unfoldable pub compute_offline_credit_limit : String → Db ℤ
unfolding limit_for
compute_offline_credit_limit owner_id = do
  devices ← get_devices_by_owner owner_id
  pure (limit_for devices)

-- What a token's issue takes from other packages.
pub record Issuer : Type 0 where
  pub format_int : ℤ → String
  -- `crypto.Sign` with the bank's private key: a signature, or an error
  pub sign : String → Result String
  pub marshal : OfflineToken → String

abbrev pub from_result : {A : Type 0} → Result A → Db A
from_result r w = (r, w)

-- The device of the placeholder intent: the owner's first, or a new one, whose failed creation
-- is not noticed.
unfoldable pub first_device : String → Result (List Device) → Db String
first_device owner_id (ok (d ∷ devices)) = pure d.device_id
first_device owner_id other = do
  now ← clock
  let device_id = str_append "device-auto-" owner_id
  ignore (
      create_device (record {
        device_id = device_id;
        owner_id = owner_id;
        public_key = "dummy-key";
        trust_score = pos 1000;
        status = DeviceStatus.active;
        created_at = now;
        revoked_at = none;
      }))
  pure device_id

-- The token before it is stored: its status is not set yet.
abbrev pub new_token : String → String → ℤ → Time → String → Time → OfflineToken
new_token token_id owner_id value expiry signature now = record {
  token_id = token_id;
  owner_id = owner_id;
  value = value;
  expiry = expiry;
  consumed = false;
  consumed_at = none;
  token_signature = signature;
  reserved_at = now;
  released_at = none;
  risk_score_at_issue = 100;
  status = TokenStatus.other "";
}

-- The intent that the reservation's ledger entry refers to.
abbrev pub placeholder : String → OfflineToken → String → Time → PaymentIntent
placeholder owner_id tok device_id now = record {
  txn_id = reservation_txn tok.token_id;
  sender_id = owner_id;
  receiver_id = "BANK";
  amount = tok.value;
  currency = "USD";
  nonce = str_append "nonce-tok-res-" tok.token_id;
  expiry = tok.expiry;
  status = PaymentState.reserved;
  device_id = device_id;
  token_id = tok.token_id;
  failure_reason = none;
  settled_at = none;
  rejected_at = none;
  relay_hops = pos 0;
  signature_hash = "";
  created_at = now;
  updated_at = now;
}

abbrev pub reservation_entry : String → OfflineToken → ℤ → LedgerEntry
reservation_entry owner_id tok balance_after = record {
  txn_id = reservation_txn tok.token_id;
  account_id = owner_id;
  direction = Direction.debit;
  amount = tok.value;
  entry_type = EntryType.reservation;
  balance_after = balance_after;
  created_at = 0;
}

-- The second half of the transaction of `IssueToken`: the placeholder intent, the ledger entry and
-- the message.
unfoldable pub write_reservation : Issuer → String → OfflineToken → ℤ → Db OfflineToken
unfolding first_device
write_reservation issuer owner_id tok new_available = do
  devices ← attempt (get_devices_by_owner owner_id)
  device_id ← first_device owner_id devices
  now ← clock
  wrap_error "failed to create placeholder payment intent"
      (create_payment_intent in_tx (placeholder owner_id tok device_id now))
  wrap_error "failed to create ledger entry"
      (create_ledger_entry (reservation_entry owner_id tok new_available))
  wrap_error "failed to write outbox event"
      (create_outbox_event in_tx "token.issued" "TokenIssued" (issuer.marshal tok))
  pure tok

-- The bank's signature of a new token, and its row.
unfoldable pub sign_and_store : Issuer → String → String → ℤ → Time → Db OfflineToken
sign_and_store issuer token_id owner_id value expiry = do
  signature ←
      wrap_error "failed to sign token" (
        from_result
          (issuer.sign (canonical_token issuer.format_int token_id owner_id value expiry)))
  now ← clock
  let tok = new_token token_id owner_id value expiry signature now
  wrap_error "failed to save token" (create_token in_tx tok)
  pure tok

-- The transaction of `IssueToken`.
unfoldable pub issue_tx : Issuer → String → String → ℤ → Time → Db OfflineToken
unfolding write_reservation sign_and_store
issue_tx issuer token_id owner_id value expiry = do
  bal ← wrap_error "failed to retrieve account balance" (get_balance_for_update owner_id)
  raise_if (ltb_ℤ bal.available_balance value) (Error.message "insufficient available balance")
  let new_available = sub64 bal.available_balance value
  let new_reserved = add64 bal.reserved_balance value
  wrap_error "failed to update balances" (update_balance in_tx owner_id new_available new_reserved)
  tok ← sign_and_store issuer token_id owner_id value expiry
  write_reservation issuer owner_id tok new_available

-- `IssueToken`; `duration` is not negative.
unfoldable pub issue_token : Issuer → String → String → ℤ → ℕ → Db OfflineToken
unfolding compute_offline_credit_limit issue_tx
issue_token issuer token_id owner_id value duration = do
  raise_if (leb_ℤ value (pos 0)) (Error.message "token value must be greater than zero")
  limit ← wrap_error "failed to compute credit limit" (compute_offline_credit_limit owner_id)
  raise_if (ltb_ℤ limit value) (Error.message "requested token value exceeds dynamic limit")
  now ← clock
  with_tx (issue_tx issuer token_id owner_id value (now + duration))
