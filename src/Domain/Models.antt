-- ===== src/Domain/Models.antt =====
-- The row types of internal/domain/models.go, field by field.
use offline_pay.Prelude.{ℕ, String, Bool, Option}
use offline_pay.Prelude.Int.{ℤ}
use offline_pay.Domain.States.{
  PaymentState, TokenStatus, DeviceStatus, Direction, EntryType, SagaStatus,
}

abbrev pub Time : Type 0
Time = ℕ

pub record Device : Type 0 where
  pub device_id : String
  pub owner_id : String
  pub public_key : String
  pub trust_score : ℤ
  pub status : DeviceStatus
  pub created_at : Time
  pub revoked_at : Option Time

pub record OfflineToken : Type 0 where
  pub token_id : String
  pub owner_id : String
  pub value : ℤ
  pub expiry : Time
  pub consumed : Bool
  pub consumed_at : Option Time
  pub token_signature : String
  pub reserved_at : Time
  pub released_at : Option Time
  pub risk_score_at_issue : ℕ
  pub status : TokenStatus

pub record PaymentIntentPayload : Type 0 where
  pub txn_id : String
  pub sender_id : String
  pub receiver_id : String
  pub amount : ℤ
  pub currency : String
  pub nonce : String
  pub expiry : Time
  pub device_id : String
  pub token_id : String

pub record PaymentIntent : Type 0 where
  pub txn_id : String
  pub sender_id : String
  pub receiver_id : String
  pub amount : ℤ
  pub currency : String
  pub nonce : String
  pub expiry : Time
  pub status : PaymentState
  pub device_id : String
  pub token_id : String
  pub failure_reason : Option String
  pub settled_at : Option Time
  pub rejected_at : Option Time
  pub relay_hops : ℤ
  pub signature_hash : String
  pub created_at : Time
  pub updated_at : Time

pub record EncryptedEnvelope : Type 0 where
  pub ephemeral_public_key : String
  pub ciphertext : String
  pub nonce : String
  pub auth_tag : String
  pub txn_id : String
  pub iv : String

pub record NonceRegistry : Type 0 where
  pub nonce : String
  pub txn_id : String
  pub consumed_at : Time
  pub expiry : Time

pub record AccountBalance : Type 0 where
  pub account_id : String
  pub available_balance : ℤ
  pub reserved_balance : ℤ
  pub updated_at : Time

pub record LedgerEntry : Type 0 where
  pub txn_id : String
  pub account_id : String
  pub direction : Direction
  pub amount : ℤ
  pub entry_type : EntryType
  pub balance_after : ℤ
  pub created_at : Time

pub record AuditEvent : Type 0 where
  pub txn_id : String
  pub event_type : String
  pub payload : String
  pub created_at : Time

pub record PaymentEvent : Type 0 where
  pub txn_id : String
  pub event_type : String
  pub event_version : ℕ
  pub payload : String
  pub created_at : Time

pub record DeadLetterEvent : Type 0 where
  pub event_id : ℕ
  pub payload : String
  pub failure_reason : String
  pub retry_count : ℕ
  pub timestamp : Time

pub record DeviceAttestation : Type 0 where
  pub device_id : String
  pub attestation_type : String
  pub attestation_hash : String
  pub trust_level : String
  pub created_at : Time

pub record SagaState : Type 0 where
  pub saga_id : String
  pub txn_id : String
  pub status : SagaStatus
  pub step : String
  pub updated_at : Time

pub record RelayAttempt : Type 0 where
  pub relay_id : String
  pub txn_id : String
  pub hop_count : ℤ
  pub status : String
  pub first_seen_at : Time
  pub last_seen_at : Time

pub record OutboxEvent : Type 0 where
  pub event_id : ℕ
  pub stream_name : String
  pub event_type : String
  pub payload : String
  pub is_published : Bool
  pub created_at : Time

pub record PaymentReadProjection : Type 0 where
  pub txn_id : String
  pub sender_id : String
  pub receiver_id : String
  pub amount : ℤ
  pub status : PaymentState
  pub relay_hops : ℤ
  pub settled_at : Option Time
  pub updated_at : Time

pub record BalanceDiscrepancy : Type 0 where
  pub account_id : String
  pub expected_available : ℤ
  pub actual_available : ℤ
  pub expected_reserved : ℤ
  pub actual_reserved : ℤ
  pub discrepancy_amount : ℤ
