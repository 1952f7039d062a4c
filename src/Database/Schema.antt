-- ===== src/Database/Schema.antt =====
-- The tables, one list of rows each, and the errors that the code tells apart.
use offline_pay.Prelude.{ℕ, String, Bool, Option, List, [], ◌||◌, true, false}
use offline_pay.Prelude.{none, some}
use offline_pay.Prelude.Int.{ℤ}
use offline_pay.Domain.{
  Time, Device, OfflineToken, PaymentIntent, NonceRegistry, AccountBalance, LedgerEntry, AuditEvent,
  PaymentEvent, DeadLetterEvent, DeviceAttestation, SagaState, RelayAttempt, PaymentReadProjection,
}
use text.Mathlib.Text.{find?}

-- internal/recovery/models.go
pub data FailureCategory : Type 0 where
  network payment security consistency infrastructure unknown : FailureCategory
  other : String → FailureCategory

pub data RecoveryAction : Type 0 where
  retry compensate escalate abstain exhausted : RecoveryAction

pub data RecoveryState : Type 0 where
  pending diagnosed scheduled recovering compensated escalated exhausted : RecoveryState

pub data OutboxStatus : Type 0 where
  pending processing published failed : OutboxStatus

-- `outbox_events`, with the columns that migration 000002 adds.
pub record OutboxRow : Type 0 where
  pub event_id : ℕ
  pub stream_name : String
  pub event_type : String
  pub payload : String
  pub is_published : Bool
  pub created_at : Time
  pub status : OutboxStatus
  pub retry_count : ℕ
  pub last_error : Option String
  pub locked_by : Option String
  pub locked_at : Option Time

pub record PaymentSnapshot : Type 0 where
  pub aggregate_id : String
  pub aggregate_version : ℕ
  pub snapshot_data : PaymentIntent
  pub created_at : Time

-- `failure_events` and `recovery_operations` (migration 000004). A confidence is a percentage.
pub record FailureRow : Type 0 where
  pub failure_id : String
  pub txn_id : String
  pub category : FailureCategory
  pub code : String
  pub reason : String
  pub confidence : ℤ
  pub classifier_source : String
  pub occurred_at : Time

pub record RecoveryOperation : Type 0 where
  pub recovery_id : String
  pub txn_id : String
  pub idempotency_key : String
  pub action : RecoveryAction
  pub state : RecoveryState
  pub attempt_count : ℕ
  pub next_attempt_at : Option Time

-- `projection_checkpoints` and `processed_events` (migration 000003).
pub record ProjectionCheckpoint : Type 0 where
  pub projection_name : String
  pub last_event_id : ℤ
  pub updated_at : Time

pub record ProcessedEvent : Type 0 where
  pub event_id : String
  pub processed_at : Time

pub record Store : Type 0 where
  pub devices : List Device
  pub tokens : List OfflineToken
  pub intents : List PaymentIntent
  pub nonces : List NonceRegistry
  pub balances : List AccountBalance
  pub ledger : List LedgerEntry
  pub audits : List AuditEvent
  pub outbox : List OutboxRow
  pub next_outbox_id : ℕ
  pub sagas : List SagaState
  pub events : List PaymentEvent
  pub snapshots : List PaymentSnapshot
  pub dead_letters : List DeadLetterEvent
  pub next_dead_letter_id : ℕ
  pub attestations : List DeviceAttestation
  pub failures : List FailureRow
  pub recoveries : List RecoveryOperation
  pub relay_attempts : List RelayAttempt
  pub projections : List PaymentReadProjection
  pub checkpoints : List ProjectionCheckpoint
  pub processed : List ProcessedEvent

-- The tables after the migrations.
abbrev pub empty_store : Store
empty_store = record {
  devices = [];
  tokens = [];
  intents = [];
  nonces = [];
  balances = [];
  ledger = [];
  audits = [];
  outbox = [];
  next_outbox_id = 1;
  sagas = [];
  events = [];
  snapshots = [];
  dead_letters = [];
  next_dead_letter_id = 1;
  attestations = [];
  failures = [];
  recoveries = [];
  relay_attempts = [];
  projections = [];
  checkpoints = [];
  processed = [];
}

abbrev pub device_key : Device → String
device_key d = d.device_id

abbrev pub token_key : OfflineToken → String
token_key t = t.token_id

abbrev pub intent_key : PaymentIntent → String
intent_key i = i.txn_id

abbrev pub nonce_key : NonceRegistry → String
nonce_key n = n.nonce

abbrev pub balance_key : AccountBalance → String
balance_key b = b.account_id

abbrev pub saga_key : SagaState → String
saga_key s = s.saga_id

abbrev pub snapshot_key : PaymentSnapshot → String
snapshot_key s = s.aggregate_id

abbrev pub failure_key : FailureRow → String
failure_key f = f.failure_id

abbrev pub recovery_key : RecoveryOperation → String
recovery_key r = r.idempotency_key

abbrev pub recovery_id_key : RecoveryOperation → String
recovery_id_key r = r.recovery_id

abbrev pub recovery_txn_key : RecoveryOperation → String
recovery_txn_key r = r.txn_id

abbrev pub attestation_key : DeviceAttestation → String
attestation_key a = a.device_id

abbrev pub projection_key : PaymentReadProjection → String
projection_key p = p.txn_id

abbrev pub checkpoint_key : ProjectionCheckpoint → String
checkpoint_key c = c.projection_name

abbrev pub processed_key : ProcessedEvent → String
processed_key p = p.event_id

-- An error is a driver's, the simulated outage of `WithTx`, or a text; `wrap` is `%w`. The
-- operands of a format are left out of its text: the code looks for constant parts only.
pub data Error : Type 0 where
  no_rows outage duplicate_key foreign_key check_violation tx_aborted offline : Error
  message : String → Error
  wrap : String → Error → Error

pub data Result {ℓ} (A : Type ℓ) : Type ℓ where
  ok : A → Result A
  err : Error → Result A

-- A constraint of a table: without it the statement fails.
abbrev pub require {ℓ} : {A : Type ℓ} → Bool → Error → Result A → Result A
require true e r = r
require false e r = err e

-- `strings.Contains(s, part)`
unfoldable pub contains_text : String → String → Bool
contains_text s part = elim (find? s part) [ none ↦ false | some _ ↦ true ]

-- `strings.Contains(err.Error(), part)`
unfoldable pub error_contains : Error → String → Bool
unfolding contains_text
error_contains Error.no_rows part = contains_text "sql: no rows in result set" part
error_contains Error.outage part = contains_text "driver: bad connection" part
error_contains Error.duplicate_key part =
    contains_text "pq: duplicate key value violates unique constraint" part
error_contains Error.foreign_key part =
    contains_text "pq: insert or update on table violates foreign key constraint" part
error_contains Error.check_violation part =
    contains_text "pq: new row for relation violates check constraint" part
error_contains Error.tx_aborted part = contains_text "pq: current transaction is aborted" part
error_contains Error.offline part = contains_text "database connection down (simulated chaos)" part
error_contains (Error.message s) part = contains_text s part
error_contains (Error.wrap s e) part = contains_text s part || error_contains e part

-- `errors.Is(err, sql.ErrNoRows)`
unfoldable pub is_no_rows : Error → Bool
is_no_rows Error.no_rows = true
is_no_rows (Error.wrap s e) = is_no_rows e
is_no_rows e = false
