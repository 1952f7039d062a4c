-- ===== src/Settlement/Lab.antt =====
-- Tables, a platform and payments for tests of internal/settlement/service.go.
use offline_pay.Prelude.{String, str_append, true, false, none, some, [], ◌∷◌, ite, str_dec}
use offline_pay.Prelude.Int.{ℤ, pos}
use offline_pay.Domain.{
  PaymentState, DeviceStatus, OfflineToken, TokenStatus, PaymentIntentPayload, PaymentIntent,
  EncryptedEnvelope, AccountBalance,
}
use offline_pay.Database.{empty_store, World, Store, Result, FailureCategory}
use offline_pay.Recovery.{default_policy}
use offline_pay.Settlement.Steps.{reservation_txn}
use offline_pay.Settlement.Platform.{Platform}
use offline_pay.Settlement.Service.{Outcome, FreshIds, settle}

abbrev pub payload_to : String → PaymentIntentPayload
payload_to receiver = record {
  txn_id = "txn-1";
  sender_id = "alice";
  receiver_id = receiver;
  amount = pos 30;
  currency = "USD";
  nonce = "n-1";
  expiry = 500;
  device_id = "dev-1";
  token_id = "tok-1";
}

-- A platform whose ciphertexts name the payload, and whose signatures are the key.
abbrev pub lab_of : (String → PaymentIntentPayload) → Platform
lab_of payload = record {
  decrypt = λ env. some env.ciphertext;
  unmarshal = λ text. some (record { payload = payload text; device_signature = "k" });
  marshal = λ fields. "json";
  parse_public_key = λ text. some text;
  verify = λ key text signature. ite (str_dec key signature) true false;
  bank_public_key = "bank";
  format_int = λ z. "int";
  redis = record { velocity = some 1; is_drifting = false };
  recovery = record {
    policy = default_policy;
    classifier =
        λ e. record { category = FailureCategory.unknown; confidence = pos 0; origin = "RULE" };
    marshal = λ s d c. "decision";
  };
}

abbrev pub lab : Platform
lab = lab_of payload_to

-- Payments to bob that differ in transaction, nonce and token.
abbrev pub series : String → PaymentIntentPayload
series id = record (payload_to "bob") { txn_id = id; nonce = id; token_id = id }

abbrev pub account : String → ℤ → ℤ → AccountBalance
account id available reserved = record {
  account_id = id;
  available_balance = available;
  reserved_balance = reserved;
  updated_at = 0;
}

abbrev pub token_of : String → OfflineToken
token_of id = record {
  token_id = id;
  owner_id = "alice";
  value = pos 50;
  expiry = 500;
  consumed = false;
  consumed_at = none;
  token_signature = "bank";
  reserved_at = 1;
  released_at = none;
  risk_score_at_issue = 100;
  status = TokenStatus.issued;
}

-- The intent of the token's reservation, which IssueToken adds.
abbrev pub reservation : String → PaymentIntent
reservation id = record {
  txn_id = reservation_txn id;
  sender_id = "alice";
  receiver_id = "BANK";
  amount = pos 50;
  currency = "USD";
  nonce = str_append "nonce-tok-res-" id;
  expiry = 500;
  status = PaymentState.reserved;
  device_id = "dev-1";
  token_id = id;
  failure_reason = none;
  settled_at = none;
  rejected_at = none;
  relay_hops = pos 0;
  signature_hash = "";
  created_at = 1;
  updated_at = 1;
}

abbrev pub tables : Store
tables = record empty_store {
  devices =
      record {
        device_id = "dev-1";
        owner_id = "alice";
        public_key = "k";
        trust_score = pos 1000;
        status = DeviceStatus.active;
        created_at = 0;
        revoked_at = none;
      }
      ∷ [];
  tokens = token_of "tok-1" ∷ token_of "tok-2" ∷ [];
  intents = reservation "tok-1" ∷ reservation "tok-2" ∷ [];
  balances = account "alice" (pos 50) (pos 100) ∷ account "bob" (pos 7) (pos 0) ∷ [];
  next_outbox_id = 0;
  next_dead_letter_id = 0;
}

abbrev pub start : World
start = record {
  store = tables;
  now = 100;
  aborted = false;
  outages = [];
  postgres_offline = false;
}

abbrev pub envelope : String → EncryptedEnvelope
envelope receiver = record {
  ephemeral_public_key = "";
  ciphertext = receiver;
  nonce = "n-1";
  auth_tag = "";
  txn_id = "txn-1";
  iv = "";
}

abbrev pub ids : FreshIds
ids = record { saga_id = "saga-1"; failure_id = "f-1"; recovery_id = "r-1" }

abbrev pub run_to : String → Result Outcome × World
run_to receiver = settle lab ids (envelope receiver) (pos 2) start

abbrev pub after_bob : World
after_bob = (run_to "bob").1

abbrev pub settled : Outcome
settled = record { status = PaymentState.settled; error = none }
