-- ===== src/Settlement/Checks.antt =====
-- What the checks of `Settle` (internal/settlement/service.go) have to establish.
use offline_pay.Risk.{assess}
use offline_pay.Prelude.{String, ◌≡◌, ◌≢◌, ◌⊎◌, Option, none, true, false, some, ltb}
use offline_pay.Prelude.Int.{pos, ℤ, ltb_ℤ}
use offline_pay.Domain.{
  Time, Device, DeviceStatus, DeviceAttestation, PaymentState, PaymentIntent, OfflineToken,
  PaymentIntentPayload, EncryptedEnvelope,
}
use offline_pay.Database.{
  World, find, device_key, token_key, intent_key, attestation_key, next_outage,
}
use offline_pay.Settlement.Platform.{
  Platform, SignedPaymentIntent, canonical_intent, canonical_token,
}
use offline_pay.Settlement.Steps.{Payment}
use offline_pay.Settlement.Service.{is_reject}

-- The token that a payment spends: signed by the bank, the sender's own, current, not spent, of
-- at least the amount, and the risk engine has not rejected the payment.
pub record TokenChecks (platform : Platform) (hop_count : ℤ) (now : Time) (device : Device)
    (p : PaymentIntentPayload) (token : OfflineToken) : Type 0 where
  pub bank_signed :
      platform.verify platform.bank_public_key
        (canonical_token platform.format_int token.token_id token.owner_id token.value token.expiry)
        token.token_signature
      ≡ true
  pub owned : token.owner_id ≡ p.sender_id
  pub current_token : ltb token.expiry now ≡ false
  pub unspent : token.consumed ≡ false
  pub covers : ltb_ℤ token.value p.amount ≡ false
  pub not_rejected :
      is_reject (assess platform.redis (some device) p hop_count (pos 0) false).action ≡ false

-- The transaction has no outcome yet.
abbrev pub IsOpen : Option PaymentIntent → Type 0
IsOpen none = Unit {0}
IsOpen (some i) =
    (i.status ≢ PaymentState.settled)
    × (i.status ≢ PaymentState.rejected)
    × (i.status ≢ PaymentState.failed)
    × (i.status ≢ PaymentState.duplicate)

-- The device has no attestation, or one that is not UNTRUSTED.
abbrev pub IsTrusted : Option DeviceAttestation → Type 0
IsTrusted none = Unit {0}
IsTrusted (some a) = a.trust_level ≢ "UNTRUSTED"

-- The payment that an envelope holds, with all that was checked of it.
pub record Authorized (platform : Platform) (env : EncryptedEnvelope) (hop_count : ℤ) (w : World)
    : Type 0 where
  pub bytes : String
  pub signed : SignedPaymentIntent
  pub device : Device
  pub key : String
  pub token : OfflineToken
  pub decrypted : platform.decrypt env ≡ some bytes
  pub decoded : platform.unmarshal bytes ≡ some signed
  pub found_device : find device_key signed.payload.device_id w.store.devices ≡ some device
  pub not_revoked : device.status ≢ DeviceStatus.revoked
  pub not_compromised : device.status ≢ DeviceStatus.compromised
  pub has_key : platform.parse_public_key device.public_key ≡ some key
  pub device_signed :
      platform.verify key
        (canonical_intent platform.format_int signed.payload)
        signed.device_signature
      ≡ true
  pub current : ltb signed.payload.expiry w.now ≡ false
  pub found_token : find token_key signed.payload.token_id w.store.tokens ≡ some token
  pub names_token : signed.payload.token_id ≢ ""
  pub token_checks : TokenChecks platform hop_count w.now device signed.payload token
  pub new_txn : IsOpen (find intent_key env.txn_id w.store.intents) ⊎ ((next_outage w).0 ≡ true)
  pub attested :
      IsTrusted (find attestation_key signed.payload.device_id w.store.attestations)
      ⊎ ((next_outage (next_outage w).1).0 ≡ true)

abbrev pub payment_of :
    {platform : Platform} {env : EncryptedEnvelope} {hop_count : ℤ} {w : World}
    → Authorized platform env hop_count w
    → Payment
payment_of {platform} {env} {hop_count} a = record {
  platform = platform;
  p = a.signed.payload;
  env = env;
  token = a.token;
  hop_count = hop_count;
}
