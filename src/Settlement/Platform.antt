-- ===== src/Settlement/Platform.antt =====
-- What a settlement takes from other packages: cryptography, JSON, number formatting, the
-- risk engine's view of Redis and the recovery manager's configuration. `canonical_intent` is
-- `GetCanonicalPayloadString` of internal/intent/service.go.
use offline_pay.Prelude.{◌/◌, String, str_append, Option, Bool, List, [], ◌∷◌}
use offline_pay.Prelude.Int.{ℤ, sub_ℕ}
use offline_pay.Domain.{Time, PaymentIntentPayload, EncryptedEnvelope}
use offline_pay.Recovery.{Manager}
use offline_pay.Risk.{RedisView}

pub record SignedPaymentIntent : Type 0 where
  pub payload : PaymentIntentPayload
  pub device_signature : String

-- A value of a JSON object that the service writes.
pub data Json : Type 0 where
  text : String → Json
  int : ℤ → Json
  time : Time → Json
  payload : PaymentIntentPayload → Json

pub record Field : Type 0 where
  pub name : String
  pub value : Json

pub record Platform : Type 0 where
  -- `crypto.DecryptECIES` with the bank's private key
  pub decrypt : EncryptedEnvelope → Option String
  -- `json.Unmarshal` into a `SignedPaymentIntent`
  pub unmarshal : String → Option SignedPaymentIntent
  -- `json.Marshal` of a map
  pub marshal : List Field → String
  -- `crypto.ParsePEMToPublicKey`: the key that a PEM text holds
  pub parse_public_key : String → Option String
  -- `crypto.Verify`: key, message, signature
  pub verify : String → String → String → Bool
  pub bank_public_key : String
  -- `%d` of `fmt.Sprintf`
  pub format_int : ℤ → String
  -- What Redis answers to the risk engine
  pub redis : RedisView
  pub recovery : Manager

-- `Time.Unix`: Go's zero time is 62135596800 seconds before 1970.
abbrev pub unix : Time → ℤ
unix t = sub_ℕ (t / 1000000000) 62135596800

-- A text made of pieces, as `fmt.Sprintf` makes it.
abbrev pub concat : List String → String
concat [] = ""
concat (s ∷ rest) = str_append s (concat rest)

-- `GetCanonicalPayloadString` of internal/intent/service.go
unfoldable pub canonical_intent : (ℤ → String) → PaymentIntentPayload → String
canonical_intent format_int p = concat (
    "txn:"
    ∷ p.txn_id
    ∷ ":sender:"
    ∷ p.sender_id
    ∷ ":rec:"
    ∷ p.receiver_id
    ∷ ":amt:"
    ∷ format_int p.amount
    ∷ ":cur:"
    ∷ p.currency
    ∷ ":nonce:"
    ∷ p.nonce
    ∷ ":exp:"
    ∷ format_int (unix p.expiry)
    ∷ ":dev:"
    ∷ p.device_id
    ∷ ":tok:"
    ∷ p.token_id
    ∷ [])

-- The text of a token that the bank signs.
unfoldable pub canonical_token : (ℤ → String) → String → String → ℤ → Time → String
canonical_token format_int token_id owner_id value expiry = concat (
    "token:"
    ∷ token_id
    ∷ ":owner:"
    ∷ owner_id
    ∷ ":value:"
    ∷ format_int value
    ∷ ":expiry:"
    ∷ format_int (unix expiry)
    ∷ [])
