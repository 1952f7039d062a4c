-- ===== src/Settlement/Envelope.antt =====
-- `CreateSignedAndEncryptedEnvelope` of internal/intent/service.go, and that `Settle` opens what it
-- makes. The ids, the time and the device's cryptography are parameters.
use offline_pay.Prelude.{ℕ, ◌+◌, String, ◌≡◌, refl, true, some, arith, subst, sym}
use offline_pay.Prelude.Int.{ℤ}
use offline_pay.Domain.{Time, EncryptedEnvelope, PaymentIntentPayload}
use offline_pay.Database.{Error, Result, ok, err}
use offline_pay.Settlement.Platform.{Platform, SignedPaymentIntent, canonical_intent}
use offline_pay.Settlement.Service.{
  FreshIds, open_envelope, decode_bytes, decode_payload, check_attestation,
}

-- What `EncryptECIES` returns.
pub record Sealed : Type 0 where
  pub ephemeral_public_key : String
  pub ciphertext : String
  pub iv : String
  pub auth_tag : String

-- `crypto.Sign` with the device's key, `json.Marshal`, `crypto.EncryptECIES` with the bank's key,
-- and `%d`.
pub record Handset : Type 0 where
  pub sign : String → Result String
  pub marshal : SignedPaymentIntent → Result String
  pub encrypt : String → Result Sealed
  pub format_int : ℤ → String

unfoldable pub envelope_of : PaymentIntentPayload → Sealed → EncryptedEnvelope
envelope_of p s = record {
  ephemeral_public_key = s.ephemeral_public_key;
  ciphertext = s.ciphertext;
  nonce = p.nonce;
  auth_tag = s.auth_tag;
  txn_id = p.txn_id;
  iv = s.iv;
}

-- `if err != nil { return nil, nil, fmt.Errorf(s + ": %w", err) }`
abbrev pub and_then {ℓ κ} :
    {A : Type ℓ} {B : Type κ} → String → Result A → (A → Result B) → Result B
and_then s (ok a) f = f a
and_then s (err e) f = err (Error.wrap s e)

-- The function from the payload on.
unfoldable pub seal_payload :
    Handset → PaymentIntentPayload → Result (EncryptedEnvelope × PaymentIntentPayload)
unfolding envelope_of
seal_payload handset p =
    and_then "failed to sign payment intent payload"
      (handset.sign (canonical_intent handset.format_int p))
      λ signature.
        and_then "failed to marshal signed intent"
          (handset.marshal (record { payload = p; device_signature = signature }))
          λ text.
            and_then "failed to encrypt envelope payload" (handset.encrypt text)
              λ s. ok (envelope_of p s, p)

-- `CreateSignedAndEncryptedEnvelope`
unfoldable pub create_signed_and_encrypted_envelope :
    Handset
    → String
    → String
    → String
    → String
    → ℤ
    → String
    → String
    → String
    → Time
    → ℕ
    → Result (EncryptedEnvelope × PaymentIntentPayload)
unfolding seal_payload
create_signed_and_encrypted_envelope handset txn_id nonce sender_id receiver_id amount currency
      device_id token_id now duration =
    seal_payload handset (record {
      txn_id = txn_id;
      sender_id = sender_id;
      receiver_id = receiver_id;
      amount = amount;
      currency = currency;
      nonce = nonce;
      expiry = now + duration;
      device_id = device_id;
      token_id = token_id;
    })

and_then-ok :
    {A B : Type 0} (s : String) (r : Result A) (f : A → Result B) (b : B)
    → and_then s r f ≡ ok b
    → (a : A) × (r ≡ ok a) × (f a ≡ ok b)
and_then-ok s (ok a) f b h = (a, refl, h)
and_then-ok s (err e) f b h = absurd (cc)

-- The bank can read and check what the device writes of this payload.
pub record Understands (platform : Platform) (handset : Handset) (key : String)
    (p : PaymentIntentPayload) : Type 0 where
  pub decrypts :
      (text : String) (s : Sealed)
      → handset.encrypt text ≡ ok s
      → platform.decrypt (envelope_of p s) ≡ some text
  pub unmarshals :
      (signature text : String)
      → handset.marshal (record { payload = p; device_signature = signature }) ≡ ok text
      → platform.unmarshal text ≡ some (record { payload = p; device_signature = signature })
  pub verifies :
      (text signature : String)
      → handset.sign text ≡ ok signature
      → platform.verify key text signature ≡ true
  pub same_format : handset.format_int ≡ platform.format_int

sealed_payload :
    (handset : Handset) (p q : PaymentIntentPayload) (env : EncryptedEnvelope)
    → seal_payload handset p ≡ ok (env, q)
    → q ≡ p
unfolding seal_payload
sealed_payload handset p q env h =
    let (signature, _, h1) =
      and_then-ok "failed to sign payment intent payload"
        (handset.sign (canonical_intent handset.format_int p)) _ (env, q) h in
    let (text, _, h2) =
      and_then-ok "failed to marshal signed intent"
        (handset.marshal (record { payload = p; device_signature = signature })) _ (env, q) h1 in
    let (s, _, h3) =
      and_then-ok "failed to encrypt envelope payload" (handset.encrypt text) _ (env, q) h2 in
    ground arith

module _ (platform : Platform) (handset : Handset) (key : String) (fresh : FreshIds)
    (hop_count : ℤ) where
  -- How `Settle` goes on with an envelope of this payload.
  abbrev pub Opens : PaymentIntentPayload → EncryptedEnvelope → Type 0
  Opens p env =
      (signature : String) × (open_envelope platform fresh env hop_count
        ≡ check_attestation platform fresh env hop_count
            (record { payload = p; device_signature = signature }))
      × (platform.verify key (canonical_intent platform.format_int p) signature ≡ true)
      × (env.txn_id ≡ p.txn_id)
      × (env.nonce ≡ p.nonce)

  opened :
      (p q : PaymentIntentPayload) (env : EncryptedEnvelope)
      → Understands platform handset key p
      → seal_payload handset p ≡ ok (env, q)
      → Opens p env
  unfolding seal_payload envelope_of open_envelope decode_bytes decode_payload
  opened p q env understands h =
      let (signature, signed, h1) =
        and_then-ok "failed to sign payment intent payload"
          (handset.sign (canonical_intent handset.format_int p)) _ (env, q) h in
      let whole : SignedPaymentIntent = record { payload = p; device_signature = signature } in
      let (text, written, h2) =
        and_then-ok "failed to marshal signed intent" (handset.marshal whole) _ (env, q) h1 in
      let (s, sealed, h3) =
        and_then-ok "failed to encrypt envelope payload" (handset.encrypt text) _ (env, q) h2 in
      let read = understands.decrypts text s sealed in
      let decoded = understands.unmarshals signature text written in
      let checked = understands.verifies (canonical_intent handset.format_int p) signature signed in
      let verified : platform.verify key (canonical_intent platform.format_int p) signature ≡ true =
        subst (λ f. platform.verify key (canonical_intent f p) signature ≡ true)
          understands.same_format checked in
      let same : envelope_of p s ≡ env = ground arith in
      subst (Opens p) same (signature, rw (read, decoded) refl, verified, refl, refl)

  -- If the bank decrypts, decodes and verifies what the device encrypts, encodes and
  -- signs of the payment, then `Settle` opens an envelope that `CreateSignedAndEncryptedEnvelope` has made to the
  -- payment that was asked for: it goes on to the device's checks with this payload and a signature
  -- that verifies, and the ids outside of the ciphertext are the payload's.
  pub create-Opens :
      (txn_id nonce sender_id receiver_id : String) (amount : ℤ)
      (currency device_id token_id : String) (now : Time) (duration : ℕ) (env : EncryptedEnvelope)
      (p : PaymentIntentPayload)
      → create_signed_and_encrypted_envelope handset txn_id nonce sender_id receiver_id amount
          currency device_id token_id now duration
        ≡ ok (env, p)
      → Understands platform handset key p
      → (p ≡ record {
        txn_id = txn_id;
        sender_id = sender_id;
        receiver_id = receiver_id;
        amount = amount;
        currency = currency;
        nonce = nonce;
        expiry = now + duration;
        device_id = device_id;
        token_id = token_id;
      })
        × Opens p env
  unfolding create_signed_and_encrypted_envelope
  create-Opens txn_id nonce sender_id receiver_id amount currency device_id token_id now duration
        env p h understands =
      let same = sealed_payload handset _ p env h in
      let opens = opened _ p env (subst (Understands platform handset key) same understands) h in
      (same, subst (λ x. Opens x env) (sym same) opens)
