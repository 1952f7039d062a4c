-- ===== src/Settlement/Outcome.antt =====
-- What the checks of `Settle` have established when it returns no error.
use offline_pay.Prelude.{
  String, ◌≡◌, ◌≢◌, ◌⊎◌, refl, sym, subst, ◌∙◌, true, false, Option, none, some, List, arith,
  Bool-cases, Option-cases, inl, inr, ltb,
}
use offline_pay.Prelude.Int.{ℤ}
use offline_pay.Domain.{
  PaymentState, Device, DeviceStatus, OfflineToken, PaymentIntentPayload, EncryptedEnvelope,
}
use offline_pay.Database.{
  World, Store, Error, Result, ok, err, ⊤, ◌>>=◌, pure, attempt, find, device_key, token_key,
  query_row, direct, query, attestation_key, intent_key, next_outage,
}
use offline_pay.Database.Laws.{continue-elim, query_row-ok, query_row-store, query-store}
use offline_pay.Repository.{get_payment_intent, get_device_attestation, get_device, get_token}
use offline_pay.Saga.{execute, SagaStep}
use offline_pay.Saga.Laws.{RanAll, RanAll-shift, execute-ok}
use offline_pay.Settlement.Platform.{Platform, SignedPaymentIntent, canonical_intent}
use offline_pay.Settlement.Steps.{saga_steps}
use offline_pay.Settlement.Service.{
  Outcome, FreshIds, refuse, reject_payment, save_failed_intent, after_saga, run_saga, check_token,
  look_up_token, check_signature, check_device, check_attestation, open_envelope, decode_bytes,
  decode_payload, settle, already_processed, is_untrusted, is_withdrawn, differs, judge,
  record_recovery,
}
use offline_pay.Settlement.Checks.{Authorized, TokenChecks, payment_of, IsOpen, IsTrusted}
use offline_pay.Settlement.Reads.{
  query_row-read, query-read, already_processed-false, is_untrusted-false, Cleared,
}

differs-false : (a b : String) → differs a b ≡ false → a ≡ b
differs-false a b h = ground arith

withdrawn-false :
    (s : DeviceStatus)
    → is_withdrawn s ≡ false
    → (s ≢ DeviceStatus.revoked) × (s ≢ DeviceStatus.compromised)
withdrawn-false s h = (λ e. ground arith, λ e. ground arith)

differs-true : (a b : String) → differs a b ≡ true → a ≢ b
differs-true a b h e = ground arith

module _ (platform : Platform) (fresh : FreshIds) (env : EncryptedEnvelope) (hop_count : ℤ) where
  -- A refusal returns an error, whatever becomes of the record of the failed payment.
  refuse-error :
      (status : PaymentState) (reason : String) (e : Error) (w w' : World) (o : Outcome)
      → o.error ≡ none
      → ¬ (refuse platform fresh env hop_count status reason e w ≡ (ok o, w'))
  unfolding refuse
  refuse-error status reason e w w' o n h =
      continue-elim {x = save_failed_intent platform env status reason hop_count w} h
        (λ u w1 q h1. ground arith)

  reject-error :
      (reason text : String) (w w' : World) (o : Outcome)
      → o.error ≡ none
      → ¬ (reject_payment platform fresh env hop_count reason text w ≡ (ok o, w'))
  unfolding reject_payment
  reject-error reason text w w' o n h =
      refuse-error PaymentState.rejected reason (Error.message text) w w' o n h

  after_saga-ok :
      (r : Result ⊤) (w w' : World) (o : Outcome)
      → after_saga platform fresh env hop_count r w ≡ (ok o, w')
      → o.error ≡ none
      → (r ≡ ok tt) × (w' ≡ w) × (o.status ≡ PaymentState.settled)
  unfolding after_saga
  after_saga-ok (ok u) w w' o h n = (refl, ground arith, ground arith)
  after_saga-ok (err e) w w' o h n = absurd (
      continue-elim
        {x = save_failed_intent platform env (judge e).status (judge e).reason hop_count w} h
        (λ u w1 q h1.
          continue-elim
            {x = record_recovery platform fresh env hop_count (judge e)
              (get_payment_intent env.txn_id w1).0 (get_payment_intent env.txn_id w1).1}
            {f = λ _. pure (record { status = (judge e).status; error = some (judge e).error })} h1
            (λ v w3 q3 h3. ground arith)))

  run_saga-ok :
      (p : PaymentIntentPayload) (token : OfflineToken) (w w' : World) (o : Outcome)
      → run_saga platform fresh env hop_count p token w ≡ (ok o, w')
      → o.error ≡ none
      → (o.status ≡ PaymentState.settled)
        × RanAll
            (saga_steps (record {
              platform = platform;
              p = p;
              env = env;
              token = token;
              hop_count = hop_count;
            }))
            w
            w'
  unfolding run_saga
  run_saga-ok p token w w' o h n =
      let steps =
        saga_steps (record {
          platform = platform;
          p = p;
          env = env;
          token = token;
          hop_count = hop_count;
        }) in
      continue-elim {x = attempt (execute fresh.saga_id p.txn_id steps) w} h (λ r w1 q h1.
        let (e, e', s) = after_saga-ok r w1 w' o h1 n in
        (s, execute-ok fresh.saga_id p.txn_id steps w w' (ground arith)))

  check_token-ok :
      (device : Device) (p : PaymentIntentPayload) (token : OfflineToken) (w w' : World)
      (o : Outcome)
      → check_token platform fresh env hop_count device p token w ≡ (ok o, w')
      → o.error ≡ none
      → TokenChecks platform hop_count w.now device p token
        × (run_saga platform fresh env hop_count p token w ≡ (ok o, w'))
  unfolding check_token
  check_token-ok device p token w w' o h n =
      let no_reject = λ (reason text : String). reject-error reason text w w' o n in
      let no_refusal =
        refuse-error PaymentState.duplicate "token_already_consumed"
          (Error.message "spending token already consumed") w w' o n in
      (
        record {
          bank_signed = ground (arith, no_reject);
          owned = ground (arith, no_reject);
          current_token = ground (arith, no_reject);
          unspent = ground (arith, no_reject, no_refusal);
          covers = ground (arith, no_reject, no_refusal);
          not_rejected = ground (arith, no_reject, no_refusal);
        },
        ground (arith, no_reject, no_refusal),
      )

  abbrev the_steps : PaymentIntentPayload → OfflineToken → List SagaStep
  the_steps p token =
      saga_steps
        (record { platform = platform; p = p; env = env; token = token; hop_count = hop_count })

  look_up_token-ok :
      (device : Device) (p : PaymentIntentPayload) (r : Result OfflineToken) (w w' : World)
      (o : Outcome)
      → look_up_token platform fresh env hop_count device p r w ≡ (ok o, w')
      → o.error ≡ none
      → (token : OfflineToken) × (r ≡ ok token)
        × TokenChecks platform hop_count w.now device p token
        × (o.status ≡ PaymentState.settled)
        × RanAll (the_steps p token) w w'
  unfolding look_up_token
  look_up_token-ok device p (err e) w w' o h n = absurd (refuse-error _ _ _ w w' o n h)
  look_up_token-ok device p (ok token) w w' o h n =
      let (c, k) = check_token-ok device p token w w' o h n in
      let (settled, ran) = run_saga-ok p token w w' o k n in (token, refl, c, settled, ran)

  check_signature-ok :
      (device : Device) (signed : SignedPaymentIntent) (key? : Option String) (w w' : World)
      (o : Outcome)
      → check_signature platform fresh env hop_count device signed key? w ≡ (ok o, w')
      → o.error ≡ none
      → (key : String) × (token : OfflineToken) × (key? ≡ some key)
        × (platform.verify key
              (canonical_intent platform.format_int signed.payload)
              signed.device_signature
            ≡ true)
        × (ltb signed.payload.expiry w.now ≡ false)
        × (find token_key signed.payload.token_id w.store.tokens ≡ some token)
        × (signed.payload.token_id ≢ "")
        × TokenChecks platform hop_count w.now device signed.payload token
        × (o.status ≡ PaymentState.settled)
        × RanAll (the_steps signed.payload token) w w'
  unfolding check_signature get_token
  check_signature-ok device signed none w w' o h n = absurd (reject-error _ _ w w' o n h)
  check_signature-ok device signed (some key) w w' o h n =
      let signed_text = canonical_intent platform.format_int signed.payload in
      let read = λ (s : Store). find token_key signed.payload.token_id s.tokens in
      let x = query_row direct read w in
      let (s, m) = query_row-store direct read w in
      elim (Bool-cases (platform.verify key signed_text signed.device_signature)) [
        | inr e ↦ absurd (reject-error _ _ w w' o n (rw e at h))
        | inl e ↦
            let h1 = rw e at h in
            elim (Bool-cases (ltb signed.payload.expiry w.now)) [
              | inl late ↦ absurd (refuse-error _ _ _ w w' o n (rw late at h1))
              | inr current ↦
                  let h2 = rw current at h1 in
                  elim (Bool-cases (differs signed.payload.token_id "")) [
                    | inr missing ↦ absurd (reject-error _ _ w w' o n (rw missing at h2))
                    | inl given ↦
                        let h3 = rw given at h2 in
                        let (token, q, c, k, ran) =
                          look_up_token-ok device signed.payload x.0 x.1 w' o h3 n in
                        let (found, _, _) = query_row-ok direct read w x.1 token (ground arith) in
                        (
                          key,
                          token,
                          refl,
                          e,
                          current,
                          found,
                          differs-true signed.payload.token_id "" given,
                          subst (λ t. TokenChecks platform hop_count t device signed.payload token)
                              m c,
                          k,
                          RanAll-shift (the_steps signed.payload token) x.1 w w' (sym s) (sym m)
                              ran,
                        )
                  ]
            ]
      ]

  -- The rest of the checks, from the world `w` in which the settlement starts.
  check_device-ok :
      (bytes : String) (signed : SignedPaymentIntent) (w w' : World) (o : Outcome)
      → platform.decrypt env ≡ some bytes
      → platform.unmarshal bytes ≡ some signed
      → (v : World) → v.store ≡ w.store
      → v.now ≡ w.now
      → Cleared env w signed
      → (attempt (get_device signed.payload.device_id)
            >>= check_device platform fresh env hop_count signed)
          v
        ≡ (ok o, w')
      → o.error ≡ none
      → (o.status ≡ PaymentState.settled)
        × (a : Authorized platform env hop_count w) × RanAll (saga_steps (payment_of a)) w w'
  unfolding get_device check_device
  check_device-ok bytes signed w w' o decrypted decoded v se ne cleared h n =
      let read = λ (s : Store). find device_key signed.payload.device_id s.devices in
      let (s, m) = query_row-store direct read v in
      read_device (query_row direct read v).0 (query_row direct read v).1 refl h
    where
      read_device :
          (r : Result Device) (v' : World)
          → query_row direct (λ s. find device_key signed.payload.device_id s.devices) v ≡ (r, v')
          → check_device platform fresh env hop_count signed r v' ≡ (ok o, w')
          → (o.status ≡ PaymentState.settled)
            × (a : Authorized platform env hop_count w) × RanAll (saga_steps (payment_of a)) w w'
      read_device (err e) v' q h' = absurd (refuse-error _ _ _ v' w' o n h')
      read_device (ok device) v' q h' =
          let (found, s, m) = query_row-ok direct _ v v' device q in
          elim (Bool-cases (is_withdrawn device.status)) [
            | inl gone ↦ absurd (reject-error _ _ v' w' o n (rw gone at h'))
            | inr here ↦
                let (
                  key, token, has_key, verified, current, found_token, named, checks, settled, ran,
                ) =
                  check_signature-ok device signed (platform.parse_public_key device.public_key) v'
                    w' o (rw here at h') n in
                (
                  settled,
                  record {
                    bytes = bytes;
                    signed = signed;
                    device = device;
                    key = key;
                    token = token;
                    decrypted = decrypted;
                    decoded = decoded;
                    found_device = ground arith;
                    not_revoked = (withdrawn-false device.status here).0;
                    not_compromised = (withdrawn-false device.status here).1;
                    names_token = named;
                    new_txn = cleared.0;
                    attested = cleared.1;
                    has_key = has_key;
                    device_signed = verified;
                    current = ground arith;
                    found_token = ground arith;
                    token_checks =
                        subst (λ t. TokenChecks platform hop_count t device signed.payload token)
                          (m ∙ ne) checks;
                  },
                  RanAll-shift (the_steps signed.payload token) v' w w' (sym (s ∙ se))
                      (sym (m ∙ ne)) ran,
                )
          ]

  check_attestation-ok :
      (bytes : String) (signed : SignedPaymentIntent) (w w' : World) (o : Outcome)
      → platform.decrypt env ≡ some bytes
      → platform.unmarshal bytes ≡ some signed
      → (v : World) → v.store ≡ w.store
      → v.now ≡ w.now
      → v ≡ (next_outage w).1
      → IsOpen (find intent_key env.txn_id w.store.intents) ⊎ ((next_outage w).0 ≡ true)
      → check_attestation platform fresh env hop_count signed v ≡ (ok o, w')
      → o.error ≡ none
      → (o.status ≡ PaymentState.settled)
        × (a : Authorized platform env hop_count w) × RanAll (saga_steps (payment_of a)) w w'
  unfolding check_attestation get_device_attestation
  check_attestation-ok bytes signed w w' o decrypted decoded v se ne at unset h n =
      let read = λ (s : Store). find attestation_key signed.payload.device_id s.attestations in
      let x = query direct read v in
      let (s, m) = query-store direct read v in
      elim (Bool-cases (is_untrusted x.0)) [
        | inl e ↦ absurd (reject-error _ _ x.1 w' o n (rw e at h))
        | inr e ↦
            let trusted : IsTrusted
                  (find attestation_key signed.payload.device_id w.store.attestations)
                ⊎ ((next_outage (next_outage w).1).0 ≡ true) =
              elim (query-read read v) [
                | inl down ↦ inr (subst (λ x. (next_outage x).0 ≡ true) at down)
                | inr found ↦ inl (
                    subst
                      (λ (s : Store).
                        IsTrusted (find attestation_key signed.payload.device_id s.attestations))
                      se (is_untrusted-false (read v.store) (rw (← found) e)))
              ] in
            check_device-ok bytes signed w w' o decrypted decoded x.1 (s ∙ se) (m ∙ ne)
              (unset, trusted) (rw e at h) n
      ]

  open_envelope-ok :
      (w w' : World) (o : Outcome) (v : World)
      → v.store ≡ w.store
      → v.now ≡ w.now
      → v ≡ (next_outage w).1
      → IsOpen (find intent_key env.txn_id w.store.intents) ⊎ ((next_outage w).0 ≡ true)
      → open_envelope platform fresh env hop_count v ≡ (ok o, w')
      → o.error ≡ none
      → (o.status ≡ PaymentState.settled)
        × (a : Authorized platform env hop_count w) × RanAll (saga_steps (payment_of a)) w w'
  unfolding open_envelope decode_bytes decode_payload
  open_envelope-ok w w' o v se ne at unset h n = elim (Option-cases (platform.decrypt env)) [
    | inl e ↦ absurd (reject-error _ _ v w' o n (rw e at h))
    | inr (bytes, decrypted) ↦
        let h1 = rw decrypted at h in
        elim (Option-cases (platform.unmarshal bytes)) [
          | inl e ↦ absurd (reject-error _ _ v w' o n (rw e at h1))
          | inr (signed, decoded) ↦
              check_attestation-ok bytes signed w w' o decrypted decoded v se ne at unset
                (rw decoded at h1) n
        ]
  ]

  -- Whoever settles without an error has passed every check and run every step.
  pub settle-ok :
      (w w' : World) (o : Outcome)
      → settle platform fresh env hop_count w ≡ (ok o, w')
      → o.error ≡ none
      → (o.status ≡ PaymentState.settled)
        × (a : Authorized platform env hop_count w) × RanAll (saga_steps (payment_of a)) w w'
  unfolding settle get_payment_intent
  settle-ok w w' o h n =
      let read = λ (s : Store). find intent_key env.txn_id s.intents in
      let x = query_row direct read w in
      let (s, m) = query_row-store direct read w in
      elim (Bool-cases (already_processed x.0)) [
        | inl e ↦ let h1 = rw e at h in absurd (ground arith)
        | inr e ↦
            let (next, r) = query_row-read read w in
            let unset : IsOpen (read w.store) ⊎ ((next_outage w).0 ≡ true) = elim r [
              | inl down ↦ inr down
              | inr found ↦ inl (already_processed-false (read w.store) w (rw (← found) e))
            ] in
            open_envelope-ok w w' o x.1 s m next unset (rw e at h) n
      ]
