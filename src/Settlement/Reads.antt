-- ===== src/Settlement/Reads.antt =====
-- What the two reads at the start of `Settle` establish, when they do not fail by an outage.
use offline_pay.Prelude.{
  ◌≡◌, refl, ap, ◌∙◌, true, false, Option, none, some, arith, ◌⊎◌, inl, inr, Bool-cases,
  Option-cases,
}
use offline_pay.Domain.{PaymentIntent, DeviceAttestation, EncryptedEnvelope}
use offline_pay.Database.{
  World, Store, ok, find, attestation_key, intent_key, query_row, direct, query, stmt, next_outage,
  or_no_rows,
}
use offline_pay.Settlement.Platform.{SignedPaymentIntent}
use offline_pay.Settlement.Service.{already_processed, is_untrusted}
use offline_pay.Settlement.Checks.{IsOpen, IsTrusted}

next_outage-store : (w : World) → (next_outage w).1.store ≡ w.store
next_outage-store w = ground arith

-- A read outside a transaction: it fails by an outage, or finds what the tables hold.
pub query_row-read :
    {A : Type 0} (f : Store → Option A) (w : World)
    → ((query_row direct f w).1 ≡ (next_outage w).1)
      × (((next_outage w).0 ≡ true) ⊎ ((query_row direct f w).0 ≡ (or_no_rows (f w.store) w).0))
unfolding query_row query stmt
query_row-read f w = elim (Bool-cases (next_outage w).0) [
  | inl down ↦ rw down (refl, inl refl)
  | inr up ↦ elim (Option-cases (f w.store)) [
    | inl n ↦ rw (up, ap f (next_outage-store w) ∙ n, n) (refl, inr refl)
    | inr (a, found) ↦ rw (up, ap f (next_outage-store w) ∙ found, found) (refl, inr refl)
  ]
]

pub query-read :
    {A : Type 0} (f : Store → A) (w : World)
    → ((next_outage w).0 ≡ true) ⊎ ((query direct f w).0 ≡ ok (f w.store))
unfolding query stmt
query-read f w = elim (Bool-cases (next_outage w).0) [
  | inl down ↦ inl down
  | inr up ↦ rw (up, next_outage-store w) (inr refl)
]

pub already_processed-false :
    (o : Option PaymentIntent) (w : World) → already_processed (or_no_rows o w).0 ≡ false → IsOpen o
already_processed-false none w h = tt
already_processed-false (some i) w h =
    (λ e. ground arith, λ e. ground arith, λ e. ground arith, λ e. ground arith)

pub is_untrusted-false : (o : Option DeviceAttestation) → is_untrusted (ok o) ≡ false → IsTrusted o
is_untrusted-false none h = tt
is_untrusted-false (some a) h = λ e. ground arith

-- What has been checked before the lookup of the device.
abbrev pub Cleared : EncryptedEnvelope → World → SignedPaymentIntent → Type 0
Cleared env w signed =
    (IsOpen (find intent_key env.txn_id w.store.intents) ⊎ ((next_outage w).0 ≡ true))
    × (IsTrusted (find attestation_key signed.payload.device_id w.store.attestations)
        ⊎ ((next_outage (next_outage w).1).0 ≡ true))
