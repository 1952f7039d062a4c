-- ===== src/Repository/Projections.antt =====
-- The read model's and the relay's methods of internal/repository/repository.go.
use offline_pay.Prelude.{
  String, Bool, true, false, none, some, List, ◌∷◌, if◌then◌else◌, ite, str_dec,
}
use offline_pay.Prelude.Int.{ℤ, pos}
use offline_pay.Domain.{PaymentReadProjection, RelayAttempt, DeviceAttestation}
use offline_pay.Database.{
  Error, ok, ⊤, Db, Conn, direct, exec, query, query_row, find, exists, update, where_rows,
  update_rows, first_row, require, projection_key, checkpoint_key, processed_key, device_key,
  attestation_key,
}

-- The columns that `ON CONFLICT (txn_id) DO UPDATE` sets.
unfoldable pub merge_projection :
    PaymentReadProjection → PaymentReadProjection → PaymentReadProjection
merge_projection proj old = record old {
  status = proj.status;
  relay_hops = proj.relay_hops;
  settled_at = proj.settled_at;
  updated_at = proj.updated_at;
}

unfoldable pub create_or_update_read_projection : Conn → PaymentReadProjection → Db ⊤
unfolding merge_projection
create_or_update_read_projection c proj = exec c λ now s. ok (
    if exists projection_key proj.txn_id s.projections
    then record s {
      projections = update projection_key proj.txn_id (merge_projection proj) s.projections;
    }
    else record s { projections = proj ∷ s.projections })

unfoldable pub get_read_projection : String → Db PaymentReadProjection
get_read_projection txn_id = query_row direct (λ s. find projection_key txn_id s.projections)

unfoldable pub is_event_processed : String → Db Bool
is_event_processed event_id = query direct (λ s. exists processed_key event_id s.processed)

-- `ON CONFLICT (event_id) DO NOTHING`
unfoldable pub mark_event_processed : Conn → String → Db ⊤
mark_event_processed c event_id = exec c λ now s. ok (
    if exists processed_key event_id s.processed
    then s
    else record s { processed = record { event_id = event_id; processed_at = now } ∷ s.processed })

-- No row counts as 0.
unfoldable pub get_projection_checkpoint : String → Db ℤ
get_projection_checkpoint name =
    query direct
      λ s. elim (find checkpoint_key name s.checkpoints) [ none ↦ pos 0 | some c ↦ c.last_event_id ]

unfoldable pub update_projection_checkpoint : Conn → String → ℤ → Db ⊤
update_projection_checkpoint c name val = exec c λ now s. ok (
    if exists checkpoint_key name s.checkpoints
    then record s {
      checkpoints =
          update checkpoint_key name (λ k. record k { last_event_id = val; updated_at = now })
            s.checkpoints;
    }
    else record s {
      checkpoints =
          record { projection_name = name; last_event_id = val; updated_at = now } ∷ s.checkpoints;
    })

abbrev pub same_attempt : String → String → RelayAttempt → Bool
same_attempt relay_id txn_id a =
    ite (str_dec a.relay_id relay_id) (ite (str_dec a.txn_id txn_id) true false) false

unfoldable pub has_attempt : String → String → List RelayAttempt → Bool
has_attempt relay_id txn_id rows = elim (first_row (same_attempt relay_id txn_id) rows) [
  | none ↦ false
  | some _ ↦ true
]

-- The times of the argument are ignored.
unfoldable pub record_relay_attempt : RelayAttempt → Db ⊤
unfolding has_attempt
record_relay_attempt a = exec direct λ now s. ok (
    if has_attempt a.relay_id a.txn_id s.relay_attempts
    then record s {
      relay_attempts =
          update_rows (same_attempt a.relay_id a.txn_id)
            (λ r. record r { hop_count = a.hop_count; status = a.status; last_seen_at = now })
            s.relay_attempts;
    }
    else record s {
      relay_attempts = record a { first_seen_at = now; last_seen_at = now } ∷ s.relay_attempts;
    })

unfoldable pub get_relay_attempts : String → Db (List RelayAttempt)
get_relay_attempts txn_id = query direct λ s.
    where_rows (λ (a : RelayAttempt). ite (str_dec a.txn_id txn_id) true false) s.relay_attempts

-- `device_id` references `devices`.
unfoldable pub create_device_attestation : DeviceAttestation → Db ⊤
create_device_attestation att = exec direct λ now s.
    require (exists device_key att.device_id s.devices) Error.foreign_key (
      ok (
        if exists attestation_key att.device_id s.attestations
        then record s {
          attestations = update attestation_key att.device_id (λ _. att) s.attestations;
        }
        else record s { attestations = att ∷ s.attestations }))
