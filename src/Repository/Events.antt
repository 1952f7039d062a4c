-- ===== src/Repository/Events.antt =====
-- The audit, outbox and event store methods of internal/repository/repository.go.
use offline_pay.Prelude.{
  ◌+◌, String, true, false, Option, none, List, [], ◌∷◌, if◌then◌else◌, ite, str_dec,
}
use offline_pay.Domain.{AuditEvent, PaymentEvent}
use offline_pay.Database.{
  Error, ok, require, intent_key, snapshot_key, find, exists, update, PaymentSnapshot, OutboxStatus,
  where_rows, ⊤, Db, Conn, direct, exec, query,
}

unfoldable pub create_audit_event : Conn → AuditEvent → Db ⊤
create_audit_event c event =
    exec c λ now s. ok (record s { audits = record event { created_at = now } ∷ s.audits })

-- A new row takes the columns' defaults: PENDING, not published, no retries.
unfoldable pub create_outbox_event : Conn → String → String → String → Db ⊤
create_outbox_event c stream_name event_type payload = exec c λ now s. ok (record s {
  outbox =
      record {
        event_id = s.next_outbox_id;
        stream_name = stream_name;
        event_type = event_type;
        payload = payload;
        is_published = false;
        created_at = now;
        status = OutboxStatus.pending;
        retry_count = 0;
        last_error = none;
        locked_by = none;
        locked_at = none;
      }
      ∷ s.outbox;
  next_outbox_id = s.next_outbox_id + 1;
})

-- `txn_id` references `payment_intents`.
unfoldable pub create_payment_event : Conn → PaymentEvent → Db ⊤
create_payment_event c event = exec c λ now s.
    require (exists intent_key event.txn_id s.intents) Error.foreign_key
      (ok (record s { events = event ∷ s.events }))

-- `ON CONFLICT (aggregate_id) DO UPDATE`
unfoldable pub create_payment_snapshot : Conn → PaymentSnapshot → Db ⊤
create_payment_snapshot c snap = exec c λ now s. ok (
    if exists snapshot_key snap.aggregate_id s.snapshots
    then record s { snapshots = update snapshot_key snap.aggregate_id (λ _. snap) s.snapshots }
    else record s { snapshots = snap ∷ s.snapshots })

unfoldable pub get_payment_snapshot : String → Db (Option PaymentSnapshot)
get_payment_snapshot aggregate_id = query direct (λ s. find snapshot_key aggregate_id s.snapshots)

-- `ORDER BY event_id ASC`: the ids grow, and the newest row is the first of the table.
abbrev oldest_first {ℓ} : {A : Type ℓ} → List A → List A → List A
oldest_first [] done = done
oldest_first (x ∷ rows) done = oldest_first rows (x ∷ done)

unfoldable pub events_of : String → List PaymentEvent → List PaymentEvent
events_of txn_id rows =
    oldest_first (where_rows (λ (e : PaymentEvent). ite (str_dec e.txn_id txn_id) true false) rows)
      []

unfoldable pub get_payment_events : String → Db (List PaymentEvent)
unfolding events_of
get_payment_events txn_id = query direct (λ s. events_of txn_id s.events)

unfoldable pub get_all_payment_events : Db (List PaymentEvent)
get_all_payment_events = query direct (λ s. oldest_first s.events [])
