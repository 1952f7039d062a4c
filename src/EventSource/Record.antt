-- ===== src/EventSource/Record.antt =====
-- `NewEventSourceManager` and `SaveEventAndSnapshot`. Marshalling cannot fail on the values that are
-- passed.
use offline_pay.Prelude.{ℕ, ◌%◌, String, Option, none, some, if◌then◌else◌, ◌==◌}
use offline_pay.Domain.{PaymentIntent}
use offline_pay.Database.{⊤, Db, ◌>>=◌, ◌>>◌, pure, wrap_error, clock, Conn}
use offline_pay.Repository.{create_payment_event, create_payment_snapshot}

-- `NewEventSourceManager`: the interval is at least 1.
unfoldable pub snapshot_interval : ℕ → ℕ
snapshot_interval n = if n == 0 then 5 else n

-- `SaveEventAndSnapshot`
unfoldable pub save_event_and_snapshot :
    ℕ → Conn → String → String → ℕ → String → Option PaymentIntent → Db ⊤
save_event_and_snapshot interval c txn_id event_type version payload none = do
  now ← clock
  wrap_error "failed to save versioned event" (
      create_payment_event c (record {
        txn_id = txn_id;
        event_type = event_type;
        event_version = version;
        payload = payload;
        created_at = now;
      }))
save_event_and_snapshot interval c txn_id event_type version payload (some aggregate) = do
  now ← clock
  wrap_error "failed to save versioned event" (
      create_payment_event c (record {
        txn_id = txn_id;
        event_type = event_type;
        event_version = version;
        payload = payload;
        created_at = now;
      }))
  if version % interval == 0
      then wrap_error "failed to save aggregate snapshot" (
          create_payment_snapshot c (record {
            aggregate_id = txn_id;
            aggregate_version = version;
            snapshot_data = aggregate;
            created_at = now;
          }))
      else pure tt
