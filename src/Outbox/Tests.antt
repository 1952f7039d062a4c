-- ===== src/Outbox/Tests.antt =====
-- Runs of the outbox worker, and the theorems on them.
use offline_pay.Prelude.{◌≡◌, refl, none, some, false, [], ◌∷◌}
use offline_pay.Domain.{OutboxEvent, DeadLetterEvent}
use offline_pay.Database.{calm, Store, empty_store, OutboxRow, OutboxStatus}
use offline_pay.Repository.{is_pending}
use offline_pay.Outbox.Worker.{Outside, OutboxWorker, new_outbox_worker, process_single_event}
use offline_pay.Outbox.Attempt.{IsSafe, row_of, process_single_event-IsSafe}
use offline_pay.Outbox.Retry.{attempts, attempts-Exhausted}
use offline_pay.Outbox.Stuck.{run_batches, run_batches-stuck}
use offline_pay.Outbox.Waiting.{rows_of}

abbrev row : OutboxRow
row = record {
  event_id = 1;
  stream_name = "payment.settled";
  event_type = "PaymentSettled";
  payload = "{}";
  is_published = false;
  created_at = 5;
  status = OutboxStatus.pending;
  retry_count = 3;
  last_error = none;
  locked_by = none;
  locked_at = none;
}

abbrev ev : OutboxEvent
ev = record {
  event_id = 1;
  stream_name = "payment.settled";
  event_type = "PaymentSettled";
  payload = "{}";
  is_published = false;
  created_at = 5;
}

abbrev tables : Store
tables = record empty_store { outbox = row ∷ []; next_outbox_id = 2 }

abbrev redis_down : Outside
redis_down = record {
  publish = λ _. some "refused";
  failed_after = λ n e. e;
  metadata = λ p. ("", "");
}

abbrev worker : OutboxWorker
worker = record { interval = 200000000; worker_count = 3; max_retries = 5 }

new_worker : new_outbox_worker 0 ≡ worker
unfolding new_outbox_worker
new_worker = refl

abbrev claimed_row : OutboxRow
claimed_row = record row { status = OutboxStatus.processing }

abbrev locked : Store
locked = record tables { outbox = claimed_row ∷ [] }

process_single_event-IsSafe_example :
    IsSafe redis_down 5 ev claimed_row locked
      (process_single_event redis_down worker ev (calm locked 9)).1.store
process_single_event-IsSafe_example =
    process_single_event-IsSafe redis_down worker ev claimed_row
      (record { payload = refl; stream = refl; type_read = refl; claimed = refl }) (calm locked 9)
      refl

attempts-Exhausted_example :
    (row_of 1 (attempts redis_down worker ev 2 (calm tables 9)).store ≡ none)
    × ((d : DeadLetterEvent) × ((attempts redis_down worker ev 2 (calm tables 9)).store.dead_letters
          ≡ d ∷ [])
        × (d.payload ≡ "{}")
        × (d.retry_count ≡ 5))
attempts-Exhausted_example =
    attempts-Exhausted redis_down worker ev "refused" refl 1 tables 9 row refl refl

run_batches-stuck_example :
    rows_of 1 (run_batches worker ((redis_down, "worker-1") ∷ []) (calm locked 9)).store
    ≡ rows_of 1 locked
unfolding is_pending
run_batches-stuck_example =
    run_batches-stuck 1 worker ((redis_down, "worker-1") ∷ []) (calm locked 9) (refl, tt)
