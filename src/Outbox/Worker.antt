-- ===== src/Outbox/Worker.antt =====
-- `NewOutboxWorker`, `processOutboxBatch`, `processSingleEvent` and `ReplayDLQEvent`. What Redis answers to a publication, the formatting of numbers and the
-- decoding of a dead letter's metadata are parameters.
use offline_pay.Prelude.{
  ℕ, String, Bool, true, false, Option, none, some, List, [], ◌∷◌, ◌==◌, if◌then◌else◌, ite,
  str_dec,
}
use offline_pay.Domain.{OutboxEvent, DeadLetterEvent, Time}
use offline_pay.Database.{
  Result, ok, err, OutboxRow, OutboxStatus, ⊤, Db, ◌>>=◌, ◌>>◌, pure, ignore, attempt, clock,
  wrap_error, direct, in_tx, exec, query_row, with_tx, first_row, delete_rows,
}
use offline_pay.Repository.{
  has_row_id, mark_outbox_event_published, mark_outbox_event_failed, create_dead_letter_event,
  get_dead_letter_event, get_pending_outbox_events_for_update, has_letter_id, create_outbox_event,
}

-- `interval` is in nanoseconds.
pub record OutboxWorker : Type 0 where
  pub interval : ℕ
  pub worker_count : ℕ
  pub max_retries : ℕ

-- `NewOutboxWorker`
unfoldable pub new_outbox_worker : ℕ → OutboxWorker
new_outbox_worker interval = record {
  interval = if interval == 0 then 200000000 else interval;
  worker_count = 3;
  max_retries = 5;
}

-- `publish` is the error's text, if there is one; `metadata` is the stream and the type that a
-- payload names, empty texts if it names none.
pub record Outside : Type 0 where
  pub publish : OutboxEvent → Option String
  pub failed_after : ℕ → String → String
  pub metadata : String → String × String

-- `SELECT status, retry_count FROM outbox_events WHERE event_id = $1`
unfoldable pub get_outbox_row : ℕ → Db OutboxRow
get_outbox_row id = query_row in_tx (λ s. first_row (has_row_id id) s.outbox)

-- `DELETE FROM outbox_events WHERE event_id = $1`
unfoldable pub delete_outbox_event : ℕ → Db ⊤
delete_outbox_event id =
    exec in_tx λ now s. ok (record s { outbox = delete_rows (has_row_id id) s.outbox })

unfoldable pub is_failed : OutboxStatus → Bool
is_failed OutboxStatus.failed = true
is_failed OutboxStatus.pending = false
is_failed OutboxStatus.processing = false
is_failed OutboxStatus.published = false

module _ (out : Outside) where
  unfoldable pub dlq_event : OutboxEvent → String → ℕ → Time → DeadLetterEvent
  dlq_event ev error retry_count now = record {
    event_id = 0;
    payload = ev.payload;
    failure_reason = out.failed_after retry_count error;
    retry_count = retry_count;
    timestamp = now;
  }

  -- The dead letter, and the row's deletion.
  unfoldable pub move_to_dlq : OutboxEvent → String → ℕ → Db ⊤
  unfolding delete_outbox_event dlq_event
  move_to_dlq ev error retry_count = do
    now ← clock
    wrap_error "failed to write DLQ event"
        (create_dead_letter_event in_tx (dlq_event ev error retry_count now))
    wrap_error "failed to delete failed outbox event" (delete_outbox_event ev.event_id)

  -- `processSingleEvent` from here on: a row that cannot be read is left as it is.
  unfoldable pub route_row : OutboxEvent → String → Result OutboxRow → Db ⊤
  unfolding move_to_dlq is_failed
  route_row ev error (err e) = pure tt
  route_row ev error (ok r) =
      if is_failed r.status then move_to_dlq ev error r.retry_count else pure tt

module _ (out : Outside) (worker : OutboxWorker) where
  unfoldable pub fail_tx : OutboxEvent → String → Db ⊤
  unfolding route_row get_outbox_row
  fail_tx ev error = do
    mark_outbox_event_failed in_tx ev.event_id error worker.max_retries
    r ← attempt (get_outbox_row ev.event_id)
    route_row out ev error r

  unfoldable pub after_publish : OutboxEvent → Option String → Db ⊤
  unfolding fail_tx
  after_publish ev none = ignore (mark_outbox_event_published direct ev.event_id)
  after_publish ev (some error) = ignore (with_tx (fail_tx ev error))

  -- `processSingleEvent`
  unfoldable pub process_single_event : OutboxEvent → Db ⊤
  unfolding after_publish
  process_single_event ev = after_publish ev (out.publish ev)

  unfoldable pub process_events : List OutboxEvent → Db ⊤
  unfolding process_single_event
  process_events [] = pure tt
  process_events (ev ∷ events) = process_single_event ev >> process_events events

  unfoldable pub process_acquired : Result (List OutboxEvent) → Db ⊤
  unfolding process_events
  process_acquired (err e) = pure tt
  process_acquired (ok events) = process_events events

  -- `processOutboxBatch`
  unfoldable pub process_outbox_batch : String → Db ⊤
  unfolding process_acquired
  process_outbox_batch worker_id = do
    r ← attempt (with_tx (get_pending_outbox_events_for_update 5 worker_id))
    process_acquired r

-- The stream and the type of a replayed event.
unfoldable pub replay_target : String × String → String × String
replay_target (stream, type) =
    ite (str_dec stream "") ("payment.replayed", "PaymentReplayed") (stream, type)

unfoldable pub replay_tx : Outside → ℕ → Db ⊤
unfolding replay_target
replay_tx out event_id = do
  dlq ← get_dead_letter_event event_id
  create_outbox_event in_tx (replay_target (out.metadata dlq.payload)).0
      (replay_target (out.metadata dlq.payload)).1 dlq.payload
  exec in_tx
      λ now s. ok (record s { dead_letters = delete_rows (has_letter_id event_id) s.dead_letters })

-- `ReplayDLQEvent`
unfoldable pub replay_dlq_event : Outside → ℕ → Db ⊤
unfolding replay_tx
replay_dlq_event out event_id = with_tx (replay_tx out event_id)
