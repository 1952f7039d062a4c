-- ===== src/Outbox/Retry.antt =====
-- How often an event is tried that Redis never takes.
use offline_pay.Prelude.{
  ℕ, zero, suc, ◌+◌, ◌≤◌, ◌<◌, String, ◌≡◌, refl, true, false, none, some, ◌∷◌, arith, leb, ap,
  subst, sym, ◌∙◌,
}
use offline_pay.Domain.{OutboxEvent, DeadLetterEvent, Time}
use offline_pay.Database.{
  calm, Store, World, OutboxRow, stmt, exec, query, query_row, with_tx, update_rows, delete_rows,
}
use offline_pay.Database.Rows.{map_option, first_row-update_rows, first_row-delete_rows}
use offline_pay.Repository.{
  has_row_id, mark_outbox_event_failed, create_dead_letter_event, fail_row,
}
use offline_pay.Outbox.Worker.{
  dlq_event, OutboxWorker, Outside, get_outbox_row, delete_outbox_event, is_failed, move_to_dlq,
  route_row, fail_tx, after_publish, process_single_event,
}
use offline_pay.Outbox.Attempt.{row_of}

-- The event is processed that often.
pub attempts : Outside → OutboxWorker → OutboxEvent → ℕ → World → World
attempts out worker ev zero w = w
attempts out worker ev (suc n) w = attempts out worker ev n (process_single_event out worker ev w).1

module _ (out : Outside) (worker : OutboxWorker) (ev : OutboxEvent) (error : String)
    (down : out.publish ev ≡ some error) where
  failed_store : Store → Store
  failed_store s = record s {
    outbox = update_rows (has_row_id ev.event_id) (fail_row error worker.max_retries) s.outbox;
  }

  retried :
      (s : Store) (now : Time) (r : OutboxRow)
      → row_of ev.event_id s ≡ some r
      → r.retry_count + 1 < worker.max_retries
      → (row_of ev.event_id (failed_store s) ≡ some (fail_row error worker.max_retries r))
        × ((process_single_event out worker ev (calm s now)).1 ≡ calm (failed_store s) now)
  unfolding process_single_event after_publish fail_tx with_tx mark_outbox_event_failed exec stmt
      get_outbox_row query_row query route_row is_failed fail_row failed_store
  retried s now r at below =
      let u =
        first_row-update_rows (has_row_id ev.event_id) (fail_row error worker.max_retries)
          (λ v. refl) s.outbox in
      let read : row_of ev.event_id (failed_store s) ≡ some (fail_row error worker.max_retries r) =
        u ∙ ap (map_option (fail_row error worker.max_retries)) at in
      let below' : leb worker.max_retries (r.retry_count + 1) ≡ false = ground arith in
      (read, rw (down, read, below') refl)

  letter : OutboxRow → Time → ℕ → DeadLetterEvent
  letter r now id = record (dlq_event out ev error (r.retry_count + 1) now) { event_id = id }

  buried_store : Store → OutboxRow → Time → Store
  buried_store s r now = record s {
    outbox = delete_rows (has_row_id ev.event_id) (failed_store s).outbox;
    dead_letters = letter r now s.next_dead_letter_id ∷ s.dead_letters;
    next_dead_letter_id = s.next_dead_letter_id + 1;
  }

  buried :
      (s : Store) (now : Time) (r : OutboxRow)
      → row_of ev.event_id s ≡ some r
      → worker.max_retries ≤ r.retry_count + 1
      → (process_single_event out worker ev (calm s now)).1 ≡ calm (buried_store s r now) now
  unfolding process_single_event after_publish fail_tx with_tx mark_outbox_event_failed exec stmt
      get_outbox_row query_row query route_row is_failed fail_row failed_store buried_store letter
      move_to_dlq delete_outbox_event create_dead_letter_event dlq_event
  buried s now r at above =
      let u =
        first_row-update_rows (has_row_id ev.event_id) (fail_row error worker.max_retries)
          (λ v. refl) s.outbox in
      let read : row_of ev.event_id (failed_store s) ≡ some (fail_row error worker.max_retries r) =
        u ∙ ap (map_option (fail_row error worker.max_retries)) at in
      let above' : leb worker.max_retries (r.retry_count + 1) ≡ true = ground arith in
      rw (down, read, above') refl

  abbrev Exhausted : Store → Store → Type 0
  Exhausted s s' =
      (row_of ev.event_id s' ≡ none)
      × ((d : DeadLetterEvent) × (s'.dead_letters ≡ d ∷ s.dead_letters)
          × (d.payload ≡ ev.payload)
          × (d.retry_count ≡ worker.max_retries))

  -- An event that Redis refuses every time is tried exactly until its retry count is `max_retries`:
  -- if its row is not beyond the last retry, the database answers, and it is processed once for
  -- each retry that is left, then its row is gone, and the one dead letter that was written has
  -- its payload and that count.
  pub attempts-Exhausted :
      (n : ℕ) (s : Store) (now : Time) (r : OutboxRow)
      → row_of ev.event_id s ≡ some r
      → r.retry_count + suc n ≡ worker.max_retries
      → Exhausted s (attempts out worker ev (suc n) (calm s now)).store
  unfolding failed_store fail_row attempts buried_store letter dlq_event
  attempts-Exhausted zero s now r at left = rw (buried s now r at (omega (arith, left))) (
    first_row-delete_rows (has_row_id ev.event_id) (failed_store s).outbox,
    (letter r now s.next_dead_letter_id, refl, refl, omega (arith, left)),
  )
  attempts-Exhausted (suc n) s now r at left =
      let (read, run) = retried s now r at (omega (arith, left)) in
      let ih =
        attempts-Exhausted n (failed_store s) now (fail_row error worker.max_retries r) read
          (omega (arith, left)) in
      subst (λ w. Exhausted s (attempts out worker ev (suc n) w).store) (sym run) ih
