-- ===== src/Outbox/Attempt.antt =====
-- What becomes of an event when a worker has tried to publish it.
use offline_pay.Prelude.{
  ℕ, ◌≤◌, String, ◌≡◌, ◌≢◌, refl, Option, none, some, ◌∷◌, ◌⊎◌, inl, inr, arith, Bool-cases, ap,
  subst, ◌∙◌,
}
use offline_pay.Domain.{OutboxEvent, DeadLetterEvent}
use offline_pay.Database.{
  Store, Result, ok, err, World, OutboxRow, OutboxStatus, direct, in_tx, with_tx, first_row,
  update_rows, rewrap, wrap_error,
}
use offline_pay.Database.Laws.{
  exec-ok, with_tx-ok, with_tx-err, continue-elim, query_row-ok, query_row-store, rewrap-ok,
}
use offline_pay.Database.Rows.{exec-cases, result-cases, first_row-update_rows}
use offline_pay.Repository.{
  has_row_id, mark_outbox_event_published, mark_outbox_event_failed, create_dead_letter_event,
  publish_row, fail_row,
}
use offline_pay.Outbox.Worker.{
  dlq_event, OutboxWorker, Outside, get_outbox_row, delete_outbox_event, is_failed, move_to_dlq,
  route_row, fail_tx, after_publish, process_single_event,
}

abbrev pub row_of : ℕ → Store → Option OutboxRow
row_of id s = first_row (has_row_id id) s.outbox

-- The same message, whatever its status is.
pub record IsMessage (r r' : OutboxRow) : Type 0 where
  pub payload : r'.payload ≡ r.payload
  pub stream : r'.stream_name ≡ r.stream_name
  pub type_kept : r'.event_type ≡ r.event_type

-- The event that the worker has read from a row that it has claimed.
pub record IsClaimed (ev : OutboxEvent) (r : OutboxRow) : Type 0 where
  pub payload : ev.payload ≡ r.payload
  pub stream : ev.stream_name ≡ r.stream_name
  pub type_read : ev.event_type ≡ r.event_type
  pub claimed : r.status ≡ OutboxStatus.processing

-- The event is still in the outbox, and published only if Redis has taken it, or a dead letter has
-- the row's payload.
abbrev pub IsSafe : Outside → ℕ → OutboxEvent → OutboxRow → Store → Store → Type 0
IsSafe out max_retries ev r s s' =
    ((r' : OutboxRow) × (row_of ev.event_id s' ≡ some r')
      × IsMessage r r'
      × ((r'.status ≢ OutboxStatus.published) ⊎ (out.publish ev ≡ none)))
    ⊎ ((d : DeadLetterEvent) × (s'.dead_letters ≡ d ∷ s.dead_letters)
        × (d.payload ≡ r.payload)
        × (max_retries ≤ d.retry_count))

letter_added :
    (d : DeadLetterEvent) (w w' : World)
    → create_dead_letter_event in_tx d w ≡ (ok tt, w')
    → w'.store.dead_letters
      ≡ record d { event_id = w.store.next_dead_letter_id } ∷ w.store.dead_letters
unfolding create_dead_letter_event
letter_added d w w' h = let (e, _) = exec-ok in_tx _ w w' h in ground (arith, e)

event_deleted :
    (id : ℕ) (w w' : World)
    → delete_outbox_event id w ≡ (ok tt, w')
    → w'.store.dead_letters ≡ w.store.dead_letters
unfolding delete_outbox_event
event_deleted id w w' h = let (e, _) = exec-ok in_tx _ w w' h in ground (arith, e)

module _ (out : Outside) (worker : OutboxWorker) (ev : OutboxEvent) (r : OutboxRow)
    (same : IsClaimed ev r) where
  unchanged :
      (w w' : World)
      → row_of ev.event_id w.store ≡ some r
      → w'.store.outbox ≡ w.store.outbox
      → IsSafe out worker.max_retries ev r w.store w'.store
  unchanged w w' at e = inl (
    r,
    rw e at,
    record { payload = refl; stream = refl; type_kept = refl },
    inl (λ p. cc (same.claimed)),
  )

  failed_row :
      (error : String) (w w1 : World)
      → row_of ev.event_id w.store ≡ some r
      → mark_outbox_event_failed in_tx ev.event_id error worker.max_retries w ≡ (ok tt, w1)
      → (row_of ev.event_id w1.store ≡ some (fail_row error worker.max_retries r))
        × (w1.store ≡ record w.store { outbox = w1.store.outbox })
  unfolding mark_outbox_event_failed fail_row
  failed_row error w w1 at h =
      let (e, _) = exec-ok in_tx _ w w1 h in
      let u =
        first_row-update_rows (has_row_id ev.event_id) (fail_row error worker.max_retries)
          (λ v. refl) w.store.outbox in
      (ground (arith, u), ground arith)

  letter_written :
      (error : String) (count : ℕ) (w w' : World)
      → move_to_dlq out ev error count w ≡ (ok tt, w')
      → (d : DeadLetterEvent) × (w'.store.dead_letters ≡ d ∷ w.store.dead_letters)
        × (d.payload ≡ ev.payload)
        × (d.retry_count ≡ count)
  unfolding move_to_dlq dlq_event
  letter_written error count w w' h =
      let d : DeadLetterEvent = dlq_event out ev error count w.now in
      let write = create_dead_letter_event in_tx d w in
      let delete = delete_outbox_event ev.event_id in
      continue-elim {x = rewrap "failed to write DLQ event" write}
        {f = λ _. wrap_error "failed to delete failed outbox event" delete} h
        λ _ w1 q h1.
          let letters = letter_added d w w1 (rewrap-ok "failed to write DLQ event" write tt w1 q) in
          let same =
            event_deleted ev.event_id w1 w'
              (rewrap-ok "failed to delete failed outbox event" (delete w1) tt w' h1) in
          (record d { event_id = w.store.next_dead_letter_id }, same ∙ letters, refl, refl)

  routed :
      (error : String) (w w1 w' : World) (x : Result OutboxRow)
      → row_of ev.event_id w1.store ≡ some (fail_row error worker.max_retries r)
      → w1.store ≡ record w.store { outbox = w1.store.outbox }
      → ((r1 : OutboxRow) → x ≡ ok r1 → r1 ≡ fail_row error worker.max_retries r)
      → route_row out ev error x w1 ≡ (ok tt, w')
      → IsSafe out worker.max_retries ev r w.store w'.store
  unfolding route_row is_failed fail_row
  routed error w w1 w' (err e) at kept read h = inl (
    fail_row error worker.max_retries r,
    ground arith,
    record { payload = refl; stream = refl; type_kept = refl },
    inl (λ p. ground arith),
  )
  routed error w w1 w' (ok r1) at kept read h =
      let as_read = read r1 refl in
      elim (Bool-cases (is_failed r1.status)) [
        | inl dead ↦
            let h' : move_to_dlq out ev error r1.retry_count w1 ≡ (ok tt, w') = ground (arith, h) in
            let (d, letters, load, count) = letter_written error r1.retry_count w1 w' h' in
            inr (d, ground arith, load ∙ same.payload, ground (arith, as_read))
        | inr live ↦ inl (
          fail_row error worker.max_retries r,
          ground arith,
          record { payload = refl; stream = refl; type_kept = refl },
          inl (λ p. ground arith),
        )
      ]

  fail_tx-Safe :
      (error : String) (w w' : World)
      → row_of ev.event_id w.store ≡ some r
      → fail_tx out worker ev error w ≡ (ok tt, w')
      → IsSafe out worker.max_retries ev r w.store w'.store
  unfolding fail_tx get_outbox_row
  fail_tx-Safe error w w' at h = continue-elim h λ _ w1 q h1.
      let (at1, kept) = failed_row error w w1 at q in
      let w2 : World = (get_outbox_row ev.event_id w1).1 in
      let (s2, _) = query_row-store in_tx (λ s. first_row (has_row_id ev.event_id) s.outbox) w1 in
      routed error w w2 w' (get_outbox_row ev.event_id w1).0 (rw s2 at1) (rw s2 kept)
        (λ r1 e.
          let (f, _, _) =
            query_row-ok in_tx (λ s. first_row (has_row_id ev.event_id) s.outbox) w1 w2 r1
              (ground (arith, e)) in
          ground (arith, f))
        h1

  failed-Safe :
      (error : String) (w : World)
      → row_of ev.event_id w.store ≡ some r
      → IsSafe out worker.max_retries ev r w.store (with_tx (fail_tx out worker ev error) w).1.store
  failed-Safe error w at =
      result-cases (with_tx (fail_tx out worker ev error) w)
        (λ a w' h.
          let (w0, w1, s0, _, run, s1, _) = with_tx-ok (fail_tx out worker ev error) w w' a h in
          let safe = fail_tx-Safe error w0 w1 (rw s0 at) run in
          rw h (rw s1 (subst (λ s. IsSafe out worker.max_retries ev r s w1.store) s0 safe)))
        (λ e w' h.
          let kept = with_tx-err (fail_tx out worker ev error) w w' e h in
          rw h (unchanged w w' at (ground (arith, kept))))

  published-Safe :
      (w : World)
      → out.publish ev ≡ none
      → row_of ev.event_id w.store ≡ some r
      → IsSafe out worker.max_retries ev r w.store
          (mark_outbox_event_published direct ev.event_id w).1.store
  unfolding mark_outbox_event_published publish_row
  published-Safe w sent at =
      let u =
        first_row-update_rows (has_row_id ev.event_id) publish_row (λ v. refl) w.store.outbox in
      elim (exec-cases direct
        (λ now s.
          ok (record s { outbox = update_rows (has_row_id ev.event_id) publish_row s.outbox }))
        w) [
          | inl e ↦ inl (
            publish_row r,
            ground (arith, u),
            record { payload = refl; stream = refl; type_kept = refl },
            inr sent,
          )
          | inr e ↦
              unchanged w (mark_outbox_event_published direct ev.event_id w).1 at
                (ap (λ (t : Store). t.outbox) e)
        ]

  -- After an attempt to publish the event of a row that a worker has claimed,
  -- however Redis answers and wherever the database fails, the row is still there with its message,
  -- and is marked as published only if Redis has taken the event, or a dead letter with the row's
  -- payload has been written after at least `max_retries` attempts.
  pub process_single_event-IsSafe :
      (w : World)
      → row_of ev.event_id w.store ≡ some r
      → IsSafe out worker.max_retries ev r w.store (process_single_event out worker ev w).1.store
  unfolding process_single_event after_publish
  process_single_event-IsSafe w at = attempted (out.publish ev) refl
    where
      attempted :
          (o : Option String)
          → out.publish ev ≡ o
          → IsSafe out worker.max_retries ev r w.store (after_publish out worker ev o w).1.store
      attempted none sent = published-Safe w sent at
      attempted (some error) sent = failed-Safe error w at
