-- ===== src/Outbox/Replay.antt =====
-- `ReplayDLQEvent`: a dead letter goes back to the outbox.
use offline_pay.Prelude.{String, ℕ, ◌≡◌, refl, false, none, some, ◌∷◌, arith, ap, ◌∙◌, subst}
use offline_pay.Domain.{DeadLetterEvent}
use offline_pay.Database.{
  World, Store, Result, ⊤, OutboxRow, OutboxStatus, ok, direct, in_tx, exec, query_row, first_row,
  delete_rows,
}
use offline_pay.Database.Laws.{exec-ok, with_tx-ok, continue-elim, query_row-ok}
use offline_pay.Database.Rows.{first_row-delete_rows}
use offline_pay.Repository.{get_dead_letter_event, has_letter_id, create_outbox_event}
use offline_pay.Outbox.Worker.{Outside, replay_target, replay_tx, replay_dlq_event}

-- A fresh row at the head of the outbox.
created :
    (stream type payload : String) (w w' : World)
    → create_outbox_event in_tx stream type payload w ≡ (ok tt, w')
    → (row : OutboxRow) × (w'.store.outbox ≡ row ∷ w.store.outbox)
      × (row.payload ≡ payload)
      × (row.stream_name ≡ stream)
      × (row.status ≡ OutboxStatus.pending)
      × (row.retry_count ≡ 0)
      × (w'.store.dead_letters ≡ w.store.dead_letters)
unfolding create_outbox_event
created stream type payload w w' h =
    let (e, _) = exec-ok in_tx _ w w' h in
    (
      record {
        event_id = w.store.next_outbox_id;
        stream_name = stream;
        event_type = type;
        payload = payload;
        is_published = false;
        created_at = w.now;
        status = OutboxStatus.pending;
        retry_count = 0;
        last_error = none;
        locked_by = none;
        locked_at = none;
      },
      ground arith,
      refl,
      refl,
      refl,
      refl,
      ground arith,
    )

pub record IsRequeued (out : Outside) (d : DeadLetterEvent) (row : OutboxRow) : Type 0 where
  pub payload : row.payload ≡ d.payload
  pub stream : row.stream_name ≡ (replay_target (out.metadata d.payload)).0
  pub waits : row.status ≡ OutboxStatus.pending
  pub fresh : row.retry_count ≡ 0

delete_letter : ℕ → World → Result ⊤ × World
delete_letter id =
    exec in_tx
      λ now s. ok (record s { dead_letters = delete_rows (has_letter_id id) s.dead_letters })

deleted :
    (id : ℕ) (w w' : World)
    → delete_letter id w ≡ (ok tt, w')
    → (first_row (has_letter_id id) w'.store.dead_letters ≡ none)
      × (w'.store.outbox ≡ w.store.outbox)
unfolding delete_letter
deleted id w w' h =
    let (e, _) = exec-ok in_tx _ w w' h in
    let gone = first_row-delete_rows (has_letter_id id) w.store.dead_letters in
    (ground (arith, gone), ground arith)

-- What a replay has done.
abbrev pub Replayed : Outside → ℕ → World → World → Type 0
Replayed out id w w' =
    (d : DeadLetterEvent) × (row : OutboxRow) × (first_row (has_letter_id id) w.store.dead_letters
      ≡ some d)
    × (first_row (has_letter_id id) w'.store.dead_letters ≡ none)
    × (w'.store.outbox ≡ row ∷ w.store.outbox)
    × IsRequeued out d row

requeued :
    (out : Outside) (id : ℕ) (w w' : World)
    → replay_tx out id w ≡ (ok tt, w')
    → Replayed out id w w'
unfolding replay_tx get_dead_letter_event delete_letter
requeued out id w w' h =
    let letter = λ (s : Store). first_row (has_letter_id id) s.dead_letters in
    continue-elim {x = query_row direct letter w} h λ d w1 q h1.
      let (found, s1, _) = query_row-ok direct letter w w1 d q in
      let target = replay_target (out.metadata d.payload) in
      continue-elim {x = create_outbox_event in_tx target.0 target.1 d.payload w1} h1 λ _ w2 q2 h2.
        let (row, rows, load, stream, waits, fresh, _) =
          created target.0 target.1 d.payload w1 w2 q2 in
        let (gone, same) = deleted id w2 w' h2 in
        (
          d,
          row,
          found,
          gone,
          same ∙ rows ∙ ap (λ (s : Store). row ∷ s.outbox) s1,
          record { payload = load; stream = stream; waits = waits; fresh = fresh },
        )

-- A `ReplayDLQEvent` without an error has found a dead letter of that id, has removed it, and has
-- put one new row at the head of the outbox: it has the letter's payload, waits for a worker and
-- has no retries, and its stream is that of the payload's metadata, or payment.replayed.
pub replay_dlq_event-Replayed :
    (out : Outside) (id : ℕ) (w w' : World)
    → replay_dlq_event out id w ≡ (ok tt, w')
    → Replayed out id w w'
unfolding replay_dlq_event
replay_dlq_event-Replayed out id w w' h =
    let (w0, w1, s0, _, run, s1, _) = with_tx-ok (replay_tx out id) w w' tt h in
    let (d, row, found, gone, rows, fits) = requeued out id w0 w1 run in
    (
      d,
      row,
      subst (λ s. first_row (has_letter_id id) s.dead_letters ≡ some d) s0 found,
      rw s1 gone,
      rw s1 (rows ∙ ap (λ (s : Store). row ∷ s.outbox) s0),
      fits,
    )
