-- ===== src/Outbox/Stuck.antt =====
-- A row that is locked and not released, as after a crash of its worker or a lost update.
use offline_pay.Prelude.{ℕ, String, ◌≡◌, refl, false, List, [], ◌∷◌, arith, ap, ◌∙◌}
use offline_pay.Domain.{OutboxEvent}
use offline_pay.Database.{Store, Result, ok, err, World, ⊤, Db, in_tx, query, with_tx, continue}
use offline_pay.Database.Laws.{exec-ok, with_tx-ok, with_tx-err, continue-elim, query-ok}
use offline_pay.Database.Rows.{result-cases}
use offline_pay.Repository.{
  any_id, pending_batch, lock_row, lock_events, lock_batch, get_pending_outbox_events_for_update,
}
use offline_pay.Outbox.Worker.{
  OutboxWorker, Outside, after_publish, process_single_event, process_events, process_acquired,
  process_outbox_batch,
}
use offline_pay.Outbox.Waiting.{NoneWaits, pending_batch-skips, rows_of}
use offline_pay.Outbox.Others.{Leaves, kept_rows, tried-Leaves}

continue-done :
    {B : Type 0} (x : Result ⊤ × World) (f : ⊤ → Db B) → x.0 ≡ ok tt → continue x f ≡ f tt x.1
continue-done (ok _, w) f h = refl
continue-done (err e, w) f h = absurd (cc)

module _ (id : ℕ) (out : Outside) (worker : OutboxWorker) where
  batch-Leaves :
      (name : String) (events : List OutboxEvent) (w w' : World)
      → any_id events id ≡ false
      → lock_batch name events w ≡ (ok tt, w')
      → rows_of id w'.store ≡ rows_of id w.store
  unfolding lock_batch lock_row
  batch-Leaves name events w w' lacks h =
      let (e, _) = exec-ok in_tx _ w w' h in
      let k = kept_rows id (any_id events) (lock_row name w.now) (λ v. refl) lacks w.store.outbox in
      ground (arith, k)

  events-Leaves :
      (events : List OutboxEvent) (w : World)
      → any_id events id ≡ false
      → Leaves {A = ⊤} id w (process_events out worker events w)
  unfolding process_events process_single_event any_id
  events-Leaves [] w h = refl
  events-Leaves (ev ∷ events) w h =
      let (done, kept) = tried-Leaves id ev (ground arith) out worker (out.publish ev) w in
      let w1 : World = (after_publish out worker ev (out.publish ev) w).1 in
      ap (λ (x : Result ⊤ × World). rows_of id x.1.store)
        (continue-done (process_single_event out worker ev w)
          (λ _. process_events out worker events) done)
      ∙ events-Leaves events w1 (ground arith)
      ∙ kept

  locked-Leaves :
      (name : String) (events : List OutboxEvent) (w w' : World) (r : List OutboxEvent)
      → any_id events id ≡ false
      → lock_events name events w ≡ (ok r, w')
      → (r ≡ events) × (rows_of id w'.store ≡ rows_of id w.store)
  unfolding lock_events
  locked-Leaves name [] w w' r lacks h = (ground arith, ground arith)
  locked-Leaves name (ev ∷ events) w w' r lacks h =
      continue-elim {x = lock_batch name (ev ∷ events) w} h λ _ w1 q h1.
        let kept = batch-Leaves name (ev ∷ events) w w1 lacks q in
        (ground arith, ground (arith, kept))

  claimed-Leaves :
      (name : String) (limit : ℕ) (w w' : World) (r : List OutboxEvent)
      → NoneWaits (rows_of id w.store)
      → get_pending_outbox_events_for_update limit name w ≡ (ok r, w')
      → (any_id r id ≡ false) × (rows_of id w'.store ≡ rows_of id w.store)
  unfolding get_pending_outbox_events_for_update
  claimed-Leaves name limit w w' r none_wait h =
      let batch = λ (s : Store). pending_batch limit s.outbox in
      continue-elim {x = query in_tx batch w} h λ events w1 q h1.
        let (found, s1, _) = query-ok in_tx batch w w1 events q in
        let lacks : any_id events id ≡ false =
          rw (← found) (pending_batch-skips id limit w.store.outbox none_wait) in
        let (same, kept) = locked-Leaves name events w1 w' r lacks h1 in
        (rw same lacks, kept ∙ ap (rows_of id) s1)

  acquired-Leaves :
      (name : String) (w : World)
      → NoneWaits (rows_of id w.store)
      → Leaves {A = ⊤} id w (process_outbox_batch out worker name w)
  unfolding process_outbox_batch process_acquired
  acquired-Leaves name w none_wait =
      let claim = get_pending_outbox_events_for_update 5 name in
      result-cases (with_tx claim w)
        (λ events w' h.
          let (w0, w1, s0, _, run, s1, _) = with_tx-ok claim w w' events h in
          let waits : NoneWaits (rows_of id w0.store) = rw s0 none_wait in
          let (lacks, kept) = claimed-Leaves name 5 w0 w1 events waits run in
          rw h (events-Leaves events w' lacks ∙ ap (rows_of id) s1 ∙ kept ∙ ap (rows_of id) s0))
        (λ e w' h. let kept = with_tx-err claim w w' e h in rw h (ap (rows_of id) kept))

-- Batches of any workers, one after the other, whatever Redis answers in each.
pub run_batches : OutboxWorker → List (Outside × String) → World → World
run_batches worker [] w = w
run_batches worker ((out, name) ∷ batches) w =
    run_batches worker batches (process_outbox_batch out worker name w).1

-- A row that does not wait, such as one left in PROCESSING by a worker that crashed or whose
-- update failed, is never taken again: no sequence of batches, of whatever workers and with
-- whatever failures, publishes, retries or releases it, and its rows stay as they are.
pub run_batches-stuck :
    (id : ℕ) (worker : OutboxWorker) (batches : List (Outside × String)) (w : World)
    → NoneWaits (rows_of id w.store)
    → rows_of id (run_batches worker batches w).store ≡ rows_of id w.store
unfolding run_batches
run_batches-stuck id worker [] w h = refl
run_batches-stuck id worker ((out, name) ∷ batches) w h =
    let kept = acquired-Leaves id out worker name w h in
    let w1 : World = (process_outbox_batch out worker name w).1 in
    run_batches-stuck id worker batches w1 (rw kept h) ∙ kept
