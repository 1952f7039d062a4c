-- ===== src/Outbox/Others.antt =====
-- What a worker does to one event leaves the rows of the other ids alone.
use offline_pay.Prelude.{
  ℕ, String, ◌≡◌, refl, Bool, false, Option, none, some, List, inl, inr, arith, Bool-cases, ap, ◌∙◌,
  ◌==◌,
}
use offline_pay.Domain.{OutboxEvent, DeadLetterEvent}
use offline_pay.Database.{
  Store, Result, ok, err, World, ⊤, OutboxRow, direct, in_tx, query_row, with_tx, first_row,
  update_rows, where_rows, rewrap, wrap_error,
}
use offline_pay.Database.Laws.{
  exec-ok, with_tx-ok, with_tx-err, continue-elim, query_row-store, rewrap-ok,
}
use offline_pay.Database.Rows.{
  exec-cases, result-cases, where_rows-update_rows, where_rows-delete_rows,
}
use offline_pay.Repository.{
  has_row_id, mark_outbox_event_published, mark_outbox_event_failed, create_dead_letter_event,
  publish_row, fail_row,
}
use offline_pay.Outbox.Worker.{
  dlq_event, OutboxWorker, Outside, get_outbox_row, delete_outbox_event, is_failed, move_to_dlq,
  route_row, fail_tx, after_publish,
}
use offline_pay.Outbox.Waiting.{rows_of}

-- `m` leaves the rows of the id alone, however it ends.
abbrev pub Leaves : {A : Type 0} → ℕ → World → Result A × World → Type 0
Leaves id w x = rows_of id x.1.store ≡ rows_of id w.store

module _ (id : ℕ) (apart : (k : ℕ) → Bool) where
  pub kept_rows :
      (f : OutboxRow → OutboxRow)
      → ((v : OutboxRow) → (f v).event_id ≡ v.event_id)
      → apart id ≡ false
      → (rows : List OutboxRow)
      → where_rows (has_row_id id) (update_rows (λ r. apart r.event_id) f rows)
        ≡ where_rows (has_row_id id) rows
  kept_rows f same out rows =
      where_rows-update_rows (λ r. apart r.event_id) (has_row_id id) f
        (λ v. ap (λ k. k == id) (same v))
        (λ v e. let q : v.event_id ≡ id = ground arith in rw q out) rows

module _ (id : ℕ) (ev : OutboxEvent) (other : (ev.event_id == id) ≡ false) where
  abbrev pub here : ℕ → Bool
  here k = k == ev.event_id

  pub out_of_reach : here id ≡ false
  out_of_reach = ground (arith, other)

  published-Leaves :
      (w : World) → Leaves {A = ⊤} id w (mark_outbox_event_published direct ev.event_id w)
  unfolding mark_outbox_event_published publish_row
  published-Leaves w =
      elim (exec-cases direct
        (λ now s.
          ok (record s { outbox = update_rows (has_row_id ev.event_id) publish_row s.outbox }))
        w) [
          | inl e ↦
              let k = kept_rows id here publish_row (λ v. refl) out_of_reach w.store.outbox in
              ground (arith, k)
          | inr e ↦ rw e refl
        ]

  pub marked-Leaves :
      (error : String) (n : ℕ) (w w' : World)
      → mark_outbox_event_failed in_tx ev.event_id error n w ≡ (ok tt, w')
      → rows_of id w'.store ≡ rows_of id w.store
  unfolding mark_outbox_event_failed fail_row
  marked-Leaves error n w w' h =
      let (e, _) = exec-ok in_tx _ w w' h in
      let k = kept_rows id here (fail_row error n) (λ v. refl) out_of_reach w.store.outbox in
      ground (arith, k)

  letter-Leaves :
      (d : DeadLetterEvent) (w w' : World)
      → create_dead_letter_event in_tx d w ≡ (ok tt, w')
      → rows_of id w'.store ≡ rows_of id w.store
  unfolding create_dead_letter_event
  letter-Leaves d w w' h = let (e, _) = exec-ok in_tx _ w w' h in ground (arith, e)

  pub delete-Leaves :
      (w w' : World)
      → delete_outbox_event ev.event_id w ≡ (ok tt, w')
      → rows_of id w'.store ≡ rows_of id w.store
  unfolding delete_outbox_event
  delete-Leaves w w' h =
      let (e, _) = exec-ok in_tx _ w w' h in
      let k =
        where_rows-delete_rows (has_row_id ev.event_id) (has_row_id id)
          (λ v q. let same : v.event_id ≡ id = ground arith in rw same out_of_reach)
          w.store.outbox in
      ground (arith, k)

  module _ (out : Outside) (worker : OutboxWorker) (error : String) where
    moved-Leaves :
        (count : ℕ) (w w' : World)
        → move_to_dlq out ev error count w ≡ (ok tt, w')
        → rows_of id w'.store ≡ rows_of id w.store
    unfolding move_to_dlq
    moved-Leaves count w w' h =
        let d : DeadLetterEvent = dlq_event out ev error count w.now in
        let write = create_dead_letter_event in_tx d w in
        let delete = delete_outbox_event ev.event_id in
        continue-elim {x = rewrap "failed to write DLQ event" write}
          {f = λ _. wrap_error "failed to delete failed outbox event" delete} h
          λ _ w1 q h1.
            delete-Leaves w1 w'
              (rewrap-ok "failed to delete failed outbox event" (delete w1) tt w' h1)
            ∙ letter-Leaves d w w1 (rewrap-ok "failed to write DLQ event" write tt w1 q)

    routed-Leaves :
        (x : Result OutboxRow) (w w' : World)
        → route_row out ev error x w ≡ (ok tt, w')
        → rows_of id w'.store ≡ rows_of id w.store
    unfolding route_row
    routed-Leaves (err e) w w' h = ground arith
    routed-Leaves (ok r) w w' h = elim (Bool-cases (is_failed r.status)) [
      | inl e ↦ moved-Leaves r.retry_count w w' (ground (arith, h))
      | inr e ↦ ground arith
    ]

    fail_tx-Leaves :
        (w w' : World)
        → fail_tx out worker ev error w ≡ (ok tt, w')
        → rows_of id w'.store ≡ rows_of id w.store
    unfolding fail_tx get_outbox_row
    fail_tx-Leaves w w' h = continue-elim h λ _ w1 q h1.
        let row = λ (s : Store). first_row (has_row_id ev.event_id) s.outbox in
        let (s2, _) = query_row-store in_tx row w1 in
        routed-Leaves (query_row in_tx row w1).0 (query_row in_tx row w1).1 w' h1
        ∙ ap (rows_of id) s2
        ∙ marked-Leaves error worker.max_retries w w1 q

    failed-Leaves : (w : World) → Leaves {A = ⊤} id w (with_tx (fail_tx out worker ev error) w)
    failed-Leaves w =
        result-cases (with_tx (fail_tx out worker ev error) w)
          (λ a w' h.
            let (w0, w1, s0, _, run, s1, _) = with_tx-ok (fail_tx out worker ev error) w w' a h in
            rw h (ap (rows_of id) s1 ∙ fail_tx-Leaves w0 w1 run ∙ ap (rows_of id) s0))
          (λ e w' h.
            let kept = with_tx-err (fail_tx out worker ev error) w w' e h in
            rw h (ap (rows_of id) kept))

  pub tried-Leaves :
      (out : Outside) (worker : OutboxWorker) (o : Option String) (w : World)
      → ((after_publish out worker ev o w).0 ≡ ok tt)
        × Leaves id w (after_publish out worker ev o w)
  unfolding after_publish
  tried-Leaves out worker none w = (refl, published-Leaves w)
  tried-Leaves out worker (some error) w = (refl, failed-Leaves out worker error w)
