-- ===== src/Projection/Deliver.antt =====
-- What a delivery that ends without an error has done to the read model.
use offline_pay.Prelude.{
  String, ◌≡◌, refl, true, false, Option, none, some, List, ◌∷◌, ◌⊎◌, inl, inr, arith,
  if◌then◌else◌, Bool-cases, subst, sym, ◌∙◌, Option-cases,
}
use offline_pay.Prelude.Int.{ℤ}
use offline_pay.Domain.{PaymentReadProjection, Time}
use offline_pay.Database.{
  World, Store, Result, ok, err, Error, with_tx, in_tx, direct, query, query_row, find, exists,
  update, projection_key, processed_key, find-key, find-update_self,
}
use offline_pay.Database.Laws.{
  exec-ok, with_tx-ok, continue-elim, query-ok, query_row-ok, query_row-store,
}
use offline_pay.Repository.{
  is_event_processed, get_read_projection, create_or_update_read_projection, mark_event_processed,
  update_projection_checkpoint, merge_projection,
}
use offline_pay.Projection.Worker.{Codec, project, unless_processed, handler_tx, move_checkpoint}

-- The statement, on the rows.
upserted : PaymentReadProjection → List PaymentReadProjection → List PaymentReadProjection
unfolding merge_projection
upserted proj rows =
    if exists projection_key proj.txn_id rows
    then update projection_key proj.txn_id (merge_projection proj) rows
    else proj ∷ rows

upserted-find-none :
    (proj : PaymentReadProjection) (rows : List PaymentReadProjection)
    → find projection_key proj.txn_id rows ≡ none
    → find projection_key proj.txn_id (upserted proj rows) ≡ some proj
unfolding upserted
upserted-find-none proj rows e = ground (arith, e)

upserted-find-some :
    (proj p : PaymentReadProjection) (rows : List PaymentReadProjection)
    → find projection_key proj.txn_id rows ≡ some p
    → find projection_key proj.txn_id (upserted proj rows) ≡ some (merge_projection proj p)
unfolding upserted merge_projection
upserted-find-some proj p rows e =
    let same = find-key projection_key proj.txn_id rows p e in
    ground (arith, e, find-update_self projection_key proj.txn_id (merge_projection proj) rows p)

-- The tables of the read model.
abbrev pub Same : Store → Store → Type 0
Same s s' =
    (s'.projections ≡ s.projections)
    × (s'.processed ≡ s.processed)
    × (s'.checkpoints ≡ s.checkpoints)

written :
    (proj : PaymentReadProjection) (w w' : World)
    → create_or_update_read_projection in_tx proj w ≡ (ok tt, w')
    → (w'.store.projections ≡ upserted proj w.store.projections)
      × (w'.store.processed ≡ w.store.processed)
unfolding create_or_update_read_projection upserted
written proj w w' h = let (e, _) = exec-ok in_tx _ w w' h in (ground arith, ground arith)

marked :
    (event_id : String) (w w' : World)
    → mark_event_processed in_tx event_id w ≡ (ok tt, w')
    → (exists processed_key event_id w'.store.processed ≡ true)
      × (w'.store.projections ≡ w.store.projections)
unfolding mark_event_processed
marked event_id w w' h = let (e, _) = exec-ok in_tx _ w w' h in (ground arith, ground arith)

moved :
    (id : Option ℤ) (w w' : World)
    → move_checkpoint id w ≡ (ok tt, w')
    → (w'.store.projections ≡ w.store.projections) × (w'.store.processed ≡ w.store.processed)
unfolding move_checkpoint update_projection_checkpoint
moved none w w' h = (ground arith, ground arith)
moved (some id) w w' h = let (e, _) = exec-ok in_tx _ w w' h in (ground arith, ground arith)

-- What a row was and what it is: a new one is built, an old one keeps its parties and its amount.
abbrev pub Built :
    (Result PaymentReadProjection → PaymentReadProjection)
    → Option PaymentReadProjection
    → PaymentReadProjection
    → Type 0
Built build none q = (e : Error) × (q ≡ build (err e))
Built build (some p) q = (r : Result PaymentReadProjection) × (q ≡ merge_projection (build r) p)

module _ (codec : Codec) (event_id txn_id : String)
    (build : Time → Result PaymentReadProjection → PaymentReadProjection)
    (keyed : (now : Time) (r : Result PaymentReadProjection)
      → ((p : PaymentReadProjection) → r ≡ ok p → p.txn_id ≡ txn_id)
      → (build now r).txn_id ≡ txn_id) where
  -- What the handler's transaction has done for an event that is new.
  abbrev pub Projected : Time → Store → Store → Type 0
  Projected now s s' =
      (exists processed_key event_id s'.processed ≡ true)
      × ((q : PaymentReadProjection) × (find projection_key txn_id s'.projections ≡ some q)
          × Built (build now) (find projection_key txn_id s.projections) q)

  -- A known event changes nothing; a new one is projected.
  abbrev pub Delivered : Time → Store → Store → Type 0
  Delivered now s s' =
      ((exists processed_key event_id s.processed ≡ true) × Same s s')
      ⊎ ((exists processed_key event_id s.processed ≡ false) × Projected now s s')

  read_row :
      (w : World) (r : Result PaymentReadProjection)
      → (get_read_projection txn_id w).0 ≡ r
      → (p : PaymentReadProjection) → r ≡ ok p
      → find projection_key txn_id w.store.projections ≡ some p
  unfolding get_read_projection
  read_row w r e p h =
      let row = λ (s : Store). find projection_key txn_id s.projections in
      let (found, _, _) =
        query_row-ok direct row w (query_row direct row w).1 p (ground (arith, e, h)) in
      found

  row_after :
      (w : World) (r : Result PaymentReadProjection) (rows : List PaymentReadProjection)
      → ((p : PaymentReadProjection)
          → r ≡ ok p
          → find projection_key txn_id w.store.projections ≡ some p)
      → rows ≡ upserted (build w.now r) w.store.projections
      → (q : PaymentReadProjection) × (find projection_key txn_id rows ≡ some q)
        × Built (build w.now) (find projection_key txn_id w.store.projections) q
  row_after w r rows read e =
      let key : (build w.now r).txn_id ≡ txn_id =
        keyed w.now r (λ p h. find-key projection_key txn_id w.store.projections p (read p h)) in
      elim (Option-cases (find projection_key txn_id w.store.projections)) [
        | inl fresh ↦
            let x = upserted-find-none (build w.now r) w.store.projections (rw key fresh) in
            (build w.now r, rw (← key, e) x, rw fresh (unread r read fresh))
        | inr (p, old) ↦
            let x = upserted-find-some (build w.now r) p w.store.projections (rw key old) in
            (merge_projection (build w.now r) p, rw (← key, e) x, rw old (r, refl))
      ]
    where
      unread :
          (r : Result PaymentReadProjection)
          → ((p : PaymentReadProjection)
              → r ≡ ok p
              → find projection_key txn_id w.store.projections ≡ some p)
          → find projection_key txn_id w.store.projections ≡ none
          → (e : Error) × (build w.now r ≡ build w.now (err e))
      unread (ok p) read fresh = absurd (cc (read p refl))
      unread (err e) read fresh = (e, refl)

  projected :
      (w w' : World)
      → project codec event_id txn_id build w ≡ (ok tt, w')
      → Projected w.now w.store w'.store
  unfolding project get_read_projection
  projected w w' h =
      let x = get_read_projection txn_id w in
      let row = λ (s : Store). find projection_key txn_id s.projections in
      let s1 : x.1.store ≡ w.store = (query_row-store direct row w).0 in
      let n1 : x.1.now ≡ w.now = (query_row-store direct row w).1 in
      continue-elim {x = create_or_update_read_projection in_tx (build x.1.now x.0) x.1} h
        λ _ w2 q2 h2.
          let (rows, _) = written (build x.1.now x.0) x.1 w2 q2 in
          continue-elim {x = mark_event_processed in_tx event_id w2} h2 λ _ w3 q3 h3.
            let (done, same3) = marked event_id w2 w3 q3 in
            let (same4, kept4) = moved (codec.parse_int event_id) w3 w' h3 in
            (
              rw kept4 done,
              row_after w x.0 w'.store.projections (read_row w x.0 refl)
                  (cc (same4, same3, rows, s1, n1)),
            )

  handler_tx-ok :
      (w w' : World)
      → handler_tx codec event_id txn_id build w ≡ (ok tt, w')
      → Delivered w.now w.store w'.store
  unfolding handler_tx unless_processed is_event_processed
  handler_tx-ok w w' h =
      let known = λ (s : Store). exists processed_key event_id s.processed in
      continue-elim {x = query direct known w} h λ done w1 q h1.
        let (e, s1, n1) = query-ok direct known w w1 done q in
        elim (Bool-cases done) [
          | inl seen ↦ inl (e ∙ seen, ground arith)
          | inr new ↦
              let run : project codec event_id txn_id build w1 ≡ (ok tt, w') = ground (arith, h1) in
              inr (
                e ∙ new,
                subst (λ now. Projected now w.store w'.store) n1
                    (subst (λ s. Projected w1.now s w'.store) s1 (projected w1 w' run)),
              )
        ]

  -- The same for the transaction.
  pub handled :
      (w w' : World)
      → with_tx (handler_tx codec event_id txn_id build) w ≡ (ok tt, w')
      → Delivered w.now w.store w'.store
  handled w w' h =
      let (w0, w1, s0, n0, run, s1, _) =
        with_tx-ok (handler_tx codec event_id txn_id build) w w' tt h in
      subst (λ now. Delivered now w.store w'.store) n0
        (subst (λ s. Delivered w0.now s w'.store) s0
          (subst (Delivered w0.now w0.store) (sym s1) (handler_tx-ok w0 w1 run)))
