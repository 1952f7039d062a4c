-- ===== src/Projection/Order.antt =====
-- Deliveries one after the other: the same event twice, and two events of one payment.
use offline_pay.Prelude.{
  String, ◌≡◌, refl, true, false, Option, none, some, inl, inr, arith, subst, ◌∙◌,
}
use offline_pay.Prelude.Int.{pos}
use offline_pay.Domain.{PaymentState, PaymentReadProjection, Time}
use offline_pay.Database.{World, Result, ok, err, find, exists, projection_key, processed_key}
use offline_pay.Repository.{merge_projection}
use offline_pay.Projection.Worker.{
  Codec, SettledData, FailedData, settled_base, failed_base, settled_projection, failed_projection,
  settled_decoded, failed_decoded, handle_payment_settled, handle_payment_failed, Stream,
  payment_settled, payment_failed, deliver,
}
use offline_pay.Projection.Deliver.{Same, Built, Delivered, handled}

settled-keyed :
    (d : SettledData) (now : Time) (r : Result PaymentReadProjection)
    → ((p : PaymentReadProjection) → r ≡ ok p → p.txn_id ≡ d.txn_id)
    → (settled_projection d now r).txn_id ≡ d.txn_id
unfolding settled_projection settled_base
settled-keyed d now (ok p) h = h p refl
settled-keyed d now (err e) h = refl

failed-keyed :
    (d : FailedData) (now : Time) (r : Result PaymentReadProjection)
    → ((p : PaymentReadProjection) → r ≡ ok p → p.txn_id ≡ d.txn_id)
    → (failed_projection d now r).txn_id ≡ d.txn_id
unfolding failed_projection failed_base
failed-keyed d now (ok p) h = h p refl
failed-keyed d now (err e) h = refl

module _ (codec : Codec) (event_id : String) where
  abbrev SettledRun : SettledData → World → World → Type 0
  SettledRun d w w' =
      Delivered codec event_id d.txn_id (settled_projection d) (settled-keyed d) w.now w.store
        w'.store

  abbrev FailedRun : FailedData → World → World → Type 0
  FailedRun d w w' =
      Delivered codec event_id d.txn_id (failed_projection d) (failed-keyed d) w.now w.store
        w'.store

  settled_decoded-ok :
      (r : Result SettledData) (w w' : World)
      → settled_decoded codec event_id r w ≡ (ok tt, w')
      → (d : SettledData) × (r ≡ ok d) × SettledRun d w w'
  unfolding settled_decoded
  settled_decoded-ok (ok d) w w' h =
      (d, refl, handled codec event_id d.txn_id (settled_projection d) (settled-keyed d) w w' h)
  settled_decoded-ok (err e) w w' h = absurd (cc)

  failed_decoded-ok :
      (r : Result FailedData) (w w' : World)
      → failed_decoded codec event_id r w ≡ (ok tt, w')
      → (d : FailedData) × (r ≡ ok d) × FailedRun d w w'
  unfolding failed_decoded
  failed_decoded-ok (ok d) w w' h =
      (d, refl, handled codec event_id d.txn_id (failed_projection d) (failed-keyed d) w w' h)
  failed_decoded-ok (err e) w w' h = absurd (cc)

  -- Whichever handler ran: the event is known afterwards, and changes nothing if it was before.
  deliver-processed :
      (stream : Stream) (payload : String) (w w' : World)
      → deliver codec stream event_id payload w ≡ (ok tt, w')
      → (exists processed_key event_id w'.store.processed ≡ true)
        × (exists processed_key event_id w.store.processed ≡ true → Same w.store w'.store)
  unfolding deliver handle_payment_settled handle_payment_failed
  deliver-processed payment_settled payload w w' h =
      let (d, _, run) = settled_decoded-ok (codec.settled payload) w w' h in
      elim run [
        | inl (seen, same) ↦ (rw same.1 seen, λ _. same)
        | inr (new, effect) ↦ (effect.0, λ e. absurd (cc))
      ]
  deliver-processed payment_failed payload w w' h =
      let (d, _, run) = failed_decoded-ok (codec.failed payload) w w' h in
      elim run [
        | inl (seen, same) ↦ (rw same.1 seen, λ _. same)
        | inr (new, effect) ↦ (effect.0, λ e. absurd (cc))
      ]

  -- A delivery is idempotent: once an event has been delivered without an error, a later delivery
  -- of the same event id, on either stream and with whatever payload, that ends without an error
  -- leaves the projections, the processed events and the checkpoints as they are.
  pub deliver-idempotent :
      (first second : Stream) (payload payload' : String) (w w1 w2 : World)
      → deliver codec first event_id payload w ≡ (ok tt, w1)
      → deliver codec second event_id payload' w1 ≡ (ok tt, w2)
      → Same w1.store w2.store
  deliver-idempotent first second payload payload' w w1 w2 h k =
      let (known, _) = deliver-processed first payload w w1 h in
      let (_, same) = deliver-processed second payload' w1 w2 k in same known

-- The row of a payment that the event has settled.
pub record IsSettledView (d : SettledData) (q : PaymentReadProjection) : Type 0 where
  pub status : q.status ≡ PaymentState.settled
  pub hops : q.relay_hops ≡ d.relay_hops
  pub time : q.settled_at ≡ some d.settled_at

-- Its parties and its amount: those of the row that was there, or else those of the event.
abbrev pub Parties : SettledData → Option PaymentReadProjection → PaymentReadProjection → Type 0
Parties d none q = (q.sender_id ≡ d.sender) × (q.receiver_id ≡ d.receiver) × (q.amount ≡ d.amount)
Parties d (some p) q =
    (q.sender_id ≡ p.sender_id) × (q.receiver_id ≡ p.receiver_id) × (q.amount ≡ p.amount)

settled-view :
    (d : SettledData) (now : Time) (old : Option PaymentReadProjection) (q : PaymentReadProjection)
    → Built (settled_projection d now) old q
    → IsSettledView d q × Parties d old q
unfolding settled_projection settled_base merge_projection
settled-view d now none q (e, built) =
    (record { status = ground arith; hops = ground arith; time = ground arith }, ground arith)
settled-view d now (some p) q (r, built) =
    (record { status = ground arith; hops = ground arith; time = ground arith }, ground arith)

-- A new payment.settled event that is handled without an error leaves the payment's row SETTLED,
-- with the event's relay hops and time; the sender, the receiver and the amount stay if there was a
-- row, and are the event's if there was none.
pub handle_payment_settled-view :
    (codec : Codec) (event_id payload : String) (d : SettledData) (w w' : World)
    → codec.settled payload ≡ ok d
    → exists processed_key event_id w.store.processed ≡ false
    → handle_payment_settled codec event_id payload w ≡ (ok tt, w')
    → (q : PaymentReadProjection) × (find projection_key d.txn_id w'.store.projections ≡ some q)
      × IsSettledView d q
      × Parties d (find projection_key d.txn_id w.store.projections) q
unfolding handle_payment_settled settled_decoded
handle_payment_settled-view codec event_id payload d w w' e new h =
    let run = subst (λ r. settled_decoded codec event_id r w ≡ (ok tt, w')) e h in
    elim (handled codec event_id d.txn_id (settled_projection d) (settled-keyed d) w w' run) [
      | inl (seen, _) ↦ absurd (cc)
      | inr (_, effect) ↦
          let (_, (q, found, built)) = effect in
          let (view, parties) =
            settled-view d w.now (find projection_key d.txn_id w.store.projections) q built in
          (q, found, view, parties)
    ]

failed-view :
    (d : FailedData) (now : Time) (old : Option PaymentReadProjection) (q : PaymentReadProjection)
    → Built (failed_projection d now) old q
    → old ≡ none
    → (q.sender_id ≡ "UNKNOWN") × (q.receiver_id ≡ "UNKNOWN") × (q.amount ≡ pos 0)
unfolding failed_projection failed_base
failed-view d now none q (e, built) _ = ground arith
failed-view d now (some p) q (r, built) h = absurd (cc)

-- A payment that is first reported as failed never gets its parties: if it has no row, and a new
-- payment.failed event and then a new payment.settled event of it are handled without an error,
-- its row is SETTLED, but with the sender and the receiver UNKNOWN and the amount 0, whatever the
-- settled event says.
pub settled_after_failed :
    (codec : Codec) (i j payload payload' : String) (f : FailedData) (d : SettledData)
    (w w1 w2 : World)
    → codec.failed payload ≡ ok f
    → codec.settled payload' ≡ ok d
    → f.txn_id ≡ d.txn_id
    → find projection_key d.txn_id w.store.projections ≡ none
    → exists processed_key i w.store.processed ≡ false
    → handle_payment_failed codec i payload w ≡ (ok tt, w1)
    → exists processed_key j w1.store.processed ≡ false
    → handle_payment_settled codec j payload' w1 ≡ (ok tt, w2)
    → (q : PaymentReadProjection) × (find projection_key d.txn_id w2.store.projections ≡ some q)
      × (q.status ≡ PaymentState.settled)
      × (q.sender_id ≡ "UNKNOWN")
      × (q.receiver_id ≡ "UNKNOWN")
      × (q.amount ≡ pos 0)
unfolding handle_payment_failed failed_decoded
settled_after_failed codec i j payload payload' f d w w1 w2 ef ed same fresh new h new' k =
    let run = subst (λ r. failed_decoded codec i r w ≡ (ok tt, w1)) ef h in
    elim (handled codec i f.txn_id (failed_projection f) (failed-keyed f) w w1 run) [
      | inl (seen, _) ↦ absurd (cc)
      | inr (_, effect) ↦
          let (_, (p, found, built)) = effect in
          let fresh' : find projection_key f.txn_id w.store.projections ≡ none = rw same fresh in
          let (a, b, c) =
            failed-view f w.now (find projection_key f.txn_id w.store.projections) p built fresh' in
          let (q, at, view, parties) =
            handle_payment_settled-view codec j payload' d w1 w2 ed new' k in
          let there : find projection_key d.txn_id w1.store.projections ≡ some p =
            rw (← same) found in
          let kept : Parties d (some p) q = subst (λ o. Parties d o q) there parties in
          (q, at, view.status, kept.0 ∙ a, kept.1 ∙ b, kept.2 ∙ c)
    ]
