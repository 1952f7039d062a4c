-- ===== src/Settlement/Publish.antt =====
-- PUBLISH (internal/settlement/service.go) writes events, messages and audits only.
use offline_pay.Prelude.{String, ◌≡◌, arith}
use offline_pay.Domain.{Time, PaymentIntent, PaymentEvent, AuditEvent}
use offline_pay.Database.{
  World, Store, Result, ok, err, find, wrap_error, direct, in_tx, query_row, intent_key,
}
use offline_pay.Database.Laws.{continue-elim, rewrap-ok, exec-ok, query_row-store}
use offline_pay.Repository.{
  create_audit_event, create_outbox_event, create_payment_event, get_payment_intent,
}
use offline_pay.EventSource.{save_event_and_snapshot}
use offline_pay.Settlement.Steps.{
  Payment, publish_action, save_settled, settled_fields, audit_fields,
}

-- Only the tables of events, messages and audits differ.
abbrev pub LogsOnly : Store → Store → Type 0
LogsOnly s s' = s' ≡ record s {
  audits = s'.audits;
  outbox = s'.outbox;
  next_outbox_id = s'.next_outbox_id;
  events = s'.events;
  snapshots = s'.snapshots;
}

pub LogsOnly-trans : (r s t : Store) → LogsOnly r s → LogsOnly s t → LogsOnly r t
LogsOnly-trans r s t a b = ground arith

module _ (w w' : World) where
  pub create_audit_event-logs :
      (e : AuditEvent) → create_audit_event in_tx e w ≡ (ok tt, w') → LogsOnly w.store w'.store
  unfolding create_audit_event
  create_audit_event-logs e h = let (q, _) = exec-ok in_tx _ w w' h in ground arith

  pub create_outbox_event-logs :
      (stream event_type payload : String)
      → create_outbox_event in_tx stream event_type payload w ≡ (ok tt, w')
      → LogsOnly w.store w'.store
  unfolding create_outbox_event
  create_outbox_event-logs stream event_type payload h =
      let (q, _) = exec-ok in_tx _ w w' h in ground arith

  pub create_payment_event-logs :
      (e : PaymentEvent) → create_payment_event in_tx e w ≡ (ok tt, w') → LogsOnly w.store w'.store
  unfolding create_payment_event
  create_payment_event-logs e h = let (q, _) = exec-ok in_tx _ w w' h in ground arith

-- At version 1 no snapshot is due.
pub save_settled-logs :
    (x : Payment) (now : Time) (r : Result PaymentIntent) (w w' : World)
    → save_settled x now r w ≡ (ok tt, w')
    → LogsOnly w.store w'.store
unfolding save_event_and_snapshot
save_settled-logs x now (err e) w w' h = ground arith
save_settled-logs x now (ok intent) w w' h =
    let event : PaymentEvent = record {
      txn_id = x.p.txn_id;
      event_type = "IntentSettled";
      event_version = 1;
      payload = x.platform.marshal (settled_fields x now);
      created_at = w.now;
    } in
    continue-elim
      {x = wrap_error "failed to save versioned event" (create_payment_event in_tx event) w}
      {f = λ _ v. (ok tt, v)} h
      (λ u v q h1.
        let r =
          create_payment_event-logs w v event
            (rewrap-ok _ (create_payment_event in_tx event w) tt v q) in
        ground arith)

pub publish_action-ok :
    (x : Payment) (w w' : World) → publish_action x w ≡ (ok tt, w') → LogsOnly w.store w'.store
unfolding publish_action get_payment_intent
publish_action-ok x w w' h =
    continue-elim
      {x = create_audit_event in_tx
        (record {
          txn_id = x.p.txn_id;
          event_type = "PaymentSettled";
          payload = x.platform.marshal (audit_fields x);
          created_at = 0;
        })
        w}
      h
      (λ u w1 q1 h1.
        continue-elim
          {x = create_outbox_event in_tx "payment.settled" "PaymentSettled"
            (x.platform.marshal (settled_fields x w.now)) w1}
          h1
          (λ v w2 q2 h2.
            let read = λ (s : Store). find intent_key x.p.txn_id s.intents in
            let y = query_row direct read w2 in
            let (s, m) = query_row-store direct read w2 in
            let l1 = create_audit_event-logs w w1 _ q1 in
            let l2 = create_outbox_event-logs w1 w2 _ _ _ q2 in
            let l3 = save_settled-logs x w.now y.0 y.1 w' h2 in
            LogsOnly-trans w.store w1.store w'.store l1
              (LogsOnly-trans w1.store w2.store w'.store l2 (ground arith))))
