-- ===== src/Projection/Tests.antt =====
-- Runs of the projection's handlers, and the theorems on them.
use offline_pay.Prelude.{◌≡◌, refl, some, Bool-cases, str_dec}
use offline_pay.Prelude.Int.{pos}
use offline_pay.Domain.{PaymentState, PaymentReadProjection}
use offline_pay.Database.{
  calm, World, empty_store, ok, projection_key, find, with_tx, exec, stmt, query, query_row,
}
use offline_pay.Repository.{
  is_event_processed, get_read_projection, create_or_update_read_projection, mark_event_processed,
  update_projection_checkpoint, merge_projection,
}
use offline_pay.Projection.Worker.{
  Codec, SettledData, FailedData, deliver, payment_settled, handle_payment_settled,
  handle_payment_failed, settled_decoded, failed_decoded, handler_tx, unless_processed, project,
  move_checkpoint, settled_projection, failed_projection, settled_base, failed_base,
}
use offline_pay.Projection.Deliver.{Same}
use offline_pay.Projection.Order.{deliver-idempotent, settled_after_failed}

abbrev settled_data : SettledData
settled_data = record {
  txn_id = "txn-1";
  sender = "alice";
  receiver = "bob";
  amount = pos 40;
  token_id = "tok-1";
  settled_at = 90;
  relay_hops = pos 2;
}

abbrev failed_data : FailedData
failed_data = record {
  txn_id = "txn-1";
  status = PaymentState.failed;
  reason = "late";
  relay_hops = pos 1;
}

abbrev codec : Codec
codec = record {
  settled = λ p. ok settled_data;
  failed = λ p. ok failed_data;
  parse_int = λ id. some (pos 4);
}

abbrev start : World
start = calm empty_store 100

abbrev after_failed : World
after_failed = (handle_payment_failed codec "1" "{}" start).1

abbrev after_settled : World
after_settled = (handle_payment_settled codec "2" "{}" after_failed).1

deliver-idempotent_example :
    Same
      (deliver codec payment_settled "2" "{}" start).1.store
      (deliver codec payment_settled "2" "{}"
        (deliver codec payment_settled "2" "{}" start).1).1.store
unfolding deliver handle_payment_settled settled_decoded handler_tx unless_processed project
    move_checkpoint settled_projection settled_base is_event_processed get_read_projection
    create_or_update_read_projection mark_event_processed update_projection_checkpoint
    merge_projection with_tx exec stmt query query_row str_dec Bool-cases
deliver-idempotent_example =
    deliver-idempotent codec "2" payment_settled payment_settled "{}" "{}" start
      (deliver codec payment_settled "2" "{}" start).1
      (deliver codec payment_settled "2" "{}" (deliver codec payment_settled "2" "{}" start).1).1
      refl refl

settled_after_failed_example :
    (q : PaymentReadProjection) × (find projection_key "txn-1" after_settled.store.projections
      ≡ some q)
    × (q.status ≡ PaymentState.settled)
    × (q.sender_id ≡ "UNKNOWN")
    × (q.receiver_id ≡ "UNKNOWN")
    × (q.amount ≡ pos 0)
unfolding handle_payment_settled settled_decoded handler_tx unless_processed project move_checkpoint
    settled_projection settled_base is_event_processed get_read_projection
    create_or_update_read_projection mark_event_processed update_projection_checkpoint
    merge_projection with_tx exec stmt query query_row str_dec Bool-cases handle_payment_failed
    failed_decoded failed_projection failed_base
settled_after_failed_example =
    settled_after_failed codec "1" "2" "{}" "{}" failed_data settled_data start after_failed
      after_settled refl refl refl refl refl refl refl refl
