-- ===== src/Projection/Worker.antt =====
-- `HandlePaymentSettled`, `HandlePaymentFailed` and `exportLag`. JSON and `strconv.ParseInt` are
-- parameters.
use offline_pay.Prelude.{String, Bool, true, false, Option, none, some, if◌then◌else◌}
use offline_pay.Prelude.Int.{ℤ, pos, sub64, ltb_ℤ}
use offline_pay.Domain.{PaymentState, PaymentReadProjection, Time}
use offline_pay.Database.{
  Result, ok, err, ⊤, Db, ◌>>=◌, ◌>>◌, pure, raise, attempt, clock, with_tx, in_tx,
}
use offline_pay.Repository.{
  is_event_processed, get_read_projection, create_or_update_read_projection, mark_event_processed,
  update_projection_checkpoint, get_latest_outbox_event_id, get_projection_checkpoint,
}

-- The payload of payment.settled and that of payment.failed.
pub record SettledData : Type 0 where
  pub txn_id : String
  pub sender : String
  pub receiver : String
  pub amount : ℤ
  pub token_id : String
  pub settled_at : Time
  pub relay_hops : ℤ

pub record FailedData : Type 0 where
  pub txn_id : String
  pub status : PaymentState
  pub reason : String
  pub relay_hops : ℤ

pub record Codec : Type 0 where
  pub settled : String → Result SettledData
  pub failed : String → Result FailedData
  pub parse_int : String → Option ℤ

-- The row as it was read; after an error of the read, a new one.
unfoldable pub settled_base : SettledData → Result PaymentReadProjection → PaymentReadProjection
settled_base d (ok proj) = proj
settled_base d (err e) = record {
  txn_id = d.txn_id;
  sender_id = d.sender;
  receiver_id = d.receiver;
  amount = d.amount;
  status = PaymentState.other "";
  relay_hops = pos 0;
  settled_at = none;
  updated_at = 0;
}

unfoldable pub failed_base : FailedData → Result PaymentReadProjection → PaymentReadProjection
failed_base d (ok proj) = proj
failed_base d (err e) = record {
  txn_id = d.txn_id;
  sender_id = "UNKNOWN";
  receiver_id = "UNKNOWN";
  amount = pos 0;
  status = PaymentState.other "";
  relay_hops = pos 0;
  settled_at = none;
  updated_at = 0;
}

unfoldable pub settled_projection :
    SettledData → Time → Result PaymentReadProjection → PaymentReadProjection
unfolding settled_base
settled_projection d now r = record (settled_base d r) {
  status = PaymentState.settled;
  relay_hops = d.relay_hops;
  settled_at = some d.settled_at;
  updated_at = now;
}

unfoldable pub failed_projection :
    FailedData → Time → Result PaymentReadProjection → PaymentReadProjection
unfolding failed_base
failed_projection d now r = record (failed_base d r) {
  status = d.status;
  relay_hops = d.relay_hops;
  updated_at = now;
}

-- An id that is no number moves no checkpoint.
unfoldable pub move_checkpoint : Option ℤ → Db ⊤
move_checkpoint none = pure tt
move_checkpoint (some id) = update_projection_checkpoint in_tx "payment-projection" id

-- The writes of both handlers; `build` makes the row from the one that was read.
unfoldable pub project :
    Codec → String → String → (Time → Result PaymentReadProjection → PaymentReadProjection) → Db ⊤
unfolding move_checkpoint
project codec event_id txn_id build = do
  r ← attempt (get_read_projection txn_id)
  now ← clock
  create_or_update_read_projection in_tx (build now r)
  mark_event_processed in_tx event_id
  move_checkpoint (codec.parse_int event_id)

unfoldable pub unless_processed : Bool → Db ⊤ → Db ⊤
unless_processed true m = pure tt
unless_processed false m = m

unfoldable pub handler_tx :
    Codec → String → String → (Time → Result PaymentReadProjection → PaymentReadProjection) → Db ⊤
unfolding project unless_processed
handler_tx codec event_id txn_id build = do
  done ← is_event_processed event_id
  unless_processed done (project codec event_id txn_id build)

unfoldable pub settled_decoded : Codec → String → Result SettledData → Db ⊤
unfolding handler_tx settled_projection
settled_decoded codec event_id (err e) = raise e
settled_decoded codec event_id (ok d) =
    with_tx (handler_tx codec event_id d.txn_id (settled_projection d))

unfoldable pub failed_decoded : Codec → String → Result FailedData → Db ⊤
unfolding handler_tx failed_projection
failed_decoded codec event_id (err e) = raise e
failed_decoded codec event_id (ok d) =
    with_tx (handler_tx codec event_id d.txn_id (failed_projection d))

-- `HandlePaymentSettled`
unfoldable pub handle_payment_settled : Codec → String → String → Db ⊤
unfolding settled_decoded
handle_payment_settled codec event_id payload =
    settled_decoded codec event_id (codec.settled payload)

-- `HandlePaymentFailed`
unfoldable pub handle_payment_failed : Codec → String → String → Db ⊤
unfolding failed_decoded
handle_payment_failed codec event_id payload = failed_decoded codec event_id (codec.failed payload)

-- The streams that `Start` subscribes to.
pub data Stream : Type 0 where
  payment_settled payment_failed : Stream

unfoldable pub deliver : Codec → Stream → String → String → Db ⊤
unfolding handle_payment_settled handle_payment_failed
deliver codec payment_settled event_id payload = handle_payment_settled codec event_id payload
deliver codec payment_failed event_id payload = handle_payment_failed codec event_id payload

-- A negative lag counts as 0.
unfoldable pub projection_lag : ℤ → ℤ → ℤ
projection_lag max_id checkpoint_id =
    let lag = sub64 max_id checkpoint_id in if ltb_ℤ lag (pos 0) then pos 0 else lag

-- `exportLag`: the value of the gauge; after an error it is not set.
unfoldable pub export_lag : Db ℤ
unfolding projection_lag
export_lag = do
  max_id ← get_latest_outbox_event_id
  checkpoint_id ← get_projection_checkpoint "payment-projection"
  pure (projection_lag (pos max_id) checkpoint_id)
