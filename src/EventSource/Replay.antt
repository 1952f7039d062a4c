-- ===== src/EventSource/Replay.antt =====
-- `Replay` and `applyEvent`. JSON is a parameter; a snapshot is stored as the payment it decodes to.
use offline_pay.Prelude.{
  ℕ, String, Bool, true, false, Option, none, some, List, [], ◌∷◌, if◌then◌else◌, ite, leb, str_dec,
}
use offline_pay.Prelude.Int.{ℤ, pos}
use offline_pay.Domain.{PaymentState, PaymentIntent, PaymentIntentPayload, PaymentEvent}
use offline_pay.Database.{
  Error, Result, ok, err, Db, ◌>>=◌, pure, raise, wrap_error, PaymentSnapshot,
}
use offline_pay.Repository.{get_payment_snapshot, get_payment_events}

-- `json.Unmarshal` of a payload, and the fields `hop_count` and `reason` where they are a number
-- and a text.
pub record EventCodec : Type 0 where
  pub created : String → Result PaymentIntentPayload
  pub hop_count : String → Option ℤ
  pub reason : String → Option String

-- `var intent domain.PaymentIntent`
unfoldable pub zero_intent : PaymentIntent
zero_intent = record {
  txn_id = "";
  sender_id = "";
  receiver_id = "";
  amount = pos 0;
  currency = "";
  nonce = "";
  expiry = 0;
  status = PaymentState.other "";
  device_id = "";
  token_id = "";
  failure_reason = none;
  settled_at = none;
  rejected_at = none;
  relay_hops = pos 0;
  signature_hash = "";
  created_at = 0;
  updated_at = 0;
}

unfoldable pub apply_created :
    PaymentEvent → PaymentIntent → Result PaymentIntentPayload → Result PaymentIntent
apply_created ev intent (err e) = err e
apply_created ev intent (ok p) = ok (record intent {
  txn_id = p.txn_id;
  sender_id = p.sender_id;
  receiver_id = p.receiver_id;
  amount = p.amount;
  currency = p.currency;
  nonce = p.nonce;
  expiry = p.expiry;
  device_id = p.device_id;
  token_id = p.token_id;
  status = PaymentState.created;
  created_at = ev.created_at;
})

abbrev pub value_or {ℓ} : {A : Type ℓ} → Option A → A → A
value_or none old = old
value_or (some a) old = a

abbrev pub some_or {ℓ} : {A : Type ℓ} → Option A → Option A → Option A
some_or none old = old
some_or (some a) old = some a

-- The cases `IntentRejected` and `IntentFailed`.
unfoldable pub close_intent :
    EventCodec → PaymentState → PaymentEvent → PaymentIntent → PaymentIntent
close_intent codec status ev intent = record intent {
  failure_reason = some_or (codec.reason ev.payload) intent.failure_reason;
  rejected_at = some ev.created_at;
  status = status;
}

abbrev pub is_type : PaymentEvent → String → Bool
is_type ev name = ite (str_dec ev.event_type name) true false

-- The `switch` on the event's type.
unfoldable pub apply_type : EventCodec → PaymentIntent → PaymentEvent → Result PaymentIntent
unfolding apply_created close_intent
apply_type codec intent ev =
    if is_type ev "IntentCreated"
    then apply_created ev intent (codec.created ev.payload)
    else if is_type ev "IntentSigned"
    then ok (record intent { status = PaymentState.signed })
    else if is_type ev "IntentEncrypted"
    then ok (record intent { status = PaymentState.encrypted })
    else if is_type ev "IntentRelayed"
    then ok (record intent {
      relay_hops = value_or (codec.hop_count ev.payload) intent.relay_hops;
      status = PaymentState.relayed;
    })
    else if is_type ev "IntentValidated"
    then ok (record intent { status = PaymentState.validated })
    else if is_type ev "IntentReserved"
    then ok (record intent { status = PaymentState.reserved })
    else if is_type ev "IntentSettled"
    then ok (record intent { settled_at = some ev.created_at; status = PaymentState.settled })
    else if is_type ev "IntentRejected"
    then ok (close_intent codec PaymentState.rejected ev intent)
    else if is_type ev "IntentFailed"
    then ok (close_intent codec PaymentState.failed ev intent)
    else ok intent

-- `applyEvent`
unfoldable pub apply_event : EventCodec → PaymentIntent → PaymentEvent → Result PaymentIntent
unfolding apply_type
apply_event codec intent ev = apply_type codec (record intent { updated_at = ev.created_at }) ev

abbrev pub then_apply :
    Result PaymentIntent → (PaymentIntent → Result PaymentIntent) → Result PaymentIntent
then_apply (ok intent) f = f intent
then_apply (err e) f = err (Error.wrap "failed to apply event version" e)

-- `continue` for an event up to the snapshot's version, or else its application.
unfoldable pub skip_or_apply :
    EventCodec
    → Bool
    → PaymentIntent
    → PaymentEvent
    → (PaymentIntent → Result PaymentIntent)
    → Result PaymentIntent
unfolding apply_event
skip_or_apply codec true intent ev rest = rest intent
skip_or_apply codec false intent ev rest = then_apply (apply_event codec intent ev) rest

-- The loop over the events.
unfoldable pub apply_events :
    EventCodec → ℕ → PaymentIntent → List PaymentEvent → Result PaymentIntent
unfolding skip_or_apply
apply_events codec start_version intent [] = ok intent
apply_events codec start_version intent (ev ∷ events) =
    skip_or_apply codec (leb ev.event_version start_version) intent ev
      (λ next. apply_events codec start_version next events)

-- The payment and the version to start from.
unfoldable pub base_of : Option PaymentSnapshot → PaymentIntent × ℕ
base_of none = (zero_intent, 0)
base_of (some snap) = (snap.snapshot_data, snap.aggregate_version)

-- Without an event and without a transaction id there is no such payment.
unfoldable pub found_or_missing : List PaymentEvent → Result PaymentIntent → Db PaymentIntent
found_or_missing events (err e) = raise e
found_or_missing [] (ok intent) = ite (str_dec intent.txn_id "") (raise Error.no_rows) (pure intent)
found_or_missing (ev ∷ events) (ok intent) = pure intent

-- `Replay`
unfoldable pub replay : EventCodec → String → Db PaymentIntent
unfolding apply_events base_of found_or_missing
replay codec txn_id = do
  snap ← wrap_error "failed to load snapshot" (get_payment_snapshot txn_id)
  events ← wrap_error "failed to retrieve events" (get_payment_events txn_id)
  found_or_missing events (apply_events codec (base_of snap).1 (base_of snap).0 events)
