-- ===== src/EventSource/Tests.antt =====
-- A replay of a payment that has been settled.
use offline_pay.Prelude.{ℕ, ◌+◌, String, ◌≡◌, refl, none, [], ◌∷◌, Bool-cases, str_dec}
use offline_pay.Prelude.Int.{pos}
use offline_pay.Domain.{PaymentIntent, PaymentEvent, PaymentIntentPayload}
use offline_pay.Database.{Store, empty_store, calm, ok}
use offline_pay.Repository.{events_of}
use offline_pay.EventSource.Replay.{EventCodec, replay}
use offline_pay.EventSource.Parties.{replay_anonymous}
use text.Mathlib.TextEquality.{eq_iff}

abbrev payload : PaymentIntentPayload
payload = record {
  txn_id = "txn-1";
  sender_id = "alice";
  receiver_id = "bob";
  amount = pos 40;
  currency = "INR";
  nonce = "n-1";
  expiry = 900;
  device_id = "dev-1";
  token_id = "tok-1";
}

abbrev codec : EventCodec
codec = record { created = λ p. ok payload; hop_count = λ p. none; reason = λ p. none }

abbrev event : ℕ → String → PaymentEvent
event version type = record {
  txn_id = "txn-1";
  event_type = type;
  event_version = version;
  payload = "{}";
  created_at = 100 + version;
}

abbrev tables : Store
tables = record empty_store { events = event 1 "IntentSettled" ∷ [] }

replay_anonymous_example :
    (i : PaymentIntent) × ((replay codec "txn-1" (calm tables 200)).0 ≡ ok i)
    × (i.txn_id ≡ "")
    × (i.sender_id ≡ "")
    × (i.receiver_id ≡ "")
    × (i.amount ≡ pos 0)
unfolding events_of str_dec Bool-cases
replay_anonymous_example =
    replay_anonymous codec "txn-1" tables 200 (event 1 "IntentSettled") [] refl refl
      ((λ h. cc ((eq_iff "IntentSettled" "IntentCreated").1 h)), tt)
