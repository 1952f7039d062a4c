-- ===== src/EventSource/Parties.antt =====
-- What a replay without an event IntentCreated knows of the payment. `Settle` saves no such event:
-- only IntentSettled and IntentFailed.
use offline_pay.Prelude.{
  ℕ, String, ◌≡◌, ◌≢◌, refl, ◌∙◌, Bool, true, false, none, List, [], ◌∷◌, leb, arith, Bool-cases,
  inl, inr,
}
use offline_pay.Prelude.Int.{pos}
use offline_pay.Domain.{PaymentIntent, PaymentEvent, Time}
use offline_pay.Database.{Store, Result, ok, err, calm, find, snapshot_key, query, stmt}
use offline_pay.Repository.{events_of, get_payment_snapshot, get_payment_events}
use offline_pay.EventSource.Replay.{
  EventCodec, zero_intent, close_intent, apply_type, apply_event, then_apply, skip_or_apply,
  apply_events, base_of, found_or_missing, replay, is_type,
}

abbrev pub NoneCreated : List PaymentEvent → Type 0
NoneCreated [] = Unit {0}
NoneCreated (ev ∷ events) = (ev.event_type ≢ "IntentCreated") × NoneCreated events

-- The same transaction between the same parties.
pub record SamePayment (i j : PaymentIntent) : Type 0 where
  pub txn_id : j.txn_id ≡ i.txn_id
  pub sender_id : j.sender_id ≡ i.sender_id
  pub receiver_id : j.receiver_id ≡ i.receiver_id
  pub amount : j.amount ≡ i.amount

-- No error, and the same payment.
abbrev Keeps : PaymentIntent → Result PaymentIntent → Type 0
Keeps i (ok j) = SamePayment i j
Keeps i (err e) = ⊥

same_payment : (i : PaymentIntent) → SamePayment i i
same_payment i = record { txn_id = refl; sender_id = refl; receiver_id = refl; amount = refl }

apply_event-Keeps :
    (codec : EventCodec) (i : PaymentIntent) (ev : PaymentEvent)
    → ev.event_type ≢ "IntentCreated"
    → Keeps i (apply_event codec i ev)
unfolding apply_event apply_type close_intent
apply_event-Keeps codec i ev other = elim (Bool-cases (is_type ev "IntentCreated")) [
  | inl created ↦ absurd (other (ground arith))
  | inr e0 ↦ elim (Bool-cases (is_type ev "IntentSigned")) [
    | inl hit ↦
        rw (e0, hit) (record { txn_id = refl; sender_id = refl; receiver_id = refl; amount = refl })
    | inr e1 ↦ elim (Bool-cases (is_type ev "IntentEncrypted")) [
      | inl hit ↦
          rw (e0, e1, hit)
            (record { txn_id = refl; sender_id = refl; receiver_id = refl; amount = refl })
      | inr e2 ↦ elim (Bool-cases (is_type ev "IntentRelayed")) [
        | inl hit ↦
            rw (e0, e1, e2, hit)
              (record { txn_id = refl; sender_id = refl; receiver_id = refl; amount = refl })
        | inr e3 ↦ elim (Bool-cases (is_type ev "IntentValidated")) [
          | inl hit ↦
              rw (e0, e1, e2, e3, hit)
                (record { txn_id = refl; sender_id = refl; receiver_id = refl; amount = refl })
          | inr e4 ↦ elim (Bool-cases (is_type ev "IntentReserved")) [
            | inl hit ↦
                rw (e0, e1, e2, e3, e4, hit)
                  (record { txn_id = refl; sender_id = refl; receiver_id = refl; amount = refl })
            | inr e5 ↦ elim (Bool-cases (is_type ev "IntentSettled")) [
              | inl hit ↦
                  rw (e0, e1, e2, e3, e4, e5, hit)
                    (record { txn_id = refl; sender_id = refl; receiver_id = refl; amount = refl })
              | inr e6 ↦ elim (Bool-cases (is_type ev "IntentRejected")) [
                | inl hit ↦
                    rw (e0, e1, e2, e3, e4, e5, e6, hit)
                      (record {
                        txn_id = refl;
                        sender_id = refl;
                        receiver_id = refl;
                        amount = refl;
                      })
                | inr e7 ↦ elim (Bool-cases (is_type ev "IntentFailed")) [
                  | inl hit ↦
                      rw (e0, e1, e2, e3, e4, e5, e6, e7, hit)
                        (record {
                          txn_id = refl;
                          sender_id = refl;
                          receiver_id = refl;
                          amount = refl;
                        })
                  | inr e8 ↦
                      rw (e0, e1, e2, e3, e4, e5, e6, e7, e8)
                        (record {
                          txn_id = refl;
                          sender_id = refl;
                          receiver_id = refl;
                          amount = refl;
                        })
                ]
              ]
            ]
          ]
        ]
      ]
    ]
  ]
]

SamePayment-trans : (i j k : PaymentIntent) → SamePayment i j → SamePayment j k → SamePayment i k
SamePayment-trans i j k a b = record {
  txn_id = b.txn_id ∙ a.txn_id;
  sender_id = b.sender_id ∙ a.sender_id;
  receiver_id = b.receiver_id ∙ a.receiver_id;
  amount = b.amount ∙ a.amount;
}

then_apply-Keeps :
    (i : PaymentIntent) (r : Result PaymentIntent) (f : PaymentIntent → Result PaymentIntent)
    → Keeps i r
    → ((j : PaymentIntent) → Keeps j (f j))
    → Keeps i (then_apply r f)
then_apply-Keeps i (err e) f h k = absurd h
then_apply-Keeps i (ok j) f h k = followed (f j) (k j)
  where
    followed : (r : Result PaymentIntent) → Keeps j r → Keeps i r
    followed (ok l) b = SamePayment-trans i j l h b
    followed (err e) b = absurd b

skip_or_apply-Keeps :
    (codec : EventCodec) (b : Bool) (i : PaymentIntent) (ev : PaymentEvent)
    (f : PaymentIntent → Result PaymentIntent)
    → ev.event_type ≢ "IntentCreated"
    → ((j : PaymentIntent) → Keeps j (f j))
    → Keeps i (skip_or_apply codec b i ev f)
unfolding skip_or_apply
skip_or_apply-Keeps codec true i ev f other k = k i
skip_or_apply-Keeps codec false i ev f other k =
    then_apply-Keeps i (apply_event codec i ev) f (apply_event-Keeps codec i ev other) k

apply_events-Keeps :
    (codec : EventCodec) (v : ℕ) (i : PaymentIntent) (events : List PaymentEvent)
    → NoneCreated events
    → Keeps i (apply_events codec v i events)
unfolding apply_events
apply_events-Keeps codec v i [] h = same_payment i
apply_events-Keeps codec v i (ev ∷ events) (other, h) =
    skip_or_apply-Keeps codec (leb ev.event_version v) i ev
      (λ next. apply_events codec v next events) other
      (λ next. apply_events-Keeps codec v next events h)

-- On a database that answers, the replay of a payment that has events but no snapshot and no event
-- IntentCreated succeeds, and returns a payment without a transaction id and parties, of amount 0.
pub replay_anonymous :
    (codec : EventCodec) (txn_id : String) (s : Store) (now : Time) (ev : PaymentEvent)
    (events : List PaymentEvent)
    → find snapshot_key txn_id s.snapshots ≡ none
    → events_of txn_id s.events ≡ ev ∷ events
    → NoneCreated (ev ∷ events)
    → (i : PaymentIntent) × ((replay codec txn_id (calm s now)).0 ≡ ok i)
      × (i.txn_id ≡ "")
      × (i.sender_id ≡ "")
      × (i.receiver_id ≡ "")
      × (i.amount ≡ pos 0)
unfolding replay get_payment_snapshot get_payment_events base_of query stmt found_or_missing
    zero_intent
replay_anonymous codec txn_id s now ev events none_there found h =
    replayed (apply_events codec 0 zero_intent (ev ∷ events)) refl
      (apply_events-Keeps codec 0 zero_intent (ev ∷ events) h)
  where
    replayed :
        (r : Result PaymentIntent)
        → apply_events codec 0 zero_intent (ev ∷ events) ≡ r
        → Keeps zero_intent r
        → (i : PaymentIntent) × ((replay codec txn_id (calm s now)).0 ≡ ok i)
          × (i.txn_id ≡ "")
          × (i.sender_id ≡ "")
          × (i.receiver_id ≡ "")
          × (i.amount ≡ pos 0)
    replayed (err e) q k = absurd k
    replayed (ok i) q k =
        (i, rw (none_there, found, q) refl, k.txn_id, k.sender_id, k.receiver_id, k.amount)
