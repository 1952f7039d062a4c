-- ===== src/EventSource/Agreement.antt =====
-- A replay from a snapshot and one from the first event.
use offline_pay.Prelude.{
  ℕ, ◌≤◌, ◌<◌, String, ◌≡◌, refl, Bool, true, false, some, List, [], ◌∷◌, ◌++◌, arith, leb, ap, sym,
  ◌∙◌,
}
use offline_pay.Domain.{PaymentIntent, PaymentEvent, Time}
use offline_pay.Database.{
  Store, World, Result, ok, err, calm, find, snapshot_key, PaymentSnapshot, query, stmt,
}
use offline_pay.Repository.{events_of, get_payment_snapshot, get_payment_events}
use offline_pay.EventSource.Replay.{
  EventCodec, zero_intent, skip_or_apply, apply_event, then_apply, apply_events, base_of,
  found_or_missing, replay,
}

-- Every version is at most `v`; every version is above `v`.
abbrev pub AllUpTo : ℕ → List PaymentEvent → Type 0
AllUpTo v [] = Unit {0}
AllUpTo v (ev ∷ events) = (ev.event_version ≤ v) × AllUpTo v events

abbrev pub AllAbove : ℕ → List PaymentEvent → Type 0
AllAbove v [] = Unit {0}
AllAbove v (ev ∷ events) = (v < ev.event_version) × AllAbove v events

module _ (codec : EventCodec) (v : ℕ) (ev : PaymentEvent) (events : List PaymentEvent) where
  apply_events-old :
      (intent : PaymentIntent)
      → ev.event_version ≤ v
      → apply_events codec v intent (ev ∷ events) ≡ apply_events codec v intent events
  unfolding apply_events
  apply_events-old intent h =
      let e : leb ev.event_version v ≡ true = ground arith in
      ap (λ b. skip_or_apply codec b intent ev (λ next. apply_events codec v next events)) e

  apply_events-new :
      (intent : PaymentIntent)
      → v < ev.event_version
      → apply_events codec v intent (ev ∷ events)
        ≡ then_apply (apply_event codec intent ev) (λ next. apply_events codec v next events)
  unfolding apply_events
  apply_events-new intent h =
      let e : leb ev.event_version v ≡ false = ground arith in
      ap (λ b. skip_or_apply codec b intent ev (λ next. apply_events codec v next events)) e

module _ (codec : EventCodec) where
  apply_events-skip :
      (v : ℕ) (intent : PaymentIntent) (old new : List PaymentEvent)
      → AllUpTo v old
      → apply_events codec v intent (old ++ new) ≡ apply_events codec v intent new
  apply_events-skip v intent [] new h = refl
  apply_events-skip v intent (ev ∷ old) new (le, h) =
      apply_events-old codec v ev (old ++ new) intent le ∙ apply_events-skip v intent old new h

  then_apply-same :
      (f g : PaymentIntent → Result PaymentIntent)
      → ((next : PaymentIntent) → f next ≡ g next)
      → (r : Result PaymentIntent) → then_apply r f ≡ then_apply r g
  then_apply-same f g same (ok next) = same next
  then_apply-same f g same (err x) = refl

  apply_events-above :
      (v : ℕ) (intent : PaymentIntent) (new : List PaymentEvent)
      → AllAbove v new
      → apply_events codec v intent new ≡ apply_events codec 0 intent new
  unfolding apply_events
  apply_events-above v intent [] h = refl
  apply_events-above v intent (ev ∷ new) (lt, h) =
      apply_events-new codec v ev new intent lt
      ∙ then_apply-same (λ next. apply_events codec v next new)
          (λ next. apply_events codec 0 next new) (λ next. apply_events-above v next new h)
          (apply_event codec intent ev)
      ∙ sym (apply_events-new codec 0 ev new intent (omega (arith, lt)))

  -- A loop over two parts is the loop over the second after that over the first.
  skip_or_apply-append :
      (b : Bool) (intent last : PaymentIntent) (ev : PaymentEvent)
      (f g : PaymentIntent → Result PaymentIntent) (end : Result PaymentIntent)
      → ((next : PaymentIntent) → f next ≡ ok last → g next ≡ end)
      → skip_or_apply codec b intent ev f ≡ ok last
      → skip_or_apply codec b intent ev g ≡ end
  unfolding skip_or_apply
  skip_or_apply-append true intent last ev f g end step h = step intent h
  skip_or_apply-append false intent last ev f g end step h = applied (apply_event codec intent ev) h
    where
      applied : (r : Result PaymentIntent) → then_apply r f ≡ ok last → then_apply r g ≡ end
      applied (ok next) k = step next k
      applied (err x) k = absurd (cc)

  apply_events-append :
      (intent last : PaymentIntent) (old new : List PaymentEvent)
      → apply_events codec 0 intent old ≡ ok last
      → apply_events codec 0 intent (old ++ new) ≡ apply_events codec 0 last new
  unfolding apply_events
  apply_events-append intent last [] new h =
      let same : intent ≡ last = cc in ap (λ i. apply_events codec 0 i new) same
  apply_events-append intent last (ev ∷ old) new h =
      skip_or_apply-append (leb ev.event_version 0) intent last ev
        (λ next. apply_events codec 0 next old) (λ next. apply_events codec 0 next (old ++ new))
        (apply_events codec 0 last new) (λ next k. apply_events-append next last old new k) h

  found_or_missing-result :
      (events : List PaymentEvent) (r : Result PaymentIntent) (w w' : World)
      → (found_or_missing events r w).0 ≡ (found_or_missing events r w').0
  unfolding found_or_missing
  found_or_missing-result events (err x) w w' = refl
  found_or_missing-result [] (ok intent) w w' = ground arith
  found_or_missing-result (ev ∷ events) (ok intent) w w' = refl

  -- A snapshot changes no replay: if the payment's events are those up to the snapshot's version
  -- followed by those above it, and the snapshot is what the first part replays to, then `Replay`
  -- gives the same result, an error included, as without any snapshot.
  pub replay-agrees :
      (txn_id : String) (s : Store) (now : Time) (snap : PaymentSnapshot)
      (old new : List PaymentEvent)
      → find snapshot_key txn_id s.snapshots ≡ some snap
      → events_of txn_id s.events ≡ old ++ new
      → AllUpTo snap.aggregate_version old
      → AllAbove snap.aggregate_version new
      → apply_events codec 0 zero_intent old ≡ ok snap.snapshot_data
      → (replay codec txn_id (calm s now)).0
        ≡ (replay codec txn_id (calm (record s { snapshots = [] }) now)).0
  unfolding replay get_payment_snapshot get_payment_events base_of query stmt
  replay-agrees txn_id s now snap old new found events low high folded =
      let v = snap.aggregate_version in
      let base = snap.snapshot_data in
      let e : apply_events codec v base (old ++ new)
          ≡ apply_events codec 0 zero_intent (old ++ new) =
        apply_events-skip v base old new low
        ∙ apply_events-above v base new high
        ∙ sym (apply_events-append zero_intent base old new folded) in
      rw (found, events, e)
        (found_or_missing-result (old ++ new) (apply_events codec 0 zero_intent (old ++ new))
          (calm s now) (calm (record s { snapshots = [] }) now))
