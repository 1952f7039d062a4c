-- ===== src/Relay/Duplicates.antt =====
-- What the cache of a relay drops.
use offline_pay.Prelude.{
  ◌+◌, ◌≤◌, String, ◌≡◌, refl, true, false, none, List, [], ◌∷◌, ◌⊎◌, inl, inr, arith, ltb,
  Bool-cases,
}
use offline_pay.Prelude.Int.{ℤ}
use offline_pay.Domain.{Time, EncryptedEnvelope}
use offline_pay.Database.{World, Error, ok, err, exists}
use offline_pay.Relay.Service.{
  Service, Seen, seen_key, is_duplicate, remember, receive_and_relay, dedupe_ttl, keep_recent,
  clean_dedupe_cache,
}

-- The cache has this key, added at this time or later.
abbrev Holds : Time → String → List Seen → Type 0
Holds t k [] = ⊥
Holds t k (x ∷ rest) = ((x.key ≡ k) × (t ≤ x.added_at)) ⊎ Holds t k rest

Holds-exists : (t : Time) (k : String) (l : List Seen) → Holds t k l → exists seen_key k l ≡ true
Holds-exists t k [] h = absurd h
Holds-exists t k (x ∷ rest) (inl (e, _)) = ground (arith, e)
Holds-exists t k (x ∷ rest) (inr h) = ground (arith, Holds-exists t k rest h)

keep_recent-Holds :
    (t now : Time) (k : String) (l : List Seen)
    → now ≤ t + dedupe_ttl
    → Holds t k l
    → Holds t k (keep_recent now l)
unfolding keep_recent
keep_recent-Holds t now k [] le h = absurd h
keep_recent-Holds t now k (x ∷ rest) le (inl (e, late)) =
    let kept : ltb (x.added_at + dedupe_ttl) now ≡ false = ground arith in rw kept (inl (e, late))
keep_recent-Holds t now k (x ∷ rest) le (inr h) =
    let ih = keep_recent-Holds t now k rest le h in
    elim (Bool-cases (ltb (x.added_at + dedupe_ttl) now)) [
      | inl old ↦ rw old ih
      | inr new ↦ rw new (inr ih)
    ]

-- What happens at a relay: an envelope comes in, or the cache is cleaned.
pub data Event : Type 0 where
  received : EncryptedEnvelope → ℤ → Event
  cleaned : Time → Event

pub run_event : Event → Service → World → Service × World
run_event (received env hops) s w = let (r, w') = receive_and_relay s env hops w in (r.service, w')
run_event (cleaned now) s w = (clean_dedupe_cache now s, w)

pub run_events : List Event → Service → World → Service × World
run_events [] s w = (s, w)
run_events (e ∷ events) s w = let (s', w') = run_event e s w in run_events events s' w'

-- Every cleaning is at this time or earlier.
abbrev pub CleanedBy : Time → List Event → Type 0
CleanedBy t [] = Unit {0}
CleanedBy t (received env hops ∷ events) = CleanedBy t events
CleanedBy t (cleaned now ∷ events) = (now ≤ t) × CleanedBy t events

receive-Holds :
    (t : Time) (k : String) (s : Service) (env : EncryptedEnvelope) (hops : ℤ) (w : World)
    → Holds t k s.dedupe
    → Holds t k (receive_and_relay s env hops w).0.service.dedupe
unfolding receive_and_relay remember
receive-Holds t k s env hops w h = elim (Bool-cases (is_duplicate env s)) [
  | inl e ↦ rw e h
  | inr e ↦ rw e (inr (inr h))
]

run_events-Holds :
    (t : Time) (k : String) (events : List Event) (s : Service) (w : World)
    → CleanedBy (t + dedupe_ttl) events
    → Holds t k s.dedupe
    → Holds t k (run_events events s w).0.dedupe
unfolding run_events run_event clean_dedupe_cache
run_events-Holds t k [] s w c h = h
run_events-Holds t k (received env hops ∷ events) s w c h =
    let (r, w') = receive_and_relay s env hops w in
    run_events-Holds t k events r.service w' c (receive-Holds t k s env hops w h)
run_events-Holds t k (cleaned now ∷ events) s w (le, c) h =
    run_events-Holds t k events (clean_dedupe_cache now s) w c
      (keep_recent-Holds t now k s.dedupe le h)

accepted-Holds :
    (s : Service) (env : EncryptedEnvelope) (hops : ℤ) (w : World)
    → (receive_and_relay s env hops w).0.outcome ≡ ok tt
    → Holds w.now env.txn_id (receive_and_relay s env hops w).0.service.dedupe
      × Holds w.now env.nonce (receive_and_relay s env hops w).0.service.dedupe
unfolding receive_and_relay remember
accepted-Holds s env hops w h = elim (Bool-cases (is_duplicate env s)) [
  | inl e ↦ absurd (ground (arith, h))
  | inr e ↦ rw e (inr (inl (refl, omega arith)), inl (refl, omega arith))
]

-- The envelope is refused as a duplicate, without any effect.
abbrev pub Refused : EncryptedEnvelope → ℤ → Service × World → Type 0
Refused env hops (s, w) = receive_and_relay s env hops w ≡ (
  record {
    service = s;
    outcome = err (Error.message "duplicate transaction or nonce detected by relay");
    forwarding = none;
  },
  w,
)

duplicate-Refused :
    (t : Time) (s : Service) (env env' : EncryptedEnvelope) (hops : ℤ) (w : World)
    → Holds t env.txn_id s.dedupe
    → Holds t env.nonce s.dedupe
    → (env'.txn_id ≡ env.txn_id) ⊎ (env'.nonce ≡ env.nonce)
    → Refused env' hops (s, w)
unfolding receive_and_relay is_duplicate
duplicate-Refused t s env env' hops w a b (inl e) =
    let known : exists seen_key env'.txn_id s.dedupe ≡ true =
      rw e (Holds-exists t env.txn_id s.dedupe a) in
    rw known refl
duplicate-Refused t s env env' hops w a b (inr e) =
    let known : exists seen_key env'.nonce s.dedupe ≡ true =
      rw e (Holds-exists t env.nonce s.dedupe b) in
    ground (arith, known)

-- A relay drops what it has seen: once an envelope is accepted, then after any further envelopes
-- and any cleanings of the cache within ten minutes, another envelope with its transaction id or
-- its nonce is refused, is not forwarded, and changes neither the relay nor the tables.
pub receive_and_relay-Refused :
    (s : Service) (env env' : EncryptedEnvelope) (hops hops' : ℤ) (events : List Event) (w : World)
    → (receive_and_relay s env hops w).0.outcome ≡ ok tt
    → CleanedBy (w.now + dedupe_ttl) events
    → (env'.txn_id ≡ env.txn_id) ⊎ (env'.nonce ≡ env.nonce)
    → Refused env' hops' (
        run_events events
          (receive_and_relay s env hops w).0.service
          (receive_and_relay s env hops w).1)
receive_and_relay-Refused s env env' hops hops' events w accepted cleaned_by same =
    let (r, w1) = receive_and_relay s env hops w in
    let (a, b) = accepted-Holds s env hops w accepted in
    let later = run_events events r.service w1 in
    duplicate-Refused w.now later.0 env env' hops' later.1
      (run_events-Holds w.now env.txn_id events r.service w1 cleaned_by a)
      (run_events-Holds w.now env.nonce events r.service w1 cleaned_by b) same
