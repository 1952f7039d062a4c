-- ===== src/Recovery/Tries.antt =====
-- What one turn of the loop of `RunOnce` does to the operation and to the outbox.
use offline_pay.Prelude.{
  ℕ, ◌+◌, ◌≤◌, ◌<◌, String, ◌≡◌, ◌≢◌, refl, false, none, some, ◌∷◌, ◌⊎◌, inl, inr, arith, leb,
  Bool-cases,
}
use offline_pay.Database.{
  World, Store, ok, OutboxRow, OutboxStatus, RecoveryState, RecoveryOperation, in_tx, find,
  recovery_id_key, find-update_self,
}
use offline_pay.Database.Laws.{exec-ok, continue-elim}
use offline_pay.Repository.{create_outbox_event}
use offline_pay.Recovery.Decisions.{Policy}
use offline_pay.Recovery.Runner.{
  update_operation, exhaust_operation, state_after, next_after, request_type, request_attempt,
  run_operation,
}

-- The operation of this row after its turn: with no attempt left it is exhausted and nothing is
-- sent; else one request is sent, the counter is raised, and it is closed at the last attempt.
abbrev pub Tried : ℕ → RecoveryOperation → Store → Store → Type 0
Tried max_attempts o s s' =
    ((max_attempts ≤ o.attempt_count)
      × (s'.outbox ≡ s.outbox)
      × (o' : RecoveryOperation) × (find recovery_id_key o.recovery_id s'.recoveries ≡ some o')
      × (o'.attempt_count ≡ o.attempt_count)
      × (o'.state ≡ RecoveryState.exhausted))
    ⊎ ((o.attempt_count < max_attempts)
        × (message : OutboxRow) × (s'.outbox ≡ message ∷ s.outbox)
        × (message.stream_name ≡ "payment.recovery")
        × (o' : RecoveryOperation) × (find recovery_id_key o.recovery_id s'.recoveries ≡ some o')
        × (o'.attempt_count ≡ o.attempt_count + 1)
        × ((o'.attempt_count < max_attempts) ⊎ (o'.state ≢ RecoveryState.scheduled)))

message_written :
    (type payload : String) (w w' : World)
    → create_outbox_event in_tx "payment.recovery" type payload w ≡ (ok tt, w')
    → (w'.store.recoveries ≡ w.store.recoveries)
      × (message : OutboxRow) × (w'.store.outbox ≡ message ∷ w.store.outbox)
      × (message.stream_name ≡ "payment.recovery")
unfolding create_outbox_event
message_written type payload w w' h =
    let (e, _) = exec-ok in_tx _ w w' h in
    (
      ground (arith, e),
      record {
        event_id = w.store.next_outbox_id;
        stream_name = "payment.recovery";
        event_type = type;
        payload = payload;
        is_published = false;
        created_at = w.now;
        status = OutboxStatus.pending;
        retry_count = 0;
        last_error = none;
        locked_by = none;
        locked_at = none;
      },
      ground (arith, e),
      refl,
    )

state_after-closed :
    (p : Policy) (o : RecoveryOperation) (k : ℕ)
    → k ≤ p.max_attempts
    → (k < p.max_attempts) ⊎ (state_after p o.action k ≢ RecoveryState.scheduled)
unfolding state_after
state_after-closed p o k le = elim (Bool-cases (leb p.max_attempts k)) [
  | inl last ↦ inr (λ e. ground arith)
  | inr more ↦ inl (ground (arith, more))
]

module _ (p : Policy) (marshal : RecoveryOperation → ℕ → String) where
  -- Every request is counted: one turn of `RunOnce` without an error either finds the policy's
  -- attempts used up, sends nothing and exhausts the operation, or finds an attempt left, sends
  -- exactly one message to the relay and raises the stored counter by one, and the operation stays
  -- scheduled only while its counter is below the policy's attempts.
  pub run_operation-Tried :
      (o : RecoveryOperation) (w w' : World)
      → find recovery_id_key o.recovery_id w.store.recoveries ≡ some o
      → run_operation p marshal o w ≡ (ok tt, w')
      → Tried p.max_attempts o w.store w'.store
  unfolding run_operation request_attempt exhaust_operation update_operation
  run_operation-Tried o w w' at h = elim (Bool-cases (leb p.max_attempts o.attempt_count)) [
    | inl spent ↦
        let h' : exhaust_operation o.recovery_id w ≡ (ok tt, w') = rw spent at h in
        let (e, _) = exec-ok in_tx _ w w' h' in
        let f : RecoveryOperation → RecoveryOperation =
          λ x. record x { state = RecoveryState.exhausted; next_attempt_at = none } in
        let found = find-update_self recovery_id_key o.recovery_id f w.store.recoveries o at refl in
        inl (ground (arith, spent), ground (arith, e), f o, ground (arith, e, found), refl, refl)
    | inr left ↦
        let k : ℕ = o.attempt_count + 1 in
        let h' : request_attempt p marshal o w ≡ (ok tt, w') = rw left at h in
        let request =
          create_outbox_event in_tx "payment.recovery" (request_type o.action) (marshal o k) in
        continue-elim {x = request w} h' λ _ w1 q h1.
          let (same, message, sent, stream) =
            message_written (request_type o.action) (marshal o k) w w1 q in
          let (e, _) = exec-ok in_tx _ w1 w' h1 in
          let f : RecoveryOperation → RecoveryOperation = λ x. record x {
            state = state_after p o.action k;
            attempt_count = k;
            next_attempt_at = next_after p o.action k w.now;
          } in
          let found =
            find-update_self recovery_id_key o.recovery_id f w1.store.recoveries o (rw same at)
              refl in
          inr (
            ground (arith, left),
            message,
            ground (arith, e, sent),
            stream,
            f o,
            ground (arith, e, found),
            refl,
            state_after-closed p o k (ground (arith, left)),
          )
  ]
