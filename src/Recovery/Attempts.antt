-- ===== src/Recovery/Attempts.antt =====
-- The bound of the attempt counters.
use offline_pay.Prelude.{
  ℕ, zero, suc, ◌+◌, ◌≤◌, ◌<◌, String, ◌≡◌, Bool, true, Option, none, some, List, [], ◌∷◌, arith,
  if◌then◌else◌, leb, ◌==◌, take, Bool-cases, inl, inr, ap, subst, str_dec, if_pos, if_neg,
}
use offline_pay.Prelude.Int.{ℤ, pos, negsuc}
use offline_pay.Domain.{Time}
use offline_pay.Database.{
  World, Store, Error, ok, RecoveryAction, RecoveryState, RecoveryOperation, in_tx, query, with_tx,
  update, where_rows, order_by, insert_by, recovery_id_key,
}
use offline_pay.Database.Laws.{exec-ok, query-ok, with_tx-ok, with_tx-err, continue-elim}
use offline_pay.Database.Rows.{result-cases}
use offline_pay.Repository.{create_outbox_event}
use offline_pay.Recovery.Decisions.{Policy}
use offline_pay.Recovery.Runner.{
  is_scheduled, is_due, time_key, due_operations, update_operation, exhaust_operation, state_after,
  next_after, request_type, request_attempt, run_operation, run_operations, run_tx, run_once,
}

-- An operation has had at most the policy's attempts, and fewer while it is scheduled.
pub record IsBounded (max_attempts : ℕ) (o : RecoveryOperation) : Type 0 where
  pub count : o.attempt_count ≤ max_attempts
  pub open_count : is_scheduled o.state ≡ true → o.attempt_count < max_attempts

abbrev pub AllBounded : ℕ → List RecoveryOperation → Type 0
AllBounded n [] = Unit {0}
AllBounded n (o ∷ rows) = IsBounded n o × AllBounded n rows

module _ (n : ℕ) where
  where_rows-AllBounded :
      (p : RecoveryOperation → Bool) (rows : List RecoveryOperation)
      → AllBounded n rows
      → AllBounded n (where_rows p rows)
  where_rows-AllBounded p [] h = tt
  where_rows-AllBounded p (o ∷ rows) (b, h) = elim (Bool-cases (p o)) [
    | inl e ↦ rw e (b, where_rows-AllBounded p rows h)
    | inr e ↦ rw e (where_rows-AllBounded p rows h)
  ]

  insert_by-AllBounded :
      (key : RecoveryOperation → ℕ) (o : RecoveryOperation) (rows : List RecoveryOperation)
      → IsBounded n o
      → AllBounded n rows
      → AllBounded n (insert_by key o rows)
  insert_by-AllBounded key o [] b h = (b, tt)
  insert_by-AllBounded key o (x ∷ rows) b (c, h) = elim (Bool-cases (leb (key o) (key x))) [
    | inl e ↦ rw e (b, (c, h))
    | inr e ↦ rw e (c, insert_by-AllBounded key o rows b h)
  ]

  order_by-AllBounded :
      (key : RecoveryOperation → ℕ) (rows : List RecoveryOperation)
      → AllBounded n rows
      → AllBounded n (order_by key rows)
  order_by-AllBounded key [] h = tt
  order_by-AllBounded key (o ∷ rows) (b, h) =
      insert_by-AllBounded key o (order_by key rows) b (order_by-AllBounded key rows h)

  take-AllBounded :
      (k : ℕ) (rows : List RecoveryOperation) → AllBounded n rows → AllBounded n (take k rows)
  take-AllBounded zero rows h = tt
  take-AllBounded (suc k) [] h = tt
  take-AllBounded (suc k) (o ∷ rows) (b, h) = (b, take-AllBounded k rows h)

  update-AllBounded :
      (id : String) (f : RecoveryOperation → RecoveryOperation)
      → ((o : RecoveryOperation) → IsBounded n o → IsBounded n (f o))
      → (rows : List RecoveryOperation) → AllBounded n rows
      → AllBounded n (update recovery_id_key id f rows)
  update-AllBounded id f keep [] h = tt
  update-AllBounded id f keep (o ∷ rows) (b, h) = elim (str_dec o.recovery_id id) [
    | yes e ↦ rw (if_pos _ e) (keep o b, h)
    | no e ↦ rw (if_neg _ e) (b, update-AllBounded id f keep rows h)
  ]

due-AllBounded :
    (n limit : ℕ) (now : Time) (rows : List RecoveryOperation)
    → AllBounded n rows
    → AllBounded n (due_operations limit now rows)
unfolding due_operations
due-AllBounded n limit now rows h =
    let key = λ (o : RecoveryOperation). time_key o.next_attempt_at in
    take-AllBounded n limit (order_by key (where_rows (is_due now) rows)) (
      order_by-AllBounded n key (where_rows (is_due now) rows)
        (where_rows-AllBounded n (is_due now) rows h))

exhausted-AllBounded :
    (n : ℕ) (id : String) (w w' : World)
    → exhaust_operation id w ≡ (ok tt, w')
    → AllBounded n w.store.recoveries
    → AllBounded n w'.store.recoveries
unfolding exhaust_operation is_scheduled
exhausted-AllBounded n id w w' h bounded =
    let (e, _) = exec-ok in_tx _ w w' h in
    let f : RecoveryOperation → RecoveryOperation =
      λ o. record o { state = RecoveryState.exhausted; next_attempt_at = none } in
    let rows : w'.store.recoveries ≡ update recovery_id_key id f w.store.recoveries =
      ground (arith, e) in
    rw rows (
      update-AllBounded n id f (λ o b. record { count = b.count; open_count = λ q. absurd (cc) })
        w.store.recoveries bounded)

updated-AllBounded :
    (n : ℕ) (id : String) (state : RecoveryState) (attempts : ℕ) (next : Option Time) (w w' : World)
    → update_operation id state attempts next w ≡ (ok tt, w')
    → attempts ≤ n
    → (is_scheduled state ≡ true → attempts < n)
    → AllBounded n w.store.recoveries
    → AllBounded n w'.store.recoveries
unfolding update_operation
updated-AllBounded n id state attempts next w w' h le lt bounded =
    let (e, _) = exec-ok in_tx _ w w' h in
    let f : RecoveryOperation → RecoveryOperation =
      λ o. record o { state = state; attempt_count = attempts; next_attempt_at = next } in
    let rows : w'.store.recoveries ≡ update recovery_id_key id f w.store.recoveries =
      ground (arith, e) in
    rw rows (
      update-AllBounded n id f (λ o b. record { count = le; open_count = lt }) w.store.recoveries
        bounded)

request_written :
    (type payload : String) (w w' : World)
    → create_outbox_event in_tx "payment.recovery" type payload w ≡ (ok tt, w')
    → w'.store.recoveries ≡ w.store.recoveries
unfolding create_outbox_event
request_written type payload w w' h = let (e, _) = exec-ok in_tx _ w w' h in ground (arith, e)

state_after-open :
    (p : Policy) (action : RecoveryAction) (k : ℕ)
    → k ≤ p.max_attempts
    → is_scheduled (state_after p action k) ≡ true
    → k < p.max_attempts
unfolding state_after is_scheduled
state_after-open p action k le h = ground arith

module _ (p : Policy) (marshal : RecoveryOperation → ℕ → String) where
  operation-AllBounded :
      (o : RecoveryOperation) (w w' : World)
      → run_operation p marshal o w ≡ (ok tt, w')
      → AllBounded p.max_attempts w.store.recoveries
      → AllBounded p.max_attempts w'.store.recoveries
  unfolding run_operation request_attempt
  operation-AllBounded o w w' h bounded = elim (Bool-cases (leb p.max_attempts o.attempt_count)) [
    | inl spent ↦ exhausted-AllBounded p.max_attempts o.recovery_id w w' (rw spent at h) bounded
    | inr left ↦
        let k : ℕ = o.attempt_count + 1 in
        let le : k ≤ p.max_attempts = ground (arith, left) in
        let h' : request_attempt p marshal o w ≡ (ok tt, w') = rw left at h in
        let request =
          create_outbox_event in_tx "payment.recovery" (request_type o.action) (marshal o k) in
        continue-elim {x = request w} h' λ _ w1 q h1.
          let same = request_written (request_type o.action) (marshal o k) w w1 q in
          updated-AllBounded p.max_attempts o.recovery_id (state_after p o.action k) k
            (next_after p o.action k w.now) w1 w' h1 le (state_after-open p o.action k le)
            (rw same bounded)
  ]

  operations-AllBounded :
      (busy : Option Error) (ops : List RecoveryOperation) (w w' : World)
      → run_operations p marshal busy ops w ≡ (ok tt, w')
      → AllBounded p.max_attempts w.store.recoveries
      → AllBounded p.max_attempts w'.store.recoveries
  unfolding run_operations
  operations-AllBounded busy [] w w' h bounded =
      let e : w ≡ w' = ground arith in
      subst (λ (x : World). AllBounded p.max_attempts x.store.recoveries) e bounded
  operations-AllBounded (some e) (o ∷ ops) w w' h bounded = cc
  operations-AllBounded none (o ∷ ops) w w' h bounded =
      continue-elim {x = run_operation p marshal o w} h
        λ _ w1 q h1. operations-AllBounded none ops w1 w' h1 (operation-AllBounded o w w1 q bounded)

  tx-AllBounded :
      (busy : Option Error) (limit : ℕ) (w w' : World)
      → run_tx p marshal busy limit w ≡ (ok tt, w')
      → AllBounded p.max_attempts w.store.recoveries
      → AllBounded p.max_attempts w'.store.recoveries
  unfolding run_tx
  tx-AllBounded busy limit w w' h bounded =
      let due = λ (s : Store). due_operations limit w.now s.recoveries in
      continue-elim {x = query in_tx due w} h λ ops w1 q h1.
        let (_, s1, _) = query-ok in_tx due w w1 ops q in
        operations-AllBounded busy ops w1 w' h1 (rw s1 bounded)

  whole-AllBounded :
      (busy : Option Error) (limit : ℕ) (w : World)
      → AllBounded p.max_attempts w.store.recoveries
      → AllBounded p.max_attempts (with_tx (run_tx p marshal busy limit) w).1.store.recoveries
  whole-AllBounded busy limit w bounded =
      result-cases (with_tx (run_tx p marshal busy limit) w)
        (λ a w' h.
          let (w0, w1, s0, _, run, s1, _) = with_tx-ok (run_tx p marshal busy limit) w w' a h in
          rw (h, s1) (tx-AllBounded busy limit w0 w1 run (rw s0 bounded)))
        (λ e w' h.
          let kept = with_tx-err (run_tx p marshal busy limit) w w' e h in
          let rows : w'.store.recoveries ≡ w.store.recoveries =
            ap (λ (s : Store). s.recoveries) kept in
          rw (h, rows) bounded)

  -- If no operation's counter exceeds the policy's attempts, and that of a scheduled one is below
  -- them, then the same holds after `RunOnce`, however it ends.
  pub run_once-AllBounded :
      (busy : Option Error) (limit : ℤ) (w : World)
      → AllBounded p.max_attempts w.store.recoveries
      → AllBounded p.max_attempts (run_once p marshal busy limit w).1.store.recoveries
  unfolding run_once
  run_once-AllBounded busy (pos n) w bounded =
      whole-AllBounded busy (if n == 0 then 50 else n) w bounded
  run_once-AllBounded busy (negsuc n) w bounded = whole-AllBounded busy 50 w bounded
