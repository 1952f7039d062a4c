-- ===== src/Settlement/Rollback.antt =====
-- What is left when the PUBLISH step of a settlement fails: the compensation of LEDGER_COMMIT
-- deletes the payment intent, which the nonce that RESERVE has registered still references.
use offline_pay.Prelude.{
  ℕ, zero, suc, String, str_append, ◌≡◌, refl, sym, subst, true, not, ◌&&◌, List, ◌∷◌, arith,
}
use offline_pay.Domain.{SagaStatus}
use offline_pay.Database.{
  World, Store, Error, Result, ok, err, ⊤, exec, exists, intent_key, in_tx, direct, with_tx,
}
use offline_pay.Database.Laws.{continue-elim, exec-ok, with_tx-ok, with_tx-err}
use offline_pay.Repository.{update_balance, get_balance_for_update, update_saga_state}
use offline_pay.Repository.Laws.{update_balance-ok, require-ok}
use offline_pay.Saga.{
  SagaStep, compensate_all, compensate_steps, retry_compensation, after_try, after_compensation,
}
use offline_pay.Saga.Laws.{SagaOnly, update_saga_state-SagaOnly}
use offline_pay.Settlement.Steps.{
  Payment, ledger_step, lock_accounts, ledger_compensate, delete_intent, nonce_refers,
  is_referenced,
}
use offline_pay.Settlement.Reserve.{lock_accounts-ok, get_balance_for_update-reads}

-- The payment intent is stored, and a nonce references it.
abbrev pub IsPinned : String → Store → Type 0
IsPinned txn_id s =
    (exists intent_key txn_id s.intents ≡ true) × (nonce_refers txn_id s.nonces ≡ true)

pinned-delete_intent :
    (txn_id : String) (w w' : World)
    → IsPinned txn_id w.store
    → ¬ (delete_intent txn_id w ≡ (ok tt, w'))
unfolding delete_intent
pinned-delete_intent txn_id w w' (e, n) h =
    let (q, _) = exec-ok in_tx _ w w' h in
    let (allowed, _) =
      require-ok (not (exists intent_key txn_id w.store.intents && is_referenced txn_id w.store))
        Error.foreign_key _ w'.store q in
    absurd (ground arith)

-- While a nonce references the payment intent, the compensation of LEDGER_COMMIT never succeeds.
pub ledger_compensate-blocked :
    (x : Payment) (w w' : World)
    → IsPinned x.p.txn_id w.store
    → ¬ (ledger_compensate x w ≡ (ok tt, w'))
unfolding ledger_compensate
ledger_compensate-blocked x w w' pinned h =
    continue-elim {x = lock_accounts get_balance_for_update x.p.sender_id x.p.receiver_id w} h
      (λ acc w1 q1 h1.
        let (_, _, s1, _) = lock_accounts-ok _ _ _ w w1 acc get_balance_for_update-reads q1 in
        continue-elim {x = update_balance in_tx x.p.sender_id _ _ w1} h1 (λ u w2 q2 h2.
          let (_, s2, _) = update_balance-ok in_tx x.p.sender_id _ _ w1 w2 q2 in
          continue-elim {x = update_balance in_tx x.p.receiver_id _ _ w2} h2 (λ u w3 q3 h3.
            let (_, s3, _) = update_balance-ok in_tx x.p.receiver_id _ _ w2 w3 q3 in
            continue-elim {x = exec in_tx _ w3} h3 (λ u w4 q4 h4.
              let (s4, _) = exec-ok in_tx _ w3 w4 q4 in
              let intents : w4.store.intents ≡ w.store.intents = ground arith in
              let nonces : w4.store.nonces ≡ w.store.nonces = ground arith in
              pinned-delete_intent x.p.txn_id w4 w' (ground arith, ground arith) h4))))

-- Only the devices and the saga's row differ.
abbrev pub Kept : Store → Store → Type 0
Kept s s' = s' ≡ record s { devices = s'.devices; sagas = s'.sagas }

-- The transaction of such a compensation fails, and leaves every table but the devices alone.
blocked_tx :
    (x : Payment) (w w' : World) (r : Result ⊤)
    → IsPinned x.p.txn_id w.store
    → with_tx (ledger_compensate x) w ≡ (r, w')
    → ¬ (r ≡ ok tt) × Kept w.store w'.store
blocked_tx x w w' (ok u) pinned h =
    let (w0, w1, e, n, q, s, m) = with_tx-ok (ledger_compensate x) w w' u h in
    absurd (ledger_compensate-blocked x w0 w1 (subst (IsPinned x.p.txn_id) (sym e) pinned) q)
blocked_tx x w w' (err e) pinned h =
    let k = with_tx-err (ledger_compensate x) w w' e h in ((λ q. absurd (cc)), ground arith)

Kept-IsPinned :
    (txn_id : String) (s s' : Store) → Kept s s' → IsPinned txn_id s → IsPinned txn_id s'
Kept-IsPinned txn_id s s' k (e, n) = (ground arith, ground arith)

Kept-trans : (r s t : Store) → Kept r s → Kept s t → Kept r t
Kept-trans r s t a b = ground arith

SagaOnly-Kept : (w w' : World) → SagaOnly w w' → Kept w.store w'.store
SagaOnly-Kept w w' s =
    let e : w'.store ≡ record w.store { sagas = w'.store.sagas } = s.tables in ground arith

-- A call that ends with an error has changed nothing but the devices and the saga's row.
abbrev Failed : Store → Result ⊤ × World → Type 0
Failed s x = (¬ (x.0 ≡ ok tt)) × Kept s x.1.store

after_try-Failed :
    (s : Store) (r : Result ⊤) (w : World) (again : Result ⊤ × World)
    → Failed s (r, w)
    → Failed s again
    → Failed s (after_try r w again)
after_try-Failed s (ok u) w again (no_ok, k) f = absurd (no_ok refl)
after_try-Failed s (err e) w again g f = f

-- However often the compensation is tried.
retry-blocked :
    (x : Payment) (n : ℕ) (last : Result ⊤) (w : World)
    → IsPinned x.p.txn_id w.store
    → Failed w.store (retry_compensation (suc n) (ledger_compensate x) last w)
unfolding retry_compensation
retry-blocked x zero last w pinned =
    let y = with_tx (ledger_compensate x) w in
    let f = blocked_tx x w y.1 y.0 pinned refl in after_try-Failed w.store y.0 y.1 y f f
retry-blocked x (suc n) last w pinned =
    let y = with_tx (ledger_compensate x) w in
    let (no_ok, k) = blocked_tx x w y.1 y.0 pinned refl in
    let (no_ok', k') =
      retry-blocked x n y.0 y.1 (Kept-IsPinned x.p.txn_id w.store y.1.store k pinned) in
    after_try-Failed w.store y.0 y.1 (retry_compensation (suc n) (ledger_compensate x) y.0 y.1)
      (no_ok, k) (no_ok', Kept-trans w.store y.1.store _ k k')

after_compensation-Failed :
    (id name : String) (s : Store) (y : Result ⊤ × World) (go_on : World → Result ⊤ × World)
    → Failed s y
    → Kept s (after_compensation id name y go_on).1.store
after_compensation-Failed id name s (ok u, w) go_on (no_ok, k) = absurd (no_ok refl)
after_compensation-Failed id name s (err e, w) go_on (no_ok, k) = Kept-trans s w.store _ k (
    SagaOnly-Kept w _
      (update_saga_state-SagaOnly id SagaStatus.failed (str_append "CRITICAL_" name) w))

-- If the last executed step is LEDGER_COMMIT, as when PUBLISH has failed, and the payment's intent
-- is stored and a nonce references it, then compensating the executed steps, whatever the earlier
-- ones are, changes no table but the devices and the sagas: the money stays moved.
pub compensate_all-Kept :
    (x : Payment) (id : String) (executed : List SagaStep) (w : World)
    → IsPinned x.p.txn_id w.store
    → Kept w.store (compensate_all id (ledger_step x ∷ executed) w).1.store
unfolding compensate_all compensate_steps
compensate_all-Kept x id executed w pinned =
    let (_, w1) = update_saga_state direct id SagaStatus.compensating "ROLLBACK" w in
    let k =
      SagaOnly-Kept w w1 (update_saga_state-SagaOnly id SagaStatus.compensating "ROLLBACK" w) in
    let f = retry-blocked x 2 (ok tt) w1 (Kept-IsPinned x.p.txn_id w.store w1.store k pinned) in
    Kept-trans w.store w1.store _ k (after_compensation-Failed id "LEDGER_COMMIT" w1.store _ _ f)
