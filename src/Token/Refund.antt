-- ===== src/Token/Refund.antt =====
-- What the transaction of `ReleaseExpiredTokens` (internal/token/service.go) does when it releases a
-- token.
use offline_pay.Prelude.{
  String, ◌≡◌, ap, ◌∙◌, Bool, true, false, not, ◌||◌, Option, some, arith, Bool-cases, inl, inr,
}
use offline_pay.Prelude.Int.{
  ℤ, ◌+ℤ◌, ◌-ℤ◌, int_laws, parts_of_eq, add64, sub64, ltb_ℤ, add64-nonneg, sub64-nonneg,
}
use offline_pay.Domain.{
  Time, OfflineToken, TokenStatus, AccountBalance, LedgerEntry, Direction, EntryType,
  is_valid_token_transition,
}
use offline_pay.Database.{
  World, Store, Error, ok, in_tx, find, exists, update, sum_by, sum_by-update, token_key,
  balance_key,
}
use offline_pay.Database.Laws.{continue-elim, raise_if-ok, exec-ok, query_row-ok}
use offline_pay.Repository.{
  set_balance, nonneg_balance, invalidate, get_token_for_update, get_balance_for_update,
  update_balance, release_token, create_ledger_entry, create_outbox_event,
}
use offline_pay.Repository.Laws.{update_balance-ok, transition_token-ok, create_ledger_entry-ok}
use offline_pay.Settlement.{reservation_txn}
use offline_pay.Settlement.Exact.{
  IsMoney, ValidBalances, funds, total_funds, nonneg_balance-IsNonneg, found-exists,
}
use offline_pay.Settlement.Money.{IsBacked, outstanding}
use offline_pay.Token.Release.{is_released, release_funds, release_tx}

-- The token was neither consumed nor released, and may become INVALIDATED; the reserve covers its
-- value, which moves from reserved to available.
pub record RefundEffect (tok : OfflineToken) (now : Time) (s s' : Store) : Type 0 where
  pub locked : OfflineToken
  pub balance : AccountBalance
  pub found_token : find token_key tok.token_id s.tokens ≡ some locked
  pub unspent : (locked.consumed || is_released locked) ≡ false
  pub may_end : is_valid_token_transition locked.status TokenStatus.invalidated ≡ true
  pub found : find balance_key tok.owner_id s.balances ≡ some balance
  pub covered : ltb_ℤ balance.reserved_balance tok.value ≡ false
  pub nonneg :
      nonneg_balance
          (add64 balance.available_balance tok.value)
          (sub64 balance.reserved_balance tok.value)
        || not (exists balance_key tok.owner_id s.balances)
      ≡ true
  pub balances_after :
      s'.balances
      ≡ update balance_key tok.owner_id
          (set_balance
            (add64 balance.available_balance tok.value)
            (sub64 balance.reserved_balance tok.value)
            now)
          s.balances
  pub tokens_after : s'.tokens ≡ update token_key tok.token_id (invalidate now) s.tokens

abbrev refund_entry : OfflineToken → ℤ → LedgerEntry
refund_entry tok after = record {
  txn_id = reservation_txn tok.token_id;
  account_id = tok.owner_id;
  direction = Direction.credit;
  amount = tok.value;
  entry_type = EntryType.release;
  balance_after = after;
  created_at = 0;
}

release_funds-ok :
    (marshal : OfflineToken → String) (tok locked : OfflineToken) (v w w' : World) (b : Bool)
    → find token_key tok.token_id v.store.tokens ≡ some locked
    → (locked.consumed || is_released locked) ≡ false
    → w.store ≡ v.store
    → w.now ≡ v.now
    → release_funds marshal tok w ≡ (ok b, w')
    → RefundEffect tok v.now v.store w'.store
unfolding release_funds get_balance_for_update release_token create_outbox_event
release_funds-ok marshal tok locked v w w' b ft unspent s0 n0 h =
    continue-elim {x = get_balance_for_update tok.owner_id w} h (λ bal w1 q1 h1.
      let (found, s1, n1) = query_row-ok in_tx _ w w1 bal q1 in
      let (covered, h2) =
        raise_if-ok (ltb_ℤ bal.reserved_balance tok.value)
          (Error.message "inconsistent reserved balance for user") w1 _ b w' h1 in
      let a = add64 bal.available_balance tok.value in
      let r = sub64 bal.reserved_balance tok.value in
      continue-elim {x = update_balance in_tx tok.owner_id a r w1} h2 (λ u w2 q2 h3.
        let (checked, s2, n2) = update_balance-ok in_tx tok.owner_id a r w1 w2 q2 in
        continue-elim {x = release_token in_tx tok.token_id w2} h3 (λ u w3 q3 h4.
          let (t, found_t, valid, s3, n3) =
            transition_token-ok in_tx tok.token_id _ _ invalidate w2 w3 q3 in
          continue-elim {x = create_ledger_entry (refund_entry tok a) w3} h4 (λ u w4 q4 h5.
            let (_, s4, n4) = create_ledger_entry-ok (refund_entry tok a) w3 w4 q4 in
            let message =
              create_outbox_event in_tx "token.expired" "TokenExpiredAndReleased" (marshal tok) in
            continue-elim {x = message w4} h5 (λ u w5 q5 h6.
              let (s5, n5) = exec-ok in_tx _ w4 w5 q5 in
              let same : t ≡ locked = ground arith in
              record {
                locked = locked;
                balance = bal;
                found_token = ft;
                unspent = unspent;
                may_end = ground arith;
                found = ground arith;
                covered = covered;
                nonneg = ground arith;
                balances_after = ground arith;
                tokens_after = ground arith;
              })))))

-- A transaction of `ReleaseExpiredTokens` that reports a release has found the token neither
-- consumed nor released and its owner's reserve covering it; it moves the token's value from the
-- owner's reserved to the available balance and invalidates the token.
pub release_tx-RefundEffect :
    (marshal : OfflineToken → String) (tok : OfflineToken) (w w' : World)
    → release_tx marshal tok w ≡ (ok true, w')
    → RefundEffect tok w.now w.store w'.store
unfolding release_tx get_token_for_update
release_tx-RefundEffect marshal tok w w' h =
    continue-elim {x = get_token_for_update tok.token_id w} h (λ locked w1 q1 h1.
      let (found, s1, n1) = query_row-ok in_tx _ w w1 locked q1 in
      elim (Bool-cases (locked.consumed || is_released locked)) [
        | inl spent ↦ let h2 = rw spent at h1 in absurd (ground arith)
        | inr unspent ↦
            release_funds-ok marshal tok locked w w1 w' true found unspent s1 n1 (rw unspent at h1)
      ])

-- An invalidated token has a release time.
abbrev pub IsCoherent : OfflineToken → Type 0
IsCoherent t = t.status ≡ TokenStatus.invalidated → is_released t ≡ true

same_row : {A : Type 0} {o : Option A} {a b : A} → o ≡ some a → o ≡ some b → b ≡ a
same_row p q = cc

claims_value :
    (t : OfflineToken)
    → IsCoherent t
    → (t.consumed || is_released t) ≡ false
    → is_valid_token_transition t.status TokenStatus.invalidated ≡ true
    → outstanding t ≡ t.value
unfolding is_valid_token_transition
claims_value t coherent unspent valid = ground (arith, coherent)

module _ (marshal : OfflineToken → String) (tok row : OfflineToken) (w w' : World)
    (h : release_tx marshal tok w ≡ (ok true, w')) (valid : ValidBalances w.store.balances)
    (value : IsMoney tok.value) where
  exact_refund :
      (e : RefundEffect tok w.now w.store w'.store)
      → (add64 e.balance.available_balance tok.value ≡ e.balance.available_balance +ℤ tok.value)
        × (sub64 e.balance.reserved_balance tok.value ≡ e.balance.reserved_balance -ℤ tok.value)
  exact_refund e =
      let ((na, ia), (nr, ir)) = valid tok.owner_id e.balance e.found in
      let (nn, _) =
        nonneg_balance-IsNonneg _ _ _ e.nonneg
          (found-exists tok.owner_id w.store.balances e.balance e.found) in
      (add64-nonneg _ _ na ia value.0 value.1 nn, sub64-nonneg _ _ nr ir value.0 value.1)

  -- With balances and the value as their columns say, a transaction of `ReleaseExpiredTokens` that
  -- reports a release neither creates nor destroys money, and keeps the reserves backed: if the
  -- token's row has the value that was read before, is INVALIDATED only with a release time, and
  -- the reserved balances sum up to the values of the tokens that are issued or held, they still
  -- do afterwards.
  pub release_tx-IsBacked :
      find token_key tok.token_id w.store.tokens ≡ some row
      → row.value ≡ tok.value
      → IsCoherent row
      → IsBacked w.store
      → (total_funds w'.store.balances ≡ total_funds w.store.balances) × IsBacked w'.store
  release_tx-IsBacked found same coherent backed =
      let e = release_tx-RefundEffect marshal tok w w' h in
      let (a, r) = exact_refund e in
      let f =
        set_balance (add64 e.balance.available_balance tok.value)
          (sub64 e.balance.reserved_balance tok.value) w.now in
      let reserved = λ (b : AccountBalance). b.reserved_balance in
      let is_row : e.locked ≡ row = same_row found e.found_token in
      let claims : outstanding e.locked ≡ tok.value =
        rw (is_row) (
          claims_value row coherent (rw (is_row) at e.unspent) (rw (is_row) at e.may_end) ∙ same) in
      (
        omega (
          int_laws,
          parts_of_eq a,
          parts_of_eq r,
          parts_of_eq (ap total_funds e.balances_after),
          parts_of_eq
              (sum_by-update funds balance_key tok.owner_id f w.store.balances e.balance e.found),
        ),
        omega (
          int_laws,
          parts_of_eq r,
          parts_of_eq (ap (sum_by reserved) e.balances_after),
          parts_of_eq backed,
          parts_of_eq (ap (sum_by outstanding) e.tokens_after),
          parts_of_eq claims,
          parts_of_eq (
              sum_by-update reserved balance_key tok.owner_id f w.store.balances e.balance e.found),
          parts_of_eq (
              sum_by-update outstanding token_key tok.token_id (invalidate w.now) w.store.tokens
                e.locked e.found_token),
        ),
      )
