-- ===== src/Token/Laws.antt =====
-- What `IssueToken` (internal/token/service.go) guarantees when it returns a token, and when it
-- does not.
use offline_pay.Prelude.{
  ℕ, ◌+◌, String, ◌≡◌, refl, sym, true, false, not, ◌||◌, none, some, List, [], ◌∷◌, arith,
}
use offline_pay.Prelude.Int.{ℤ, pos, add64, sub64, ltb_ℤ, leb_ℤ}
use offline_pay.Domain.{Time, Device, OfflineToken, TokenStatus, AccountBalance}
use offline_pay.Database.{
  World, Store, Error, Result, ok, err, wrap_error, in_tx, find, exists, update, token_key,
  balance_key, query, where_rows, direct,
}
use offline_pay.Database.{exec, stmt}
use offline_pay.Database.Laws.{
  continue-elim, rewrap-ok, raise_if-ok, exec-ok, query_row-ok, query-store, query-ok, with_tx-ok,
}
use offline_pay.Repository.{
  create_token, default_status, set_balance, nonneg_balance, get_balance_for_update, update_balance,
  get_devices_by_owner, create_device, owned_by, create_payment_intent, create_ledger_entry,
  create_outbox_event,
}
use offline_pay.Repository.Laws.{
  update_balance-ok, create_payment_intent-ok, create_ledger_entry-ok,
}
use offline_pay.Settlement.{canonical_token}
use offline_pay.Token.Issue.{
  Issuer, issue_tx, issue_token, first_device, new_token, from_result, sign_and_store,
  write_reservation, placeholder, reservation_entry, limit_for, compute_offline_credit_limit,
}

-- Balances and tokens are as they were.
abbrev SameFunds : Store → Store → Type 0
SameFunds s s' = (s'.balances ≡ s.balances) × (s'.tokens ≡ s.tokens)

create_token-ok :
    (tok : OfflineToken) (w w' : World)
    → create_token in_tx tok w ≡ (ok tt, w')
    → (find token_key tok.token_id w.store.tokens ≡ none)
      × (w'.store ≡ record w.store {
        tokens = record tok { status = default_status tok.status } ∷ w.store.tokens;
      })
unfolding create_token
create_token-ok tok w w' h = let (e, n) = exec-ok in_tx _ w w' h in (ground arith, ground arith)

first_device-funds :
    (owner : String) (r : Result (List Device)) (w : World)
    → SameFunds w.store (first_device owner r w).1.store
unfolding first_device create_device exec stmt
first_device-funds owner (ok (d ∷ devices)) w = (refl, refl)
first_device-funds owner (ok []) w = (ground arith, ground arith)
first_device-funds owner (err e) w = (ground arith, ground arith)

-- The transaction of an issue: the balance covers the value, the token is new, the value moves
-- from available to reserved, and the token is stored as ISSUED.
pub record IssueEffect (owner : String) (value : ℤ) (now : Time) (tok : OfflineToken) (s s' : Store)
    : Type 0 where
  pub balance : AccountBalance
  pub found : find balance_key owner s.balances ≡ some balance
  pub enough : ltb_ℤ balance.available_balance value ≡ false
  pub nonneg :
      nonneg_balance (sub64 balance.available_balance value) (add64 balance.reserved_balance value)
        || not (exists balance_key owner s.balances)
      ≡ true
  pub is_new : find token_key tok.token_id s.tokens ≡ none
  pub owned : tok.owner_id ≡ owner
  pub worth : tok.value ≡ value
  pub balances_after :
      s'.balances
      ≡ update balance_key owner
          (set_balance
            (sub64 balance.available_balance value)
            (add64 balance.reserved_balance value)
            now)
          s.balances
  pub tokens_after : s'.tokens ≡ record tok { status = TokenStatus.issued } ∷ s.tokens

sign_and_store-ok :
    (issuer : Issuer) (token_id owner : String) (value : ℤ) (expiry : Time) (w w' : World)
    (tok : OfflineToken)
    → sign_and_store issuer token_id owner value expiry w ≡ (ok tok, w')
    → (find token_key tok.token_id w.store.tokens ≡ none)
      × (tok.owner_id ≡ owner)
      × (tok.value ≡ value)
      × (w'.store
          ≡ record w.store { tokens = record tok { status = TokenStatus.issued } ∷ w.store.tokens })
unfolding sign_and_store
sign_and_store-ok issuer token_id owner value expiry w w' tok h =
    let text = canonical_token issuer.format_int token_id owner value expiry in
    continue-elim {x = wrap_error "failed to sign token" (from_result (issuer.sign text)) w} h
      (λ signature w1 q1 h1.
        let t = new_token token_id owner value expiry signature w1.now in
        let signed = rewrap-ok _ (from_result (issuer.sign text) w) signature w1 q1 in
        continue-elim {x = wrap_error "failed to save token" (create_token in_tx t) w1} h1
          (λ u w2 q2 h2.
            let (is_new, s) =
              create_token-ok t w1 w2 (rewrap-ok _ (create_token in_tx t w1) tt w2 q2) in
            (ground arith, ground arith, ground arith, ground arith)))

write_reservation-ok :
    (issuer : Issuer) (owner : String) (tok : OfflineToken) (available : ℤ) (w w' : World)
    (t : OfflineToken)
    → write_reservation issuer owner tok available w ≡ (ok t, w')
    → (t ≡ tok) × SameFunds w.store w'.store
unfolding write_reservation get_devices_by_owner create_outbox_event
write_reservation-ok issuer owner tok available w w' t h =
    let read = λ (s : Store). where_rows (owned_by owner) s.devices in
    let x = query direct read w in
    let (s0, n0) = query-store direct read w in
    continue-elim {x = first_device owner x.0 x.1} h (λ device_id w1 q1 h1.
      let (b1, t1) = first_device-funds owner x.0 x.1 in
      let intent = placeholder owner tok device_id w1.now in
      continue-elim
        {x = wrap_error "failed to create placeholder payment intent"
          (create_payment_intent in_tx intent) w1}
        h1
        (λ u w2 q2 h2.
          let (_, s2, n2) =
            create_payment_intent-ok in_tx intent w1 w2
              (rewrap-ok _ (create_payment_intent in_tx intent w1) tt w2 q2) in
          let entry = reservation_entry owner tok available in
          continue-elim
            {x = wrap_error "failed to create ledger entry" (create_ledger_entry entry) w2} h2
            (λ v w3 q3 h3.
              let (_, s3, n3) =
                create_ledger_entry-ok entry w2 w3
                  (rewrap-ok _ (create_ledger_entry entry w2) tt w3 q3) in
              let message =
                create_outbox_event in_tx "token.issued" "TokenIssued" (issuer.marshal tok) in
              continue-elim {x = wrap_error "failed to write outbox event" message w3} h3
                (λ v' w4 q4 h4.
                  let (s4, n4) = exec-ok in_tx _ w3 w4 (rewrap-ok _ (message w3) tt w4 q4) in
                  (ground arith, (ground arith, ground arith))))))

pub issue_tx-ok :
    (issuer : Issuer) (token_id owner : String) (value : ℤ) (expiry : Time) (w w' : World)
    (tok : OfflineToken)
    → issue_tx issuer token_id owner value expiry w ≡ (ok tok, w')
    → IssueEffect owner value w.now tok w.store w'.store
unfolding issue_tx get_balance_for_update get_devices_by_owner
issue_tx-ok issuer token_id owner value expiry w w' tok h =
    continue-elim
      {x = wrap_error "failed to retrieve account balance" (get_balance_for_update owner) w} h
      (λ bal w1 q1 h1.
        let (found, s1, n1) =
          query_row-ok in_tx _ w w1 bal (rewrap-ok _ (get_balance_for_update owner w) bal w1 q1) in
        let (enough, h2) =
          raise_if-ok (ltb_ℤ bal.available_balance value)
            (Error.message "insufficient available balance") w1 _ tok w' h1 in
        let new_available = sub64 bal.available_balance value in
        let new_reserved = add64 bal.reserved_balance value in
        continue-elim
          {x = wrap_error "failed to update balances"
            (update_balance in_tx owner new_available new_reserved) w1}
          h2
          (λ u w2 q2 h3.
            let (checked, s2, n2) =
              update_balance-ok in_tx owner new_available new_reserved w1 w2
                (rewrap-ok _ (update_balance in_tx owner new_available new_reserved w1) tt w2 q2) in
            continue-elim {x = sign_and_store issuer token_id owner value expiry w2} h3
              (λ t w3 q3 h4.
                let (is_new, owned, worth, s3) =
                  sign_and_store-ok issuer token_id owner value expiry w2 w3 t q3 in
                let (same, (b4, t4)) =
                  write_reservation-ok issuer owner t new_available w3 w' tok h4 in
                record {
                  balance = bal;
                  found = found;
                  enough = enough;
                  nonneg = ground arith;
                  is_new = ground arith;
                  owned = ground arith;
                  worth = ground arith;
                  balances_after = ground arith;
                  tokens_after = ground arith;
                })))

-- The limit that the owner's devices allow.
abbrev pub limit_in : String → Store → ℤ
limit_in owner s = limit_for (where_rows (owned_by owner) s.devices)

limit-ok :
    (owner : String) (w w' : World) (l : ℤ)
    → compute_offline_credit_limit owner w ≡ (ok l, w')
    → (l ≡ limit_in owner w.store) × ((w'.store ≡ w.store) × (w'.now ≡ w.now))
unfolding compute_offline_credit_limit get_devices_by_owner
limit-ok owner w w' l h =
    continue-elim {x = query direct (λ s. where_rows (owned_by owner) s.devices) w} h
      (λ devices w1 q1 h1.
        let (e, s, n) = query-ok direct _ w w1 devices q1 in
        (ground arith, (ground arith, ground arith)))

-- `IssueToken` returns a token only for a positive value within the owner's dynamic limit and
-- available balance; the value moves from the owner's available to the reserved balance, and the
-- token is stored as ISSUED under a new id, for that owner and that value.
pub issue_token-IssueEffect :
    (issuer : Issuer) (token_id owner : String) (value : ℤ) (duration : ℕ) (w w' : World)
    (tok : OfflineToken)
    → issue_token issuer token_id owner value duration w ≡ (ok tok, w')
    → (leb_ℤ value (pos 0) ≡ false)
      × (ltb_ℤ (limit_in owner w.store) value ≡ false)
      × IssueEffect owner value w.now tok w.store w'.store
unfolding issue_token compute_offline_credit_limit get_devices_by_owner
issue_token-IssueEffect issuer token_id owner value duration w w' tok h =
    let (positive, h1) =
      raise_if-ok (leb_ℤ value (pos 0)) (Error.message "token value must be greater than zero") w _
        tok w' h in
    let limit = compute_offline_credit_limit owner in
    continue-elim {x = wrap_error "failed to compute credit limit" limit w} h1 (λ l w1 q1 h2.
      let (l_is, (s1, n1)) = limit-ok owner w w1 l (rewrap-ok _ (limit w) l w1 q1) in
      let (within, h3) =
        raise_if-ok (ltb_ℤ l value) (Error.message "requested token value exceeds dynamic limit") w1
          _ tok w' h2 in
      let (w2, w3, s2, n2, q3, s3, n3) =
        with_tx-ok (issue_tx issuer token_id owner value (w1.now + duration)) w1 w' tok h3 in
      let e = issue_tx-ok issuer token_id owner value (w1.now + duration) w2 w3 tok q3 in
      (positive, ground arith, rw (sym s3, s2, s1, n2, n1) at e))
