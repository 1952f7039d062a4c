-- ===== src/Settlement/Effects.antt =====
-- What LEDGER_COMMIT (internal/settlement/service.go) has found and written when it ends without an
-- error.
use offline_pay.Prelude.{◌≡◌, true, not, ◌||◌, none, some, List, ◌∷◌, arith}
use offline_pay.Prelude.Int.{ℤ, pos, add64, sub64, ltb_ℤ}
use offline_pay.Domain.{
  Time, OfflineToken, TokenStatus, AccountBalance, PaymentState, LedgerEntry, Direction, EntryType,
  is_valid_token_transition,
}
use offline_pay.Database.{
  World, Store, ok, in_tx, find, exists, update, token_key, balance_key, intent_key,
}
use offline_pay.Database.Laws.{continue-elim}
use offline_pay.Repository.{
  get_balance_for_update, consume, consume_token, set_balance, nonneg_balance, set_intent_status,
  update_balance, update_payment_intent_status, create_ledger_entry,
}
use offline_pay.Repository.Laws.{
  update_balance-ok, transition_token-ok, update_payment_intent_status-ok, create_ledger_entry-ok,
}
use offline_pay.Settlement.Steps.{
  Payment, Accounts, lock_accounts, ledger_action, change_amount, reservation_txn, write_ledger,
  ledger_entry,
}
use offline_pay.Settlement.Reserve.{get_balance_for_update-reads, lock_accounts-ok}

-- The entries of a settlement: the sender pays, the receiver is paid, and the token's reservation
-- is released.
abbrev pub debit_entry : Payment → ℤ → LedgerEntry
debit_entry x after =
    ledger_entry x x.p.txn_id x.p.sender_id Direction.debit x.p.amount EntryType.settlement after

abbrev pub credit_entry : Payment → ℤ → LedgerEntry
credit_entry x after =
    ledger_entry x x.p.txn_id x.p.receiver_id Direction.credit x.p.amount EntryType.settlement after

abbrev pub release_entry : Payment → ℤ → LedgerEntry
release_entry x after =
    ledger_entry x (reservation_txn x.p.token_id) x.p.sender_id Direction.credit x.token.value
      EntryType.release after

-- The rows that LEDGER_COMMIT writes, from the two accounts as it has locked them.
module _ (x : Payment) (acc : Accounts) where
  abbrev pub sender_available : ℤ
  sender_available = add64 acc.sender.available_balance (change_amount x)

  abbrev pub sender_reserved : ℤ
  sender_reserved = sub64 acc.sender.reserved_balance x.token.value

  abbrev pub receiver_available : ℤ
  receiver_available = add64 acc.receiver.available_balance x.p.amount

  -- The two updates, the sender's first.
  abbrev pub moved : Time → List AccountBalance → List AccountBalance
  moved now rows =
      update balance_key x.p.receiver_id
        (set_balance receiver_available acc.receiver.reserved_balance now)
        (update balance_key x.p.sender_id (set_balance sender_available sender_reserved now) rows)

-- The three entries, the last one first.
module _ (x : Payment) (sa ra : ℤ) where
  abbrev pub entries : Time → List LedgerEntry → List LedgerEntry
  entries now rows =
      record (release_entry x sa) { created_at = now }
      ∷ record (credit_entry x ra) { created_at = now }
      ∷ record (debit_entry x sa) { created_at = now }
      ∷ rows

-- LEDGER_COMMIT: the token was held, both accounts exist, the new balances are not negative, and
-- the amount is positive.
pub record LedgerEffect (x : Payment) (now : Time) (s s' : Store) : Type 0 where
  pub accounts : Accounts
  pub token : OfflineToken
  pub found_token : find token_key x.p.token_id s.tokens ≡ some token
  pub was_held : is_valid_token_transition token.status TokenStatus.consumed ≡ true
  pub found_sender : find balance_key x.p.sender_id s.balances ≡ some accounts.sender
  pub found_receiver : find balance_key x.p.receiver_id s.balances ≡ some accounts.receiver
  pub sender_nonneg :
      nonneg_balance (sender_available x accounts) (sender_reserved x accounts)
        || not (exists balance_key x.p.sender_id s.balances)
      ≡ true
  pub receiver_nonneg :
      nonneg_balance (receiver_available x accounts) accounts.receiver.reserved_balance
        || not (
            exists balance_key x.p.receiver_id (
              update balance_key x.p.sender_id
                (set_balance (sender_available x accounts) (sender_reserved x accounts) now)
                s.balances))
      ≡ true
  pub positive : ltb_ℤ (pos 0) x.p.amount ≡ true
  pub written : s' ≡ record s {
    tokens = update token_key x.p.token_id (consume now) s.tokens;
    balances = moved x accounts now s.balances;
    intents =
        update intent_key x.p.txn_id (set_intent_status PaymentState.settled none now) s.intents;
    ledger = entries x (sender_available x accounts) (receiver_available x accounts) now s.ledger;
  }

write_ledger-ok :
    (x : Payment) (sa ra : ℤ) (w w' : World)
    → write_ledger x sa ra w ≡ (ok tt, w')
    → (ltb_ℤ (pos 0) x.p.amount ≡ true)
      × (w'.store ≡ record w.store {
        intents =
            update intent_key x.p.txn_id
              (set_intent_status PaymentState.settled none w.now)
              w.store.intents;
        ledger = entries x sa ra w.now w.store.ledger;
      })
      × (w'.now ≡ w.now)
unfolding write_ledger
write_ledger-ok x sa ra w w' h =
    continue-elim {x = update_payment_intent_status in_tx x.p.txn_id PaymentState.settled none w} h
      (λ u w1 q1 h1. continue-elim {x = create_ledger_entry (debit_entry x sa) w1} h1 (λ v w2 q2 h2.
        continue-elim {x = create_ledger_entry (credit_entry x ra) w2} h2 (λ t w3 q3 h3.
          let (s1, n1) = update_payment_intent_status-ok in_tx x.p.txn_id _ _ w w1 q1 in
          let (p2, s2, n2) = create_ledger_entry-ok (debit_entry x sa) w1 w2 q2 in
          let (p3, s3, n3) = create_ledger_entry-ok (credit_entry x ra) w2 w3 q3 in
          let (p4, s4, n4) = create_ledger_entry-ok (release_entry x sa) w3 w' h3 in
          (p2, ground arith, ground arith))))

pub ledger_action-ok :
    (x : Payment) (w w' : World)
    → ledger_action x w ≡ (ok tt, w')
    → LedgerEffect x w.now w.store w'.store × (w'.now ≡ w.now)
unfolding ledger_action consume_token
ledger_action-ok x w w' h = continue-elim {x = consume_token in_tx x.p.token_id w} h (λ u w1 q1 h1.
    let (t, ft, valid, s1, n1) = transition_token-ok in_tx x.p.token_id _ _ consume w w1 q1 in
    continue-elim {x = lock_accounts get_balance_for_update x.p.sender_id x.p.receiver_id w1} h1
      (λ acc w2 q2 h2.
        let (fs, fr, s2, n2) =
          lock_accounts-ok _ x.p.sender_id x.p.receiver_id w1 w2 acc get_balance_for_update-reads
            q2 in
        continue-elim
          {x = update_balance in_tx x.p.sender_id (sender_available x acc) (sender_reserved x acc)
            w2}
          h2
          (λ u3 w3 q3 h3.
            let (c3, s3, n3) = update_balance-ok in_tx x.p.sender_id _ _ w2 w3 q3 in
            continue-elim
              {x = update_balance in_tx x.p.receiver_id (receiver_available x acc)
                acc.receiver.reserved_balance w3}
              h3
              (λ u4 w4 q4 h4.
                let (c4, s4, n4) = update_balance-ok in_tx x.p.receiver_id _ _ w3 w4 q4 in
                let (positive, s5, n5) = write_ledger-ok x _ _ w4 w' h4 in
                (
                  record {
                    accounts = acc;
                    token = t;
                    found_token = ft;
                    was_held = valid;
                    found_sender = ground arith;
                    found_receiver = ground arith;
                    sender_nonneg = ground arith;
                    receiver_nonneg = ground arith;
                    positive = positive;
                    written = ground arith;
                  },
                  ground arith,
                )))))
