-- ===== src/Settlement/Reserve.antt =====
-- What RESERVE and CONSUME_TOKEN (internal/settlement/service.go) have found and written when they
-- end without an error.
use offline_pay.Prelude.{
  String, ◌≡◌, refl, true, false, ite, none, some, ◌∷◌, arith, Bool-cases, inl, inr,
}
use offline_pay.Prelude.Int.{ltb_ℤ}
use offline_pay.Domain.{
  OfflineToken, TokenStatus, TokenStatus-discrete, AccountBalance, NonceRegistry, PaymentIntent,
}
use offline_pay.Database.{
  World, Store, Error, ok, Db, wrap_error, in_tx, query_row, find, update, token_key, balance_key,
  intent_key, nonce_key,
}
use Prim.Native.String.{compare}
use text.Mathlib.Text.{is_le}
use offline_pay.Database.Laws.{continue-ok, continue-elim, rewrap-ok, raise_if-ok, query_row-ok}
use offline_pay.Repository.{
  get_balance_for_update, get_token_for_update, hold, hold_token, create_payment_intent,
  register_nonce,
}
use offline_pay.Repository.Laws.{transition_token-ok, create_payment_intent-ok, register_nonce-ok}
use offline_pay.Settlement.Steps.{
  Payment, Accounts, lock_accounts, reserve_action, consume_action, reserved_intent,
}

-- A read of one balance that leaves the tables alone.
abbrev pub ReadsBalance : (String → Db AccountBalance) → Type 0
ReadsBalance get =
    (a : String) (w w' : World) (b : AccountBalance)
    → get a w ≡ (ok b, w')
    → (find balance_key a w.store.balances ≡ some b) × (w'.store ≡ w.store) × (w'.now ≡ w.now)

pub get_balance_for_update-reads : ReadsBalance get_balance_for_update
unfolding get_balance_for_update
get_balance_for_update-reads a w w' b h = query_row-ok in_tx _ w w' b h

pub wrapped-reads : (s : String) → ReadsBalance (λ a. wrap_error s (get_balance_for_update a))
wrapped-reads s a w w' b h =
    get_balance_for_update-reads a w w' b (rewrap-ok s (get_balance_for_update a w) b w' h)

-- Whatever the order of the locks, both rows are those of the tables before.
pub lock_accounts-ok :
    (get : String → Db AccountBalance) (sender receiver : String) (w w' : World) (x : Accounts)
    → ReadsBalance get
    → lock_accounts get sender receiver w ≡ (ok x, w')
    → (find balance_key sender w.store.balances ≡ some x.sender)
      × (find balance_key receiver w.store.balances ≡ some x.receiver)
      × (w'.store ≡ w.store)
      × (w'.now ≡ w.now)
unfolding lock_accounts
lock_accounts-ok get sender receiver w w' x reads h =
    elim (Bool-cases (is_le (compare sender receiver))) [
      | inl first ↦
          let h0 = rw first at h in
          let (a, w1, p, h1) = continue-ok (get sender w) _ x w' h0 in
          let (b, w2, q, h2) = continue-ok (get receiver w1) _ x w' h1 in
          let (fa, sa, na) = reads sender w w1 a p in
          let (fb, sb, nb) = reads receiver w1 w2 b q in
          (ground arith, ground arith, ground arith, ground arith)
      | inr second ↦
          let h0 = rw second at h in
          let (b, w1, p, h1) = continue-ok (get receiver w) _ x w' h0 in
          let (a, w2, q, h2) = continue-ok (get sender w1) _ x w' h1 in
          let (fb, sb, nb) = reads receiver w w1 b p in
          let (fa, sa, na) = reads sender w1 w2 a q in
          (ground arith, ground arith, ground arith, ground arith)
    ]

-- RESERVE: the reserve covers the token, the payment and its nonce are new, and only their two
-- rows are added.
pub record ReserveEffect (x : Payment) (s s' : Store) : Type 0 where
  pub sender : AccountBalance
  pub intent : PaymentIntent
  pub found_sender : find balance_key x.p.sender_id s.balances ≡ some sender
  pub covered : ltb_ℤ sender.reserved_balance x.token.value ≡ false
  pub fresh_txn : find intent_key x.p.txn_id s.intents ≡ none
  pub fresh_nonce : find nonce_key x.p.nonce s.nonces ≡ none
  pub is_intent : intent.txn_id ≡ x.p.txn_id
  pub added_intent : s'.intents ≡ intent ∷ s.intents
  pub entry : NonceRegistry
  pub is_entry : entry.nonce ≡ x.p.nonce
  pub entry_txn : entry.txn_id ≡ x.env.txn_id
  pub added_nonce : s'.nonces ≡ entry ∷ s.nonces
  pub same_tokens : s'.tokens ≡ s.tokens
  pub same_balances : s'.balances ≡ s.balances
  pub same_ledger : s'.ledger ≡ s.ledger

pub reserve_action-ok :
    (x : Payment) (w w' : World)
    → reserve_action x w ≡ (ok tt, w')
    → ReserveEffect x w.store w'.store × (w'.now ≡ w.now)
unfolding reserve_action
reserve_action-ok x w w' h =
    continue-elim
      {x = lock_accounts
        (λ a. wrap_error "failed to lock balance for account" (get_balance_for_update a))
        x.p.sender_id x.p.receiver_id w}
      h
      (λ acc w1 q h1.
        let (fs, fr, s1, n1) =
          lock_accounts-ok _ x.p.sender_id x.p.receiver_id w w1 acc (wrapped-reads _) q in
        let (covered, h2) =
          raise_if-ok (ltb_ℤ acc.sender.reserved_balance x.token.value)
            (Error.message "insufficient reserved balance") w1 _ tt w' h1 in
        continue-elim
          {x = wrap_error "failed to create reservation intent"
            (create_payment_intent in_tx (reserved_intent x w1.now)) w1}
          h2
          (λ u w3 q3 h3.
            let (fresh, s3, n3) =
              create_payment_intent-ok in_tx (reserved_intent x w1.now) w1 w3 (
                rewrap-ok _ (create_payment_intent in_tx (reserved_intent x w1.now) w1) tt w3 q3) in
            let (nonce, s4, n4) =
              register_nonce-ok in_tx x.p.nonce x.env.txn_id x.p.expiry w3 w' (
                rewrap-ok _ (register_nonce in_tx x.p.nonce x.env.txn_id x.p.expiry w3) tt w' h3) in
            (
              record {
                sender = acc.sender;
                intent = reserved_intent x w1.now;
                found_sender = fs;
                covered = covered;
                fresh_txn = ground arith;
                fresh_nonce = ground arith;
                is_intent = refl;
                added_intent = ground arith;
                entry = record {
                  nonce = x.p.nonce;
                  txn_id = x.env.txn_id;
                  consumed_at = w3.now;
                  expiry = x.p.expiry;
                };
                is_entry = refl;
                entry_txn = refl;
                added_nonce = ground arith;
                same_tokens = ground arith;
                same_balances = ground arith;
                same_ledger = ground arith;
              },
              ground arith,
            )))

pub consume_action-ok :
    (x : Payment) (w w' : World)
    → consume_action x w ≡ (ok tt, w')
    → (t : OfflineToken) × (find token_key x.p.token_id w.store.tokens ≡ some t)
      × (t.status ≡ TokenStatus.issued)
      × (w'.store
          ≡ record w.store { tokens = update token_key x.p.token_id (hold w.now) w.store.tokens })
      × (w'.now ≡ w.now)
unfolding consume_action hold_token get_token_for_update
consume_action-ok x w w' h =
    let (t, w1, q, h1) =
      continue-ok (query_row in_tx (λ s. find token_key x.p.token_id s.tokens) w) _ tt w' h in
    let (found, s1, n1) = query_row-ok in_tx _ w w1 t q in
    let (issued, h2) =
      raise_if-ok (ite (TokenStatus-discrete t.status TokenStatus.issued) false true)
        (Error.message "token state mismatch: expected ISSUED") w1 _ tt w' h1 in
    let (t', found', valid, s2, n2) = transition_token-ok in_tx x.p.token_id _ _ hold w1 w' h2 in
    (t, found, ground arith, ground arith, ground arith)
