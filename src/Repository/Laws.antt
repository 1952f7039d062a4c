-- ===== src/Repository/Laws.antt =====
-- What each statement that succeeds has done to the tables, and what it has found.
use offline_pay.Prelude.{
  String, ◌≡◌, refl, Bool, true, false, not, ◌||◌, Option, none, some, List, ◌∷◌, arith,
}
use offline_pay.Prelude.Int.{ℤ, pos, ltb_ℤ}
use offline_pay.Domain.{
  Time, OfflineToken, TokenStatus, LedgerEntry, PaymentIntent, PaymentState,
  is_valid_token_transition,
}
use offline_pay.Database.{
  World, Error, Result, ok, require, Conn, in_tx, query_row, find, exists, update, token_key,
  balance_key, intent_key, nonce_key,
}
use offline_pay.Database.Laws.{continue-ok, exec-ok, query_row-ok, raise_if-ok}
use offline_pay.Repository.Tokens.{transition_token}
use offline_pay.Repository.Balances.{
  update_balance, set_balance, nonneg_balance, create_ledger_entry,
}
use offline_pay.Repository.Intents.{
  create_payment_intent, register_nonce, update_payment_intent_status, set_intent_status,
}

pub require-ok {ℓ} :
    {A : Type ℓ} (b : Bool) (e : Error) (r : Result A) (a : A)
    → require b e r ≡ ok a
    → (b ≡ true) × (r ≡ ok a)
require-ok true e r a h = (refl, h)
require-ok false e r a h = cc

pub exists-found {ℓ} :
    {V : Type ℓ} (key : V → String) (k : String) (rows : List V)
    → exists key k rows ≡ true
    → (v : V) × (find key k rows ≡ some v)
exists-found key k rows h = ground arith

pub exists-none {ℓ} :
    {V : Type ℓ} (key : V → String) (k : String) (rows : List V)
    → not (exists key k rows) ≡ true
    → find key k rows ≡ none
exists-none key k rows h = ground arith

pub update_balance-ok :
    (c : Conn) (a : String) (available reserved : ℤ) (w w' : World)
    → update_balance c a available reserved w ≡ (ok tt, w')
    → ((nonneg_balance available reserved || not (exists balance_key a w.store.balances)) ≡ true)
      × (w'.store ≡ record w.store {
        balances = update balance_key a (set_balance available reserved w.now) w.store.balances;
      })
      × (w'.now ≡ w.now)
unfolding update_balance
update_balance-ok c a available reserved w w' h =
    let (e, n) = exec-ok c _ w w' h in
    let (checked, s) = require-ok _ Error.check_violation _ w'.store e in (checked, ground arith, n)

pub transition_token-ok :
    (c : Conn) (id : String) (target : TokenStatus) (reason : String)
    (f : Time → OfflineToken → OfflineToken) (w w' : World)
    → transition_token c id target reason f w ≡ (ok tt, w')
    → (t : OfflineToken) × (find token_key id w.store.tokens ≡ some t)
      × (is_valid_token_transition t.status target ≡ true)
      × (w'.store ≡ record w.store { tokens = update token_key id (f w.now) w.store.tokens })
      × (w'.now ≡ w.now)
unfolding transition_token
transition_token-ok c id target reason f w w' h =
    let (t, w1, q, h1) = continue-ok (query_row c (λ s. find token_key id s.tokens) w) _ tt w' h in
    let (found, s1, n1) = query_row-ok c _ w w1 t q in
    let (valid, h2) =
      raise_if-ok (not (is_valid_token_transition t.status target)) (Error.message reason) w1 _ tt
        w' h1 in
    let (e, n) = exec-ok c _ w1 w' h2 in (t, found, ground arith, ground arith, ground arith)

pub update_payment_intent_status-ok :
    (c : Conn) (txn_id : String) (status : PaymentState) (reason : Option String) (w w' : World)
    → update_payment_intent_status c txn_id status reason w ≡ (ok tt, w')
    → (w'.store ≡ record w.store {
      intents = update intent_key txn_id (set_intent_status status reason w.now) w.store.intents;
    })
      × (w'.now ≡ w.now)
unfolding update_payment_intent_status
update_payment_intent_status-ok c txn_id status reason w w' h =
    let (e, n) = exec-ok c _ w w' h in (ground arith, n)

pub create_ledger_entry-ok :
    (entry : LedgerEntry) (w w' : World)
    → create_ledger_entry entry w ≡ (ok tt, w')
    → (ltb_ℤ (pos 0) entry.amount ≡ true)
      × (w'.store
          ≡ record w.store { ledger = record entry { created_at = w.now } ∷ w.store.ledger })
      × (w'.now ≡ w.now)
unfolding create_ledger_entry
create_ledger_entry-ok entry w w' h =
    let (e, n) = exec-ok in_tx _ w w' h in (ground arith, ground arith, n)

pub create_payment_intent-ok :
    (c : Conn) (intent : PaymentIntent) (w w' : World)
    → create_payment_intent c intent w ≡ (ok tt, w')
    → (find intent_key intent.txn_id w.store.intents ≡ none)
      × (w'.store ≡ record w.store { intents = intent ∷ w.store.intents })
      × (w'.now ≡ w.now)
unfolding create_payment_intent
create_payment_intent-ok c intent w w' h =
    let (e, n) = exec-ok c _ w w' h in (ground arith, ground arith, n)

pub register_nonce-ok :
    (c : Conn) (nonce txn_id : String) (expiry : Time) (w w' : World)
    → register_nonce c nonce txn_id expiry w ≡ (ok tt, w')
    → (find nonce_key nonce w.store.nonces ≡ none)
      × (w'.store ≡ record w.store {
        nonces =
            record { nonce = nonce; txn_id = txn_id; consumed_at = w.now; expiry = expiry }
            ∷ w.store.nonces;
      })
      × (w'.now ≡ w.now)
unfolding register_nonce
register_nonce-ok c nonce txn_id expiry w w' h =
    let (e, n) = exec-ok c _ w w' h in (ground arith, ground arith, n)
