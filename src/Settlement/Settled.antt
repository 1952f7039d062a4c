-- ===== src/Settlement/Settled.antt =====
-- What a settlement that returns no error has done to the tables.
use offline_pay.Prelude.{
  ◌≡◌, refl, sym, ap, subst, ◌∙◌, Bool, true, false, not, ◌||◌, Option, none, some, List, ◌∷◌,
  arith,
}
use offline_pay.Prelude.Int.{pos, ltb_ℤ}
use offline_pay.Domain.{
  Time, AccountBalance, OfflineToken, TokenStatus, NonceRegistry, PaymentState, PaymentIntent,
}
use offline_pay.Database.{
  World, Store, find, token_key, balance_key, nonce_key, intent_key, update, exists, find-key,
  find-update_self,
}
use offline_pay.Repository.{hold, consume, set_balance, nonneg_balance, set_intent_status}
use offline_pay.Saga.Laws.{RanAll, SagaOnly}
use offline_pay.Settlement.Steps.{Payment, Accounts, saga_steps}
use offline_pay.Settlement.Effects.{
  ledger_action-ok, moved, entries, sender_available, sender_reserved, receiver_available,
}
use offline_pay.Settlement.Reserve.{reserve_action-ok, consume_action-ok}
use offline_pay.Settlement.Publish.{publish_action-ok}

-- The check of the receiver's row, which comes after the update of the sender's.
abbrev receiver_check : Payment → Accounts → Time → List AccountBalance → Bool
receiver_check x acc now rows =
    nonneg_balance (receiver_available x acc) acc.receiver.reserved_balance
    || not (
        exists balance_key x.p.receiver_id (
          update balance_key x.p.sender_id
            (set_balance (sender_available x acc) (sender_reserved x acc) now) rows))

-- The sum of the four steps: what the tables held before, and what they hold after.
pub record SettledEffect (x : Payment) (now : Time) (s s' : Store) : Type 0 where
  pub accounts : Accounts
  pub token : OfflineToken
  pub intent : PaymentIntent
  pub nonce : NonceRegistry
  pub found_token : find token_key x.p.token_id s.tokens ≡ some token
  pub was_issued : token.status ≡ TokenStatus.issued
  pub found_sender : find balance_key x.p.sender_id s.balances ≡ some accounts.sender
  pub found_receiver : find balance_key x.p.receiver_id s.balances ≡ some accounts.receiver
  pub covered : ltb_ℤ accounts.sender.reserved_balance x.token.value ≡ false
  pub sender_nonneg :
      nonneg_balance (sender_available x accounts) (sender_reserved x accounts)
        || not (exists balance_key x.p.sender_id s.balances)
      ≡ true
  pub receiver_nonneg :
      nonneg_balance (receiver_available x accounts) accounts.receiver.reserved_balance
        || not (
            exists balance_key x.p.receiver_id (
              update balance_key x.p.sender_id
                (set_balance (sender_available x accounts) (sender_reserved x accounts) now)
                s.balances))
      ≡ true
  pub positive : ltb_ℤ (pos 0) x.p.amount ≡ true
  pub fresh_txn : find intent_key x.p.txn_id s.intents ≡ none
  pub fresh_nonce : find nonce_key x.p.nonce s.nonces ≡ none
  pub is_intent : intent.txn_id ≡ x.p.txn_id
  pub is_nonce : nonce.nonce ≡ x.p.nonce
  pub nonce_txn : nonce.txn_id ≡ x.env.txn_id
  pub tokens_after :
      s'.tokens
      ≡ update token_key x.p.token_id
          (consume now)
          (update token_key x.p.token_id (hold now) s.tokens)
  pub balances_after : s'.balances ≡ moved x accounts now s.balances
  pub intents_after :
      s'.intents
      ≡ update intent_key x.p.txn_id
          (set_intent_status PaymentState.settled none now)
          (intent ∷ s.intents)
  pub nonces_after : s'.nonces ≡ nonce ∷ s.nonces
  pub ledger_after :
      s'.ledger
      ≡ entries x (sender_available x accounts) (receiver_available x accounts) now s.ledger

same_found {ℓ} : {A : Type ℓ} {o : Option A} {a b : A} → o ≡ some a → o ≡ some b → a ≡ b
same_found p q = cc

-- The tables at a stage, from the sagas' rows written since the last one.
module _ {w w' : World} (g : SagaOnly w w') where
  same_balances : w'.store.balances ≡ w.store.balances
  same_balances = ap (λ (s : Store). s.balances) g.tables

  same_tokens : w'.store.tokens ≡ w.store.tokens
  same_tokens = ap (λ (s : Store). s.tokens) g.tables

  same_intents : w'.store.intents ≡ w.store.intents
  same_intents = ap (λ (s : Store). s.intents) g.tables

  same_nonces : w'.store.nonces ≡ w.store.nonces
  same_nonces = ap (λ (s : Store). s.nonces) g.tables

  same_ledger : w'.store.ledger ≡ w.store.ledger
  same_ledger = ap (λ (s : Store). s.ledger) g.tables

pub RanAll-effect :
    (x : Payment) (w w' : World)
    → RanAll (saga_steps x) w w'
    → SettledEffect x w.now w.store w'.store
unfolding saga_steps
RanAll-effect x w w' (a1, b1, g1, q1, (a2, b2, g2, q2, (a3, b3, g3, q3, (a4, b4, g4, q4, g5)))) =
    let (r, n1) = reserve_action-ok x a1 b1 q1 in
    let (t, found, issued, held, n2) = consume_action-ok x a2 b2 q2 in
    let (l, n3) = ledger_action-ok x a3 b3 q3 in
    let logs = publish_action-ok x a4 b4 q4 in
    let now2 : a2.now ≡ w.now = g2.same_now ∙ n1 ∙ g1.same_now in
    let now3 : a3.now ≡ w.now = g3.same_now ∙ n2 ∙ now2 in
    let balances2 : a2.store.balances ≡ w.store.balances =
      same_balances g2 ∙ r.same_balances ∙ same_balances g1 in
    let tokens2 : a2.store.tokens ≡ w.store.tokens =
      same_tokens g2 ∙ r.same_tokens ∙ same_tokens g1 in
    let balances3 : a3.store.balances ≡ w.store.balances =
      same_balances g3 ∙ ap (λ (s : Store). s.balances) held ∙ balances2 in
    let tokens3 : a3.store.tokens ≡ update token_key x.p.token_id (hold w.now) w.store.tokens =
      rw (same_tokens g3, held, now2, tokens2) refl in
    let ledger3 : a3.store.ledger ≡ w.store.ledger =
      same_ledger g3
      ∙ ap (λ (s : Store). s.ledger) held
      ∙ same_ledger g2
      ∙ r.same_ledger
      ∙ same_ledger g1 in
    let intents3 : a3.store.intents ≡ r.intent ∷ w.store.intents =
      same_intents g3
      ∙ ap (λ (s : Store). s.intents) held
      ∙ same_intents g2
      ∙ r.added_intent
      ∙ ap (λ rows. r.intent ∷ rows) (same_intents g1) in
    let nonces3 : a3.store.nonces ≡ r.entry ∷ w.store.nonces =
      same_nonces g3
      ∙ ap (λ (s : Store). s.nonces) held
      ∙ same_nonces g2
      ∙ r.added_nonce
      ∙ ap (λ rows. r.entry ∷ rows) (same_nonces g1) in
    let found_sender =
      subst (λ rows. find balance_key x.p.sender_id rows ≡ some l.accounts.sender) balances3
        l.found_sender in
    let first_sender =
      subst (λ rows. find balance_key x.p.sender_id rows ≡ some r.sender) (same_balances g1)
        r.found_sender in
    record {
      accounts = l.accounts;
      token = t;
      intent = r.intent;
      nonce = r.entry;
      found_token = subst (λ rows. find token_key x.p.token_id rows ≡ some t) tokens2 found;
      was_issued = issued;
      found_sender = found_sender;
      found_receiver =
          subst (λ rows. find balance_key x.p.receiver_id rows ≡ some l.accounts.receiver) balances3
            l.found_receiver;
      covered =
          subst (λ (b : AccountBalance). ltb_ℤ b.reserved_balance x.token.value ≡ false)
            (same_found first_sender found_sender) r.covered;
      sender_nonneg =
          subst
            (λ rows.
              nonneg_balance (sender_available x l.accounts) (sender_reserved x l.accounts)
                || not (exists balance_key x.p.sender_id rows)
              ≡ true)
            balances3 l.sender_nonneg;
      receiver_nonneg =
          subst (λ now. receiver_check x l.accounts now w.store.balances ≡ true) now3
            (subst (λ rows. receiver_check x l.accounts a3.now rows ≡ true) balances3
              l.receiver_nonneg);
      positive = l.positive;
      fresh_txn =
          subst (λ rows. find intent_key x.p.txn_id rows ≡ none) (same_intents g1) r.fresh_txn;
      fresh_nonce =
          subst (λ rows. find nonce_key x.p.nonce rows ≡ none) (same_nonces g1) r.fresh_nonce;
      is_intent = r.is_intent;
      is_nonce = r.is_entry;
      nonce_txn = r.entry_txn;
      tokens_after =
          rw
            (
              same_tokens g5,
              ap (λ (s : Store). s.tokens) logs,
              same_tokens g4,
              l.written,
              now3,
              tokens3,
            )
            refl;
      balances_after =
          rw
            (
              same_balances g5,
              ap (λ (s : Store). s.balances) logs,
              same_balances g4,
              l.written,
              now3,
              balances3,
            )
            refl;
      intents_after =
          rw
            (
              same_intents g5,
              ap (λ (s : Store). s.intents) logs,
              same_intents g4,
              l.written,
              now3,
              intents3,
            )
            refl;
      nonces_after =
          same_nonces g5
          ∙ ap (λ (s : Store). s.nonces) logs
          ∙ same_nonces g4
          ∙ ap (λ (s : Store). s.nonces) l.written
          ∙ nonces3;
      ledger_after =
          rw
            (
              same_ledger g5,
              ap (λ (s : Store). s.ledger) logs,
              same_ledger g4,
              l.written,
              now3,
              ledger3,
            )
            refl;
    }

none-some : {A : Type 0} {a : A} → ¬ (◌≡◌ {A = Option A} none (some a))
none-some h = absurd (cc)

-- What a settlement has used up: its transaction id, its nonce and its token.
module _ {x : Payment} {now : Time} {s s' : Store} (e : SettledEffect x now s s') where
  pub intent_spent : ¬ (find intent_key x.p.txn_id s'.intents ≡ none)
  intent_spent h =
      let f = set_intent_status PaymentState.settled none now in
      let k : intent_key e.intent ≡ x.p.txn_id = e.is_intent in
      let found : find intent_key x.p.txn_id (e.intent ∷ s.intents) ≡ some e.intent =
        ground arith in
      let after =
        find-update_self intent_key x.p.txn_id f (e.intent ∷ s.intents) e.intent found k in
      absurd (none-some (sym h ∙ ap (find intent_key x.p.txn_id) e.intents_after ∙ after))

  pub nonce_spent : ¬ (find nonce_key x.p.nonce s'.nonces ≡ none)
  nonce_spent h =
      let k : nonce_key e.nonce ≡ x.p.nonce = e.is_nonce in
      let found : find nonce_key x.p.nonce (e.nonce ∷ s.nonces) ≡ some e.nonce = ground arith in
      absurd (none-some (sym h ∙ ap (find nonce_key x.p.nonce) e.nonces_after ∙ found))

  pub token_after : find token_key x.p.token_id s'.tokens ≡ some (consume now (hold now e.token))
  token_after =
      let k = find-key token_key x.p.token_id s.tokens e.token e.found_token in
      ap (find token_key x.p.token_id) e.tokens_after
      ∙ find-update_self token_key x.p.token_id (consume now)
          (update token_key x.p.token_id (hold now) s.tokens) (hold now e.token)
          (find-update_self token_key x.p.token_id (hold now) s.tokens e.token e.found_token k) k

  pub token_spent :
      {t : OfflineToken}
      → find token_key x.p.token_id s'.tokens ≡ some t
      → ¬ (t.status ≡ TokenStatus.issued)
  token_spent h i = let q = sym token_after ∙ h in absurd (ground arith)
