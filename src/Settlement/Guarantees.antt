-- ===== src/Settlement/Guarantees.antt =====
-- The guarantees of `Settle` (internal/settlement/service.go) as its callers see them: a call that
-- returns no error, from the tables before it to the tables after it.
use offline_pay.Prelude.{String, ◌≡◌, sym, ap, subst, ◌∙◌, ◌≢◌, Option, none, some}
use offline_pay.Prelude.Int.{ℤ, ◌+ℤ◌, IsInt64}
use offline_pay.Domain.{OfflineToken, EncryptedEnvelope}
use offline_pay.Database.{World, Store, ok, find, token_key, nonce_key, intent_key}
use offline_pay.Settlement.Platform.{Platform, SignedPaymentIntent}
use offline_pay.Settlement.Steps.{Payment, reservation_txn}
use offline_pay.Settlement.Service.{Outcome, FreshIds, settle}
use offline_pay.Settlement.Outcome.{settle-ok}
use offline_pay.Settlement.Checks.{Authorized, TokenChecks, payment_of}
use offline_pay.Settlement.Settled.{
  SettledEffect, RanAll-effect, intent_spent, nonce_spent, token_spent,
}
use offline_pay.Settlement.Effects.{sender_available, receiver_available}
use offline_pay.Settlement.Entries.{ledger_net, entries-net, entries-net_reservation}
use offline_pay.Settlement.Money.{IsBacked, SettledEffect-IsBacked, moved-total, moved-total_self}
use offline_pay.Settlement.Exact.{IsMoney, IsCovered, ValidBalances, total_funds, exact}

-- What an envelope holds, and the token row that it names.
pub record Request (platform : Platform) (env : EncryptedEnvelope) (s : Store) : Type 0 where
  pub bytes : String
  pub signed : SignedPaymentIntent
  pub token : OfflineToken
  pub decrypted : platform.decrypt env ≡ some bytes
  pub decoded : platform.unmarshal bytes ≡ some signed
  pub found_token : find token_key signed.payload.token_id s.tokens ≡ some token

abbrev pub payment :
    {platform : Platform} {env : EncryptedEnvelope} {s : Store}
    → ℤ
    → Request platform env s
    → Payment
payment {platform} {env} hop_count r = record {
  platform = platform;
  p = r.signed.payload;
  env = env;
  token = r.token;
  hop_count = hop_count;
}

-- The request that was authorized is the one that the envelope holds.
same_payment :
    {platform : Platform} {env : EncryptedEnvelope} {hop_count : ℤ} {w : World}
    (r : Request platform env w.store) (a : Authorized platform env hop_count w)
    → (payment_of a ≡ payment hop_count r) × (a.signed ≡ r.signed) × (a.token ≡ r.token)
same_payment {platform} {env} {hop_count} {w} r a =
    let bytes : a.bytes ≡ r.bytes = same_some a.decrypted r.decrypted in
    let signed : a.signed ≡ r.signed =
      same_some (subst (λ b. platform.unmarshal b ≡ some a.signed) bytes a.decoded) r.decoded in
    let token : a.token ≡ r.token =
      same_some
        (subst
          (λ (x : SignedPaymentIntent).
            find token_key x.payload.token_id w.store.tokens ≡ some a.token)
          signed a.found_token)
        r.found_token in
    (cc, signed, token)
  where
    same_some : {A : Type 0} {o : Option A} {a b : A} → o ≡ some a → o ≡ some b → a ≡ b
    same_some p q = cc

same_token : {A : Type 0} {o : Option A} {a b : A} → o ≡ some a → o ≡ some b → a ≡ b
same_token p q = cc

module _ (platform : Platform) (fresh : FreshIds) (env : EncryptedEnvelope) (hop_count : ℤ)
    (w w' : World) (o : Outcome) (h : settle platform fresh env hop_count w ≡ (ok o, w'))
    (no_error : o.error ≡ none) where
  pub settle-effect :
      (r : Request platform env w.store)
      → SettledEffect (payment hop_count r) w.now w.store w'.store
        × TokenChecks platform hop_count w.now
            (settle-ok platform fresh env hop_count w w' o h no_error).1.device
            r.signed.payload
            r.token
  settle-effect r =
      let (settled, a, ran) = settle-ok platform fresh env hop_count w w' o h no_error in
      let (same, signed, token) = same_payment r a in
      (
        subst (λ x. SettledEffect x w.now w.store w'.store) same
            (RanAll-effect (payment_of a) w w' ran),
        rw (signed, token) at a.token_checks,
      )

  module _ (r : Request platform env w.store) (valid : ValidBalances w.store.balances)
      (value : IsMoney r.token.value) (amount : IsInt64 r.signed.payload.amount) where
    covered : IsCovered (payment hop_count r)
    covered = let (e, c) = settle-effect r in (value, amount, c.covers)

    -- With tables and amounts as their types say, a settlement without an error between two
    -- different accounts neither creates nor destroys money: the sum of all available and
    -- reserved balances is the same after it.
    pub settle-total_funds :
        r.signed.payload.sender_id ≢ r.signed.payload.receiver_id
        → total_funds w'.store.balances ≡ total_funds w.store.balances
    settle-total_funds apart =
        let (e, c) = settle-effect r in
        let x = payment hop_count r in
        ap total_funds e.balances_after
        ∙ moved-total x e.accounts w.now w.store.balances apart e.found_sender e.found_receiver
            (exact x w.now w.store w'.store e valid covered)

    -- With tables and amounts as their types say, a settlement without an error from an account to
    -- itself creates money: the sum of all balances grows by the amount.
    pub settle-total_funds_self :
        r.signed.payload.sender_id ≡ r.signed.payload.receiver_id
        → total_funds w'.store.balances ≡ total_funds w.store.balances +ℤ r.signed.payload.amount
    settle-total_funds_self same =
        let (e, c) = settle-effect r in
        let x = payment hop_count r in
        ap total_funds e.balances_after
        ∙ moved-total_self x e.accounts w.now w.store.balances same e.found_sender e.found_receiver
            (exact x w.now w.store w'.store e valid covered)

    -- With tables and amounts as their types say, a settlement without an error between two
    -- different accounts keeps the reserves backed: if the reserved balances sum up to the values
    -- of the tokens that are issued or held, they still do after it.
    pub settle-IsBacked :
        r.signed.payload.sender_id ≢ r.signed.payload.receiver_id
        → IsBacked w.store
        → IsBacked w'.store
    settle-IsBacked apart backed =
        let (e, c) = settle-effect r in
        SettledEffect-IsBacked (payment hop_count r) w.now w.store w'.store e valid covered apart
          (same_token r.found_token e.found_token) backed

  -- A settlement without an error, whose transaction id is not that of its token's reservation,
  -- leaves the credits less the debits of its own transaction as they were in the ledger, and
  -- raises those of the reservation by the token's value.
  pub settle-ledger_net :
      (r : Request platform env w.store)
      → r.signed.payload.txn_id ≢ reservation_txn r.signed.payload.token_id
      → (ledger_net r.signed.payload.txn_id w'.store.ledger
          ≡ ledger_net r.signed.payload.txn_id w.store.ledger)
        × (ledger_net (reservation_txn r.signed.payload.token_id) w'.store.ledger
            ≡ r.token.value
              +ℤ ledger_net (reservation_txn r.signed.payload.token_id) w.store.ledger)
  settle-ledger_net r apart =
      let (e, c) = settle-effect r in
      let x = payment hop_count r in
      let sa = sender_available x e.accounts in
      let ra = receiver_available x e.accounts in
      (
        ap (ledger_net r.signed.payload.txn_id) e.ledger_after
            ∙ entries-net x sa ra w.now w.store.ledger apart,
        ap (ledger_net (reservation_txn r.signed.payload.token_id)) e.ledger_after
            ∙ entries-net_reservation x sa ra w.now w.store.ledger apart,
      )

-- Two settlements without an error, one after the other, never share a transaction id, a nonce
-- or a token: nothing is spent twice, whatever the envelopes, the ids and the hop counts are.
pub settle-no_double_spend :
    (platform : Platform) (fresh1 fresh2 : FreshIds) (env1 env2 : EncryptedEnvelope)
    (hops1 hops2 : ℤ) (w w1 w2 : World) (o1 o2 : Outcome)
    → settle platform fresh1 env1 hops1 w ≡ (ok o1, w1)
    → o1.error ≡ none
    → settle platform fresh2 env2 hops2 w1 ≡ (ok o2, w2)
    → o2.error ≡ none
    → (r1 : Request platform env1 w.store) (r2 : Request platform env2 w1.store)
    → (r1.signed.payload.txn_id ≢ r2.signed.payload.txn_id)
      × (r1.signed.payload.nonce ≢ r2.signed.payload.nonce)
      × (r1.signed.payload.token_id ≢ r2.signed.payload.token_id)
settle-no_double_spend platform fresh1 fresh2 env1 env2 hops1 hops2 w w1 w2 o1 o2 h1 n1 h2 n2 r1
      r2 =
    let (e1, _) = settle-effect platform fresh1 env1 hops1 w w1 o1 h1 n1 r1 in
    let (e2, _) = settle-effect platform fresh2 env2 hops2 w1 w2 o2 h2 n2 r2 in
    (
      λ q.
          intent_spent e1
            (subst (λ k. find intent_key k w1.store.intents ≡ none) (sym q) e2.fresh_txn),
      λ q.
          nonce_spent e1
            (subst (λ k. find nonce_key k w1.store.nonces ≡ none) (sym q) e2.fresh_nonce),
      λ q.
          token_spent e1
            (subst (λ k. find token_key k w1.store.tokens ≡ some e2.token) (sym q) e2.found_token)
            e2.was_issued,
    )
