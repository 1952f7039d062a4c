-- ===== src/Validator/Balanced.antt =====
-- What it means that `RunAudit` of internal/validator/validator.go reports a balanced ledger.
use offline_pay.Prelude.{
  String, ◌≡◌, refl, true, false, List, [], ◌∷◌, sym, ◌∙◌, none, some, str_dec, if_pos, if_neg,
  arith, Bool-cases, inl, inr,
}
use offline_pay.Prelude.Int.{ℤ, pos, ◌+ℤ◌, ◌-ℤ◌, int_laws, parts_of_eq}
use offline_pay.Settlement.Entries.{ledger_net, net_entry, signed_amount}
use offline_pay.Domain.{LedgerEntry, AccountBalance, Direction}
use offline_pay.Database.{World, ok, direct, query, find, balance_key}
use offline_pay.Database.Laws.{continue-ok, query-ok}
use offline_pay.Repository.{
  is_same, entry_imbalance, imbalance_of, contains_text_key, ledger_groups, unbalanced,
  check_ledger_inconsistencies, audit_account_balances,
}
use offline_pay.Validator.{is_empty, run_audit}
use offline_pay.Validator.Accounts.{is_same-eq, Agrees, audit_accounts-Agrees}

unbalanced-none :
    (rows : List LedgerEntry) (groups : List String) (k : String)
    → contains_text_key k groups ≡ true
    → is_empty (unbalanced rows groups) ≡ true
    → is_same (imbalance_of rows k) (pos 0) ≡ true
unfolding unbalanced
unbalanced-none rows [] k m h = cc
unbalanced-none rows (x ∷ groups) k m h =
    elim (Bool-cases (is_same (imbalance_of rows x) (pos 0))) [
      | inl t ↦ elim (str_dec x k) [
        | yes hit ↦ ground arith
        | no miss ↦ unbalanced-none rows groups k (ground arith) (ground arith)
      ]
      | inr f ↦ ground arith
    ]

imbalance_of-other :
    (rows : List LedgerEntry) (k : String)
    → contains_text_key k (ledger_groups rows) ≡ false
    → imbalance_of rows k ≡ pos 0
unfolding ledger_groups imbalance_of entry_imbalance ◌+ℤ◌
imbalance_of-other [] k m = refl
imbalance_of-other (e ∷ rows) k m =
    elim (Bool-cases (contains_text_key e.txn_id (ledger_groups rows))) [
      | inl seen ↦ elim (str_dec e.txn_id k) [
        | yes hit ↦ ground arith
        | no miss ↦ rw (if_neg _ miss, imbalance_of-other rows k (ground arith)) refl
      ]
      | inr new ↦ elim (str_dec e.txn_id k) [
        | yes hit ↦ ground arith
        | no miss ↦ rw (if_neg _ miss, imbalance_of-other rows k (ground arith)) refl
      ]
    ]

balanced_of :
    (rows : List LedgerEntry) (k : String)
    → is_empty (unbalanced rows (ledger_groups rows)) ≡ true
    → imbalance_of rows k ≡ pos 0
balanced_of rows k quiet = elim (Bool-cases (contains_text_key k (ledger_groups rows))) [
  | inl seen ↦ is_same-eq _ _ (unbalanced-none rows (ledger_groups rows) k seen quiet)
  | inr other ↦ imbalance_of-other rows k other
]

signed_net :
    (direction : Direction) (amount : ℤ)
    → elim direction [ Direction.debit ↦ amount | Direction.credit ↦ pos 0 -ℤ amount ]
        +ℤ signed_amount direction amount
      ≡ pos 0
signed_net Direction.debit amount = omega int_laws
signed_net Direction.credit amount = omega int_laws

entry_net : (k : String) (e : LedgerEntry) → entry_imbalance k e +ℤ net_entry k e ≡ pos 0
unfolding entry_imbalance
entry_net k e = elim (str_dec e.txn_id k) [
  | yes hit ↦ rw (if_pos _ hit, if_pos _ hit) (signed_net e.direction e.amount)
  | no miss ↦ rw (if_neg _ miss, if_neg _ miss) (omega int_laws)
]

imbalance_of-net :
    (rows : List LedgerEntry) (k : String) → imbalance_of rows k +ℤ ledger_net k rows ≡ pos 0
unfolding imbalance_of
imbalance_of-net [] k = omega int_laws
imbalance_of-net (e ∷ rows) k =
    omega (int_laws, parts_of_eq (entry_net k e), parts_of_eq (imbalance_of-net rows k))

net_of :
    (rows : List LedgerEntry) (k : String) → imbalance_of rows k ≡ pos 0 → ledger_net k rows ≡ pos 0
net_of rows k h = omega (int_laws, parts_of_eq h, parts_of_eq (imbalance_of-net rows k))

-- If the audit reads both results to their ends and reports a balanced ledger, the debits of every
-- transaction are worth its credits, and every account agrees with the balance after its newest
-- ledger entry and with the sum of its issued and held tokens.
pub run_audit-Agrees :
    (w w' : World) (txn_id account_id : String) (b : AccountBalance)
    → run_audit none none w ≡ (ok true, w')
    → find balance_key account_id w.store.balances ≡ some b
    → (ledger_net txn_id w.store.ledger ≡ pos 0) × Agrees w.store b
unfolding run_audit check_ledger_inconsistencies audit_account_balances
run_audit-Agrees w w' txn_id account_id b h m =
    let (imbalances, w1, q, r) = continue-ok (check_ledger_inconsistencies none w) _ true w' h in
    let (found, w2, q2, r2) = continue-ok (audit_account_balances none w1) _ true w' r in
    let (e, s, _) = query-ok direct _ w w1 imbalances q in
    let (accounts, w3, q3, r3) = continue-ok (query direct _ w1) _ found w2 q2 in
    let (e3, s3, _) = query-ok direct _ w1 w3 accounts q3 in
    let t : w3.store ≡ w.store = s3 ∙ s in
    let all : accounts ≡ w.store.balances = cc in
    (
      net_of w.store.ledger txn_id (balanced_of w.store.ledger txn_id (ground arith)),
      rw (sym t)
          (audit_accounts-Agrees accounts w3 w2 found account_id b r3 (ground arith) (rw all m)),
    )
