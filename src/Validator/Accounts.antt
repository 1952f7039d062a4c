-- ===== src/Validator/Accounts.antt =====
-- What `AuditAccountBalances` of internal/repository/repository.go has compared when it finds
-- no discrepancy.
use offline_pay.Prelude.{
  String, ◌≡◌, refl, sym, true, Option, none, some, List, [], ◌∷◌, arith, Option-cases, inl, inr,
  str_dec, ite, if◌then◌else◌, ◌∙◌,
}
use offline_pay.Prelude.Int.{ℤ, pos, negsuc}
use offline_pay.Domain.{AccountBalance, BalanceDiscrepancy, LedgerEntry, OfflineToken, TokenStatus}
use offline_pay.Settlement.Money.{claim, outstanding}
use offline_pay.Database.{
  World, Store, ok, direct, query, query_row, is_no_rows, stmt, find, sum_by, balance_key,
}
use offline_pay.Database.Laws.{continue-ok, query-ok}
use offline_pay.Repository.{
  is_same, last_balance, reserve_of, expected_available, compare_account, from_expected,
  audit_account, append, audit_accounts, is_outstanding,
}
use offline_pay.Validator.{is_empty}

pub is_same-eq : (a b : ℤ) → is_same a b ≡ true → a ≡ b
is_same-eq (pos m) (pos n) h = ground arith
is_same-eq (pos m) (negsuc n) h = ground arith
is_same-eq (negsuc m) (pos n) h = ground arith
is_same-eq (negsuc m) (negsuc n) h = ground arith

-- The balance that the ledger knows of an account: the one after its newest entry, which is the
-- first of the table; an account without entries counts as it is.
abbrev pub known_balance : ℤ → Option LedgerEntry → ℤ
known_balance actual none = actual
known_balance actual (some e) = e.balance_after

abbrev pub entry_account : LedgerEntry → String
entry_account e = e.account_id

abbrev pub known_of : AccountBalance → Store → ℤ
known_of b s = known_balance b.available_balance (find entry_account b.account_id s.ledger)

-- What the outstanding tokens of an owner are worth.
abbrev pub outstanding_of : String → OfflineToken → ℤ
outstanding_of owner_id t = ite (str_dec t.owner_id owner_id) (outstanding t) (pos 0)

abbrev or_actual : ℤ → Option ℤ → ℤ
or_actual actual none = actual
or_actual actual (some z) = z

last_balance-known :
    (account_id : String) (actual : ℤ) (rows : List LedgerEntry)
    → or_actual actual (last_balance account_id rows)
      ≡ known_balance actual (find entry_account account_id rows)
unfolding last_balance
last_balance-known account_id actual [] = refl
last_balance-known account_id actual (e ∷ rows) =
    ground (arith, last_balance-known account_id actual rows)

claim_of :
    (status : TokenStatus) (value : ℤ)
    → (if is_outstanding status then value else pos 0) ≡ claim status value
unfolding is_outstanding
claim_of TokenStatus.issued value = refl
claim_of TokenStatus.held value = refl
claim_of TokenStatus.consumed value = refl
claim_of TokenStatus.invalidated value = refl
claim_of (TokenStatus.other _) value = refl

reserve_of-outstanding :
    (owner_id : String) (rows : List OfflineToken)
    → reserve_of owner_id rows ≡ sum_by (outstanding_of owner_id) rows
unfolding reserve_of
reserve_of-outstanding owner_id [] = refl
reserve_of-outstanding owner_id (t ∷ rows) =
    rw (claim_of t.status t.value, reserve_of-outstanding owner_id rows) refl

query_row-known :
    (f : Store → Option ℤ) (w w' : World) (actual z : ℤ)
    → from_expected (expected_available actual (query_row direct f w).0) (query_row direct f w).1
      ≡ (ok z, w')
    → (z ≡ or_actual actual (f w.store)) × (w'.store ≡ w.store)
unfolding query_row query stmt expected_available is_no_rows
query_row-known f w w' actual z h = elim (Option-cases (f w.store)) [
  | inl n ↦ ground arith
  | inr (y, s) ↦ ground arith
]

audit_account-quiet :
    (b : AccountBalance) (w w' : World) (found : List BalanceDiscrepancy)
    → audit_account b w ≡ (ok found, w')
    → (w'.store ≡ w.store)
      × (found
          ≡ compare_account b
              (or_actual b.available_balance (last_balance b.account_id w.store.ledger))
              (reserve_of b.account_id w.store.tokens))
unfolding audit_account
audit_account-quiet b w w' found h =
    let f = λ (s : Store). last_balance b.account_id s.ledger in
    let (z, w1, q, r) =
      continue-ok
        (from_expected (expected_available b.available_balance (query_row direct f w).0)
          (query_row direct f w).1)
        _ found w' h in
    let (e, s) = query_row-known f w w1 b.available_balance z q in
    let (reserved, w2, q2, r2) = continue-ok (query direct _ w1) _ found w' r in
    let (e2, s2, _) = query-ok direct _ w1 w2 reserved q2 in
    let c : found ≡ compare_account b z reserved = ground arith in (ground arith, cc)

-- The available balance is that after the newest entry, the reserve is worth the tokens.
unfoldable pub Agrees : Store → AccountBalance → Type 0
Agrees s b =
    (known_of b s ≡ b.available_balance)
    × (sum_by (outstanding_of b.account_id) s.tokens ≡ b.reserved_balance)

compare_account-Agrees :
    (s : Store) (b : AccountBalance)
    → is_empty (
        compare_account b
          (or_actual b.available_balance (last_balance b.account_id s.ledger))
          (reserve_of b.account_id s.tokens))
      ≡ true
    → Agrees s b
unfolding compare_account Agrees
compare_account-Agrees s b h = (
  sym (last_balance-known b.account_id b.available_balance s.ledger)
      ∙ is_same-eq _ _ (ground arith),
  sym (reserve_of-outstanding b.account_id s.tokens) ∙ is_same-eq _ _ (ground arith),
)

is_empty-append :
    {A : Type 0} (xs ys : List A)
    → is_empty (append xs ys) ≡ true
    → (is_empty xs ≡ true) × (is_empty ys ≡ true)
is_empty-append [] ys h = (refl, h)
is_empty-append (x ∷ xs) ys h = cc

pub audit_accounts-Agrees :
    (accounts : List AccountBalance) (w w' : World) (found : List BalanceDiscrepancy) (a : String)
    (b : AccountBalance)
    → audit_accounts accounts w ≡ (ok found, w')
    → is_empty found ≡ true
    → find balance_key a accounts ≡ some b
    → Agrees w.store b
unfolding audit_accounts
audit_accounts-Agrees [] w w' found a b h n m = cc
audit_accounts-Agrees (x ∷ accounts) w w' found a b h n m =
    let (first, w1, q, r) = continue-ok (audit_account x w) _ found w' h in
    let (rest, w2, q2, r2) = continue-ok (audit_accounts accounts w1) _ found w' r in
    let (s, c) = audit_account-quiet x w w1 first q in
    let e : append first rest ≡ found = ground arith in
    let (n1, n2) = is_empty-append first rest (rw (e) n) in
    elim (str_dec (balance_key x) a) [
      | yes hit ↦
          let same : x ≡ b = ground arith in
          rw (sym same) (compare_account-Agrees w.store x (rw (sym c) n1))
      | no miss ↦ rw (sym s) (audit_accounts-Agrees accounts w1 w2 rest a b q2 n2 (ground arith))
    ]
