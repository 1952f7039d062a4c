-- ===== src/Repository/Audits.antt =====
-- The audits of internal/repository/repository.go. The two sums are NUMERIC in the database, and
-- those of the tables are read as int64; a sum beyond that range is not modelled.
use offline_pay.Prelude.{
  ℕ, take, String, Bool, true, false, ◌&&◌, Option, none, some, List, [], ◌∷◌, if◌then◌else◌, ite,
  str_dec,
}
use offline_pay.Prelude.Int.{ℤ, pos, ◌-ℤ◌, add64, sub64, leb_ℤ}
use offline_pay.Domain.{
  Direction, LedgerEntry, AccountBalance, OfflineToken, TokenStatus, BalanceDiscrepancy,
}
use offline_pay.Database.{
  Result, ok, err, Db, ◌>>=◌, pure, raise, attempt, direct, query, query_row, sum_by, is_no_rows,
}

abbrev pub is_same : ℤ → ℤ → Bool
is_same a b = leb_ℤ a b && leb_ℤ b a

-- `CASE WHEN direction = 'DEBIT' THEN amount ELSE -amount END`, for the entries of a transaction
unfoldable pub entry_imbalance : String → LedgerEntry → ℤ
entry_imbalance txn_id e =
    ite (str_dec e.txn_id txn_id)
      (elim e.direction [ Direction.debit ↦ e.amount | Direction.credit ↦ pos 0 -ℤ e.amount ])
      (pos 0)

unfoldable pub imbalance_of : List LedgerEntry → String → ℤ
unfolding entry_imbalance
imbalance_of rows txn_id = sum_by (entry_imbalance txn_id) rows

abbrev pub contains_text_key : String → List String → Bool
contains_text_key k [] = false
contains_text_key k (x ∷ rest) = ite (str_dec x k) true (contains_text_key k rest)

-- `GROUP BY txn_id`
unfoldable pub ledger_groups : List LedgerEntry → List String
ledger_groups [] = []
ledger_groups (e ∷ rows) =
    let groups = ledger_groups rows in
    if contains_text_key e.txn_id groups then groups else e.txn_id ∷ groups

-- `HAVING SUM(...) != 0`
unfoldable pub unbalanced : List LedgerEntry → List String → List (String × ℤ)
unfolding imbalance_of
unbalanced rows [] = []
unbalanced rows (txn_id ∷ groups) =
    let rest = unbalanced rows groups in
    if is_same (imbalance_of rows txn_id) (pos 0)
    then rest
    else (txn_id, imbalance_of rows txn_id) ∷ rest

-- The rows that `rows.Next` goes through: all, or so many until the connection breaks, which the
-- code does not notice, since it never calls `rows.Err`.
abbrev pub rows_read {ℓ} : {A : Type ℓ} → Option ℕ → List A → List A
rows_read none rows = rows
rows_read (some n) rows = take n rows

unfoldable pub check_ledger_inconsistencies : Option ℕ → Db (List (String × ℤ))
unfolding unbalanced ledger_groups
check_ledger_inconsistencies cut =
    query direct (λ s. rows_read cut (unbalanced s.ledger (ledger_groups s.ledger)))

-- `ORDER BY entry_id DESC LIMIT 1`: the newest entry is the first of the table.
unfoldable pub last_balance : String → List LedgerEntry → Option ℤ
last_balance account_id [] = none
last_balance account_id (e ∷ rows) =
    ite (str_dec e.account_id account_id) (some e.balance_after) (last_balance account_id rows)

-- `status IN ('ISSUED', 'HELD')`
unfoldable pub is_outstanding : TokenStatus → Bool
is_outstanding TokenStatus.issued = true
is_outstanding TokenStatus.held = true
is_outstanding TokenStatus.consumed = false
is_outstanding TokenStatus.invalidated = false
is_outstanding (TokenStatus.other _) = false

unfoldable pub reserve_of : String → List OfflineToken → ℤ
unfolding is_outstanding
reserve_of owner_id rows =
    sum_by
      (λ (t : OfflineToken).
        ite (str_dec t.owner_id owner_id) (if is_outstanding t.status then t.value else pos 0)
          (pos 0))
      rows

-- An account without an entry counts as it is; any other error ends the audit.
unfoldable pub expected_available : ℤ → Result ℤ → Result ℤ
expected_available actual (ok balance) = ok balance
expected_available actual (err e) = if is_no_rows e then ok actual else err e

unfoldable pub compare_account : AccountBalance → ℤ → ℤ → List BalanceDiscrepancy
compare_account b available reserved =
    if is_same available b.available_balance && is_same reserved b.reserved_balance
    then []
    else record {
      account_id = b.account_id;
      expected_available = available;
      actual_available = b.available_balance;
      expected_reserved = reserved;
      actual_reserved = b.reserved_balance;
      discrepancy_amount =
          sub64 (add64 b.available_balance b.reserved_balance) (add64 available reserved);
    }
      ∷ []

abbrev pub from_expected : Result ℤ → Db ℤ
from_expected (ok z) = pure z
from_expected (err e) = raise e

unfoldable pub audit_account : AccountBalance → Db (List BalanceDiscrepancy)
unfolding expected_available compare_account last_balance reserve_of
audit_account b = do
  last ← attempt (query_row direct (λ s. last_balance b.account_id s.ledger))
  available ← from_expected (expected_available b.available_balance last)
  reserved ← query direct (λ s. reserve_of b.account_id s.tokens)
  pure (compare_account b available reserved)

abbrev pub append {ℓ} : {A : Type ℓ} → List A → List A → List A
append [] ys = ys
append (x ∷ xs) ys = x ∷ append xs ys

unfoldable pub audit_accounts : List AccountBalance → Db (List BalanceDiscrepancy)
unfolding audit_account
audit_accounts [] = pure []
audit_accounts (b ∷ accounts) = do
  found ← audit_account b
  rest ← audit_accounts accounts
  pure (append found rest)

-- `AuditAccountBalances`
unfoldable pub audit_account_balances : Option ℕ → Db (List BalanceDiscrepancy)
unfolding audit_accounts
audit_account_balances cut = do
  accounts ← query direct (λ s. rows_read cut s.balances)
  audit_accounts accounts
