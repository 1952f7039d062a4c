-- ===== src/Repository/Balances.antt =====
-- The account, ledger and audit methods of internal/repository/repository.go.
use offline_pay.Prelude.{String, Bool, not, ◌&&◌, ◌||◌, ◌∷◌, if◌then◌else◌}
use offline_pay.Prelude.Int.{ℤ, pos, leb_ℤ, ltb_ℤ}
use offline_pay.Domain.{AccountBalance, LedgerEntry, Time}
use offline_pay.Database.{
  Error, ok, require, balance_key, intent_key, find, exists, update, ⊤, Db, Conn, direct, in_tx,
  exec, query_row,
}

-- `CHECK (available_balance >= 0)` and `CHECK (reserved_balance >= 0)`
abbrev pub nonneg_balance : ℤ → ℤ → Bool
nonneg_balance available reserved = leb_ℤ (pos 0) available && leb_ℤ (pos 0) reserved

-- `ON CONFLICT (account_id) DO NOTHING`
unfoldable pub create_account : String → ℤ → Db ⊤
create_account account_id initial = exec direct λ now s.
    require (nonneg_balance initial (pos 0)) Error.check_violation (
      ok (
        if exists balance_key account_id s.balances then s else record s {
          balances =
              record {
                account_id = account_id;
                available_balance = initial;
                reserved_balance = pos 0;
                updated_at = now;
              }
              ∷ s.balances;
        }))

unfoldable pub get_balance : String → Db AccountBalance
get_balance account_id = query_row direct (λ s. find balance_key account_id s.balances)

-- `SELECT ... FOR UPDATE` within the transaction.
unfoldable pub get_balance_for_update : String → Db AccountBalance
get_balance_for_update account_id = query_row in_tx (λ s. find balance_key account_id s.balances)

abbrev pub set_balance : ℤ → ℤ → Time → AccountBalance → AccountBalance
set_balance available reserved now b = record b {
  available_balance = available;
  reserved_balance = reserved;
  updated_at = now;
}

-- The checks are those of the row that is written: with no such row nothing is checked.
unfoldable pub update_balance : Conn → String → ℤ → ℤ → Db ⊤
update_balance c account_id available reserved = exec c λ now s.
    require (nonneg_balance available reserved || not (exists balance_key account_id s.balances))
      Error.check_violation
      (ok (record s {
        balances = update balance_key account_id (set_balance available reserved now) s.balances;
      }))

-- `CHECK (amount > 0)`, and references to `payment_intents` and `account_balances`. The source
-- passes `tx` to this method alone with no test for nil.
unfoldable pub create_ledger_entry : LedgerEntry → Db ⊤
create_ledger_entry entry = exec in_tx λ now s.
    require (ltb_ℤ (pos 0) entry.amount) Error.check_violation (
      require (exists intent_key entry.txn_id s.intents) Error.foreign_key (
        require (exists balance_key entry.account_id s.balances) Error.foreign_key
          (ok (record s { ledger = record entry { created_at = now } ∷ s.ledger }))))
