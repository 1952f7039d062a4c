-- ===== src/Validator/Tests.antt =====
-- An audit of a small bank, and the theorem on it.
use offline_pay.Prelude.{String, none, ◌≡◌, refl, true, [], ◌∷◌, str_dec, Bool-cases}
use offline_pay.Prelude.Int.{ℤ, pos, ◌+ℤ◌, ◌-ℤ◌}
use offline_pay.Domain.{AccountBalance, LedgerEntry, Direction, EntryType}
use offline_pay.Database.{calm, World, empty_store, ok, query, query_row, stmt}
use offline_pay.Repository.{
  imbalance_of, entry_imbalance, check_ledger_inconsistencies, audit_account_balances,
  audit_accounts, audit_account, compare_account, expected_available, last_balance, reserve_of,
  is_outstanding, ledger_groups, unbalanced,
}
use offline_pay.Validator.{run_audit}
use offline_pay.Settlement.Entries.{ledger_net}
use offline_pay.Validator.Accounts.{Agrees}
use offline_pay.Validator.Balanced.{run_audit-Agrees}

abbrev alice : AccountBalance
alice = record {
  account_id = "alice";
  available_balance = pos 60;
  reserved_balance = pos 0;
  updated_at = 0;
}

abbrev bob : AccountBalance
bob = record {
  account_id = "bob";
  available_balance = pos 40;
  reserved_balance = pos 0;
  updated_at = 0;
}

abbrev entry : String → Direction → ℤ → LedgerEntry
entry account_id direction balance_after = record {
  txn_id = "txn-1";
  account_id = account_id;
  direction = direction;
  amount = pos 40;
  entry_type = EntryType.settlement;
  balance_after = balance_after;
  created_at = 0;
}

abbrev bank : World
bank =
    calm
      (record empty_store {
        balances = alice ∷ bob ∷ [];
        ledger =
            entry "bob" Direction.credit (pos 40) ∷ entry "alice" Direction.debit (pos 60) ∷ [];
      })
      100

bank_audited : run_audit none none bank ≡ (ok true, bank)
unfolding run_audit check_ledger_inconsistencies unbalanced ledger_groups imbalance_of
    entry_imbalance audit_account_balances audit_accounts audit_account compare_account
    expected_available last_balance reserve_of is_outstanding query query_row stmt str_dec
    Bool-cases ◌+ℤ◌ ◌-ℤ◌
bank_audited = refl

run_audit-Agrees_example : (ledger_net "txn-1" bank.store.ledger ≡ pos 0) × Agrees bank.store bob
unfolding str_dec Bool-cases
run_audit-Agrees_example = run_audit-Agrees bank bank "txn-1" "bob" bob bank_audited refl

-- A ledger with a debit alone.
abbrev cooked : World
cooked = calm (record empty_store { ledger = entry "alice" Direction.debit (pos 60) ∷ [] }) 100
