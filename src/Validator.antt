-- ===== src/Validator.antt =====
-- internal/validator/validator.go: the audit of the ledger and of the accounts.
use offline_pay.Prelude.{ℕ, Bool, true, false, ◌&&◌, Option, List, [], ◌∷◌, if◌then◌else◌, ◌==◌}
use offline_pay.Database.{Db, ◌>>=◌, pure}
use offline_pay.Repository.{check_ledger_inconsistencies, audit_account_balances}
mod Accounts
mod Tests
pub mod Balanced

abbrev pub is_empty {ℓ} : {A : Type ℓ} → List A → Bool
is_empty [] = true
is_empty (x ∷ xs) = false

-- `NewFinancialValidator`, in nanoseconds
unfoldable pub validator_interval : ℕ → ℕ
validator_interval interval = if interval == 0 then 5000000000 else interval

-- `RunAudit`: whether the gauge is set to 1; after an error of a query it is not set. `cut` and
-- `cut'` say where the iterations over the two results break off, if they do.
unfoldable pub run_audit : Option ℕ → Option ℕ → Db Bool
run_audit cut cut' = do
  imbalances ← check_ledger_inconsistencies cut
  discrepancies ← audit_account_balances cut'
  pure (is_empty imbalances && is_empty discrepancies)
