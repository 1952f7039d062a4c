-- ===== src/Token/Reserve.antt =====
-- The reserve behind an offline token: what `IssueToken` (internal/token/service.go) does to the
-- money of the accounts, and what a failed call leaves.
use offline_pay.Prelude.{ℕ, ◌+◌, String, ◌≡◌, refl, ap, false, arith}
use offline_pay.Prelude.Int.{
  ℤ, pos, ◌+ℤ◌, ◌-ℤ◌, int_laws, parts_of_eq, add64, sub64, ltb_ℤ, leb_ℤ, IsInt64, IsNonneg,
  add64-nonneg, sub64-nonneg,
}
use offline_pay.Domain.{OfflineToken, AccountBalance}
use offline_pay.Database.{
  World, Store, Error, Result, ok, err, sum_by, sum_by-update, balance_key, raise_if, wrap_error,
}
use offline_pay.Database.{query, stmt, rewrap}
use offline_pay.Database.Laws.{with_tx-err, continue-err}
use offline_pay.Repository.{set_balance, get_devices_by_owner}
use offline_pay.Settlement.Money.{IsBacked, outstanding}
use offline_pay.Settlement.Exact.{
  ValidBalances, funds, total_funds, nonneg_balance-IsNonneg, found-exists,
}
use offline_pay.Token.Issue.{Issuer, issue_token, issue_tx, compute_offline_credit_limit}
use offline_pay.Token.Laws.{IssueEffect, issue_token-IssueEffect}

positive-value : (v : ℤ) → leb_ℤ v (pos 0) ≡ false → IsNonneg v
positive-value v h = ground arith

module _ (issuer : Issuer) (token_id owner : String) (value : ℤ) (duration : ℕ) (w w' : World)
    (tok : OfflineToken) (h : issue_token issuer token_id owner value duration w ≡ (ok tok, w'))
    (valid : ValidBalances w.store.balances) (fits : IsInt64 value) where
  -- The two new balances are exact.
  exact_issue :
      (e : IssueEffect owner value w.now tok w.store w'.store)
      → IsNonneg value
      → (sub64 e.balance.available_balance value ≡ e.balance.available_balance -ℤ value)
        × (add64 e.balance.reserved_balance value ≡ e.balance.reserved_balance +ℤ value)
  exact_issue e positive =
      let ((na, ia), (nr, ir)) = valid owner e.balance e.found in
      let (_, nn) =
        nonneg_balance-IsNonneg _ _ _ e.nonneg
          (found-exists owner w.store.balances e.balance e.found) in
      (sub64-nonneg _ _ na ia positive fits, add64-nonneg _ _ nr ir positive fits nn)

  -- With balances and the value as their columns say, an `IssueToken` that returns a token neither
  -- creates nor destroys money: the sum of all available and reserved balances stays.
  pub issue_token-total_funds : total_funds w'.store.balances ≡ total_funds w.store.balances
  issue_token-total_funds =
      let (positive, within, e) =
        issue_token-IssueEffect issuer token_id owner value duration w w' tok h in
      let (a, r) = exact_issue e (positive-value value positive) in
      let f =
        set_balance (sub64 e.balance.available_balance value)
          (add64 e.balance.reserved_balance value) w.now in
      omega (
        int_laws,
        parts_of_eq a,
        parts_of_eq r,
        parts_of_eq (ap total_funds e.balances_after),
        parts_of_eq (sum_by-update funds balance_key owner f w.store.balances e.balance e.found),
      )

  -- With balances and the value as their columns say, an `IssueToken` that returns a token keeps
  -- the reserves backed: if the reserved balances sum up to the values of the tokens that are
  -- issued or held, they still do afterwards.
  pub issue_token-IsBacked : IsBacked w.store → IsBacked w'.store
  issue_token-IsBacked backed =
      let (positive, within, e) =
        issue_token-IssueEffect issuer token_id owner value duration w w' tok h in
      let (a, r) = exact_issue e (positive-value value positive) in
      let f =
        set_balance (sub64 e.balance.available_balance value)
          (add64 e.balance.reserved_balance value) w.now in
      let reserved = λ (b : AccountBalance). b.reserved_balance in
      omega (
        int_laws,
        parts_of_eq r,
        parts_of_eq (ap (sum_by reserved) e.balances_after),
        parts_of_eq backed,
        parts_of_eq (ap (sum_by outstanding) e.tokens_after),
        parts_of_eq e.worth,
        parts_of_eq (sum_by-update reserved balance_key owner f w.store.balances e.balance e.found),
      )

-- Only the devices differ.
abbrev pub DevicesOnly : Store → Store → Type 0
DevicesOnly s s' = s' ≡ record s { devices = s'.devices }

limit-store :
    (owner : String) (w : World) → (compute_offline_credit_limit owner w).1.store ≡ w.store
unfolding compute_offline_credit_limit get_devices_by_owner query stmt
limit-store owner w = ground arith

rewrap-world : {A : Type 0} (s : String) (x : Result A × World) → (rewrap s x).1 ≡ x.1
rewrap-world s (ok a, w) = refl
rewrap-world s (err e, w) = refl

-- An `IssueToken` that returns an error, at whatever point it fails, has changed no table but the
-- devices: no money is reserved, no token stored and no ledger entry written.
pub issue_token-DevicesOnly :
    (issuer : Issuer) (token_id owner : String) (value : ℤ) (duration : ℕ) (w w' : World)
    (e : Error)
    → issue_token issuer token_id owner value duration w ≡ (err e, w')
    → DevicesOnly w.store w'.store
unfolding issue_token
issue_token-DevicesOnly issuer token_id owner value duration w w' e h =
    let limit = wrap_error "failed to compute credit limit" (compute_offline_credit_limit owner) in
    let untouched =
      rewrap-world "failed to compute credit limit" (compute_offline_credit_limit owner w) in
    let same = limit-store owner w in
    continue-err
      {x = raise_if (leb_ℤ value (pos 0)) (Error.message "token value must be greater than zero") w}
      h (λ q. ground arith)
      (λ u v q h1.
        continue-err {x = limit v} h1 (λ q1. ground arith)
          (λ l w1 q1 h2.
            continue-err
              {x = raise_if (ltb_ℤ l value)
                (Error.message "requested token value exceeds dynamic limit") w1}
              h2 (λ q2. ground arith)
              (λ u w2 q2 h3.
                let k =
                  with_tx-err (issue_tx issuer token_id owner value (w2.now + duration)) w2 w' e
                    h3 in
                ground arith)))
