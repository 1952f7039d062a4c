-- ===== src/Token/Release.antt =====
-- `ReleaseExpiredTokens` of internal/token/service.go: one transaction for each expired token.
use offline_pay.Prelude.{
  ℕ, ◌+◌, String, Bool, true, false, ◌||◌, none, some, List, [], ◌∷◌, if◌then◌else◌,
}
use offline_pay.Prelude.Int.{add64, sub64, ltb_ℤ}
use offline_pay.Domain.{OfflineToken, Direction, EntryType}
use offline_pay.Database.{
  Error, Result, ok, Db, ◌>>=◌, ◌>>◌, pure, raise_if, wrap_error, in_tx, with_tx, body_result,
}
use offline_pay.Repository.{
  get_expired_tokens, get_token_for_update, get_balance_for_update, update_balance, release_token,
  create_ledger_entry, create_outbox_event,
}
use offline_pay.Settlement.{reservation_txn}

abbrev pub is_released : OfflineToken → Bool
is_released t = elim t.released_at [ none ↦ false | some _ ↦ true ]

-- The funds go back to the owner; `marshal` makes the outbox message.
unfoldable pub release_funds : (OfflineToken → String) → OfflineToken → Db Bool
release_funds marshal tok = do
  bal ← get_balance_for_update tok.owner_id
  raise_if (ltb_ℤ bal.reserved_balance tok.value)
      (Error.message "inconsistent reserved balance for user")
  let new_available = add64 bal.available_balance tok.value
  let new_reserved = sub64 bal.reserved_balance tok.value
  update_balance in_tx tok.owner_id new_available new_reserved
  release_token in_tx tok.token_id
  create_ledger_entry (record {
    txn_id = reservation_txn tok.token_id;
    account_id = tok.owner_id;
    direction = Direction.credit;
    amount = tok.value;
    entry_type = EntryType.release;
    balance_after = new_available;
    created_at = 0;
  })
  create_outbox_event in_tx "token.expired" "TokenExpiredAndReleased" (marshal tok)
  pure true

-- The transaction for one token: true if it released the token, false if it was already done.
unfoldable pub release_tx : (OfflineToken → String) → OfflineToken → Db Bool
unfolding release_funds
release_tx marshal tok = do
  locked ← get_token_for_update tok.token_id
  if locked.consumed || is_released locked then pure false else release_funds marshal tok

abbrev count_release : Result Bool → ℕ → ℕ
count_release (ok true) n = n + 1
count_release _ n = n

-- A failed transaction is logged, and the loop goes on. The counter is raised within the
-- transaction, before the commit.
unfoldable pub release_each : (OfflineToken → String) → List OfflineToken → ℕ → Db ℕ
unfolding release_tx
release_each marshal [] n w = (ok n, w)
release_each marshal (tok ∷ tokens) n w =
    let (_, w') = with_tx (release_tx marshal tok) w in
    release_each marshal tokens (count_release (body_result (release_tx marshal tok) w) n) w'

-- `ReleaseExpiredTokens`
unfoldable pub release_expired_tokens : (OfflineToken → String) → Db ℕ
unfolding release_each
release_expired_tokens marshal = do
  tokens ← wrap_error "failed to get expired tokens" get_expired_tokens
  release_each marshal tokens 0
