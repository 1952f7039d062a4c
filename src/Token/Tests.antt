-- ===== src/Token/Tests.antt =====
-- An issue on concrete tables, and the laws of issues and limits applied.
use offline_pay.Prelude.{String, ◌≡◌, refl, subst, true, some, false, none, [], ◌∷◌, str_dec, arith}
use offline_pay.Prelude.Int.{ℤ, pos, ◌≤ℤ◌, ltb_ℤ, leb_ℤ, add64, sub64, wrap64, ◌+ℤ◌, ◌-ℤ◌}
use offline_pay.Domain.{
  Device, DeviceStatus, OfflineToken, TokenStatus, AccountBalance, TokenStatus-discrete,
  is_valid_token_transition,
}
use offline_pay.Database.{
  empty_store, World, Store, Error, Result, ok, err, stmt, exec, query, query_row, with_tx,
  balance_key, token_key, find,
}
use offline_pay.Repository.{
  get_token_for_update, release_token, get_devices_by_owner, create_device, get_balance_for_update,
  update_balance, create_token, create_payment_intent, create_ledger_entry, create_outbox_event,
}
use offline_pay.Settlement.{canonical_token}
use offline_pay.Settlement.Money.{IsBacked}
use offline_pay.Settlement.Exact.{IsMoney, ValidBalances, total_funds}
use offline_pay.Token.Issue.{Issuer, issue_token, limit_for}
use offline_pay.Token.Laws.{IssueEffect, issue_token-IssueEffect, limit_in}
use offline_pay.Token.Reserve.{
  DevicesOnly, issue_token-total_funds, issue_token-IsBacked, issue_token-DevicesOnly,
}
use offline_pay.Token.Release.{release_tx}
use offline_pay.Token.Refund.{RefundEffect, release_tx-RefundEffect, release_tx-IsBacked}
use offline_pay.Token.Limit.{limit_for-bounds}

abbrev bank : Issuer
bank = record { format_int = λ z. "int"; sign = λ text. ok "bank"; marshal = λ tok. "json" }

abbrev phone : DeviceStatus → Device
phone status = record {
  device_id = "dev-1";
  owner_id = "alice";
  public_key = "k";
  trust_score = pos 1000;
  status = status;
  created_at = 0;
  revoked_at = none;
}

abbrev account : AccountBalance
account = record {
  account_id = "alice";
  available_balance = pos 100;
  reserved_balance = pos 0;
  updated_at = 0;
}

abbrev tables : Store
tables = record empty_store {
  devices = phone DeviceStatus.active ∷ [];
  balances = account ∷ [];
  next_outbox_id = 0;
  next_dead_letter_id = 0;
}

abbrev start : World
start = record {
  store = tables;
  now = 100;
  aborted = false;
  outages = [];
  postgres_offline = false;
}

abbrev issue_of : ℤ → Result OfflineToken × World
issue_of value = issue_token bank "tok-1" "alice" value 60 start

abbrev stored : World
stored = (issue_of (pos 40)).1

abbrev issued_token : OfflineToken
issued_token = record {
  token_id = "tok-1";
  owner_id = "alice";
  value = pos 40;
  expiry = 160;
  consumed = false;
  consumed_at = none;
  token_signature = "bank";
  reserved_at = 100;
  released_at = none;
  risk_score_at_issue = 100;
  status = TokenStatus.other "";
}

issued_ok : issue_of (pos 40) ≡ (ok issued_token, stored)
unfolding issue_token str_dec stmt exec query query_row with_tx get_devices_by_owner create_device
    get_balance_for_update update_balance create_token create_payment_intent create_ledger_entry
    create_outbox_event canonical_token add64 sub64 wrap64 ◌+ℤ◌ ◌-ℤ◌ TokenStatus-discrete
issued_ok = refl

-- More than the available balance.
abbrev refused : World
refused = (issue_of (pos 400)).1

issue_fails : issue_of (pos 400) ≡ (err (Error.message "insufficient available balance"), refused)
unfolding issue_token str_dec stmt exec query query_row with_tx get_devices_by_owner create_device
    get_balance_for_update update_balance create_token create_payment_intent create_ledger_entry
    create_outbox_event canonical_token add64 sub64 wrap64 ◌+ℤ◌ ◌-ℤ◌ TokenStatus-discrete
issue_fails = refl

tables_valid : ValidBalances tables.balances
tables_valid k b h = ground arith

backed : IsBacked tables
unfolding ◌+ℤ◌
backed = refl

issue_token-IssueEffect_example :
    (leb_ℤ (pos 40) (pos 0) ≡ false)
    × (ltb_ℤ (limit_in "alice" tables) (pos 40) ≡ false)
    × IssueEffect "alice" (pos 40) 100 issued_token tables stored.store
issue_token-IssueEffect_example =
    issue_token-IssueEffect bank "tok-1" "alice" (pos 40) 60 start stored issued_token issued_ok

issue_token-total_funds_example : total_funds stored.store.balances ≡ total_funds tables.balances
issue_token-total_funds_example =
    issue_token-total_funds bank "tok-1" "alice" (pos 40) 60 start stored issued_token issued_ok
      tables_valid (ground arith)

issue_token-IsBacked_example : IsBacked stored.store
issue_token-IsBacked_example =
    issue_token-IsBacked bank "tok-1" "alice" (pos 40) 60 start stored issued_token issued_ok
      tables_valid (ground arith) backed

issue_token-DevicesOnly_example : DevicesOnly tables refused.store
issue_token-DevicesOnly_example =
    issue_token-DevicesOnly bank "tok-1" "alice" (pos 400) 60 start refused
      (Error.message "insufficient available balance") issue_fails

limit_for-bounds_example :
    (pos 0 ≤ℤ limit_for (phone DeviceStatus.active ∷ []))
    × (limit_for (phone DeviceStatus.active ∷ []) ≤ℤ pos 5000)
limit_for-bounds_example = limit_for-bounds (phone DeviceStatus.active ∷ []) (ground arith, tt)

-- The same token, after its expiry.
abbrev late : World
late = record stored { now = 300 }

abbrev expired : OfflineToken
expired = record issued_token { status = TokenStatus.issued }

abbrev freed : World
freed = (release_tx (λ t. "json") expired late).1

freed_ok : release_tx (λ t. "json") expired late ≡ (ok true, freed)
unfolding release_tx get_token_for_update release_token is_valid_token_transition issue_token
    str_dec stmt exec query query_row with_tx get_devices_by_owner create_device
    get_balance_for_update update_balance create_token create_payment_intent create_ledger_entry
    create_outbox_event canonical_token add64 sub64 wrap64 ◌+ℤ◌ ◌-ℤ◌ TokenStatus-discrete
freed_ok = refl

late_token : find token_key "tok-1" late.store.tokens ≡ some expired
unfolding issue_token str_dec stmt exec query query_row with_tx get_devices_by_owner create_device
    get_balance_for_update update_balance create_token create_payment_intent create_ledger_entry
    create_outbox_event canonical_token add64 sub64 wrap64 ◌+ℤ◌ ◌-ℤ◌ TokenStatus-discrete
late_token = refl

late_balances :
    late.store.balances
    ≡ record account { available_balance = pos 60; reserved_balance = pos 40; updated_at = 100 }
      ∷ []
unfolding issue_token str_dec stmt exec query query_row with_tx get_devices_by_owner create_device
    get_balance_for_update update_balance create_token create_payment_intent create_ledger_entry
    create_outbox_event canonical_token add64 sub64 wrap64 ◌+ℤ◌ ◌-ℤ◌ TokenStatus-discrete
late_balances = refl

valid_rows :
    (k : String) (b : AccountBalance)
    → find balance_key k late.store.balances ≡ some b
    → IsMoney b.available_balance × IsMoney b.reserved_balance
valid_rows k b h =
    let q : find balance_key k (
          record account { available_balance = pos 60; reserved_balance = pos 40; updated_at = 100 }
          ∷ [])
        ≡ some b =
      subst (λ rows. find balance_key k rows ≡ some b) late_balances h in
    ground arith

late_valid : ValidBalances late.store.balances
late_valid k b h = valid_rows k b h

late-IsBacked : IsBacked late.store
unfolding issue_token str_dec stmt exec query query_row with_tx get_devices_by_owner create_device
    get_balance_for_update update_balance create_token create_payment_intent create_ledger_entry
    create_outbox_event canonical_token add64 sub64 wrap64 ◌+ℤ◌ ◌-ℤ◌ TokenStatus-discrete
late-IsBacked = refl

release_tx-RefundEffect_example : RefundEffect expired 300 late.store freed.store
release_tx-RefundEffect_example = release_tx-RefundEffect (λ t. "json") expired late freed freed_ok

release_tx-IsBacked_example :
    (total_funds freed.store.balances ≡ total_funds late.store.balances) × IsBacked freed.store
release_tx-IsBacked_example =
    release_tx-IsBacked (λ t. "json") expired expired late freed freed_ok late_valid (ground arith)
      late_token refl (λ q. absurd (cc)) late-IsBacked
