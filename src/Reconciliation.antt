-- ===== src/Reconciliation.antt =====
-- `runScan` of internal/reconciliation/service.go. Every error is only logged, so each part runs
-- whatever became of the others. The gauges and counters are left out. The time of the scan is not
-- within the first ten seconds of Go's zero time. `cut` says where the iteration over the imbalances
-- breaks off, if it does.
use offline_pay.Prelude.{ℕ, ◌-◌, String, Option, some, List, [], ◌∷◌, if◌then◌else◌, ltb, ◌==◌}
use offline_pay.Domain.{PaymentState, PaymentIntent, OfflineToken, Time}
use offline_pay.Database.{Result, ok, err, ⊤, Db, ◌>>=◌, pure, attempt, direct, clock}
use offline_pay.Repository.{
  get_stuck_payment_intents, update_payment_intent_status, check_ledger_inconsistencies,
  get_dead_letter_events_count, get_pending_outbox_events_count,
}
use offline_pay.Token.{release_expired_tokens}

-- `NewService`, in nanoseconds
unfoldable pub scan_interval : ℕ → ℕ
scan_interval interval = if interval == 0 then 5000000000 else interval

unfoldable pub stuck_cutoff : Time → Time
stuck_cutoff now = now - 10000000000

-- A payment whose expiry is over is closed, without a look at `IsValidTransition`.
unfoldable pub expire_stuck : PaymentIntent → Db ⊤
expire_stuck intent = do
  now ← clock
  if ltb intent.expiry now
      then (attempt (
            update_payment_intent_status direct intent.txn_id PaymentState.expired
              (some "expired_during_relay"))
          >>= λ _. pure tt)
      else pure tt

unfoldable pub expire_each : List PaymentIntent → Db ⊤
unfolding expire_stuck
expire_each [] = pure tt
expire_each (intent ∷ rest) = do _ ← expire_stuck intent; expire_each rest

unfoldable pub expire_found : Result (List PaymentIntent) → Db ⊤
expire_found (ok intents) = expire_each intents
expire_found (err e) = pure tt

unfoldable pub run_scan : (OfflineToken → String) → Option ℕ → Db ⊤
unfolding stuck_cutoff expire_found
run_scan marshal cut = do
  _ ← attempt (release_expired_tokens marshal)
  now ← clock
  stuck ← attempt (get_stuck_payment_intents (stuck_cutoff now))
  _ ← expire_found stuck
  _ ← attempt (check_ledger_inconsistencies cut)
  _ ← attempt get_dead_letter_events_count
  _ ← attempt get_pending_outbox_events_count
  pure tt
