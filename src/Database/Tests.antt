-- ===== src/Database/Tests.antt =====
-- A transaction that fails after it has written.
use offline_pay.Prelude.{◌≡◌, refl, [], ◌∷◌, false}
use offline_pay.Domain.{NonceRegistry}
use offline_pay.Database.Schema.{empty_store, Error, ok, err}
use offline_pay.Database.Monad.{World, ⊤, Db, ◌>>◌, raise, exec, stmt, in_tx, with_tx}

abbrev start : World
start = record {
  store = empty_store;
  now = 100;
  aborted = false;
  outages = [];
  postgres_offline = false;
}

abbrev entry : NonceRegistry
entry = record { nonce = "n-1"; txn_id = "txn-1"; consumed_at = 100; expiry = 200 }

-- One write, and then an error.
write_and_fail : Db ⊤
write_and_fail =
    exec in_tx (λ now s. ok (record s { nonces = entry ∷ s.nonces })) >> raise Error.no_rows

abbrev ended : World
ended = (with_tx write_and_fail start).1

fails : with_tx write_and_fail start ≡ (err Error.no_rows, ended)
unfolding with_tx exec stmt write_and_fail
fails = refl
