-- ===== src/Repository/Intents.antt =====
-- The payment intent and nonce methods of internal/repository/repository.go.
use offline_pay.Prelude.{String, Bool, true, false, not, Option, some, List, ◌∷◌, ltb, ◌&&◌}
use offline_pay.Prelude.Int.{pos, add64}
use offline_pay.Domain.{PaymentIntent, PaymentState, Time}
use offline_pay.Database.{
  Error, ok, require, intent_key, device_key, token_key, nonce_key, find, exists, update,
  where_rows, ⊤, Db, Conn, direct, in_tx, exec, query, query_row,
}

-- `txn_id` is the primary key; `device_id` and `token_id` reference their tables.
unfoldable pub create_payment_intent : Conn → PaymentIntent → Db ⊤
create_payment_intent c intent = exec c λ now s.
    require (not (exists intent_key intent.txn_id s.intents)) Error.duplicate_key (
      require (exists device_key intent.device_id s.devices) Error.foreign_key (
        require (exists token_key intent.token_id s.tokens) Error.foreign_key
          (ok (record s { intents = intent ∷ s.intents }))))

unfoldable pub get_payment_intent : String → Db PaymentIntent
get_payment_intent txn_id = query_row direct (λ s. find intent_key txn_id s.intents)

unfoldable pub get_payment_intent_for_update : String → Db PaymentIntent
get_payment_intent_for_update txn_id = query_row in_tx (λ s. find intent_key txn_id s.intents)

-- The columns that each new status sets.
abbrev pub set_intent_status : PaymentState → Option String → Time → PaymentIntent → PaymentIntent
set_intent_status PaymentState.settled reason now i = record i {
  status = PaymentState.settled;
  settled_at = some now;
  updated_at = now;
}
set_intent_status PaymentState.rejected reason now i = record i {
  status = PaymentState.rejected;
  rejected_at = some now;
  failure_reason = reason;
  updated_at = now;
}
set_intent_status PaymentState.failed reason now i = record i {
  status = PaymentState.failed;
  rejected_at = some now;
  failure_reason = reason;
  updated_at = now;
}
set_intent_status status reason now i = record i { status = status; updated_at = now }

unfoldable pub update_payment_intent_status : Conn → String → PaymentState → Option String → Db ⊤
update_payment_intent_status c txn_id status reason = exec c λ now s. ok (record s {
  intents = update intent_key txn_id (set_intent_status status reason now) s.intents;
})

abbrev add_hop : Time → PaymentIntent → PaymentIntent
add_hop now i = record i { relay_hops = add64 i.relay_hops (pos 1); updated_at = now }

unfoldable pub increment_relay_hops : String → Db ⊤
increment_relay_hops txn_id =
    exec direct
      λ now s. ok (record s { intents = update intent_key txn_id (add_hop now) s.intents })

-- The states that the scan for stuck payments looks at.
abbrev pub is_in_flight : PaymentState → Bool
is_in_flight PaymentState.created = true
is_in_flight PaymentState.signed = true
is_in_flight PaymentState.encrypted = true
is_in_flight PaymentState.broadcast = true
is_in_flight PaymentState.relayed = true
is_in_flight PaymentState.validated = true
is_in_flight PaymentState.reserved = true
is_in_flight _ = false

abbrev is_stuck : Time → PaymentIntent → Bool
is_stuck cutoff i = is_in_flight i.status && ltb i.updated_at cutoff

unfoldable pub get_stuck_payment_intents : Time → Db (List PaymentIntent)
get_stuck_payment_intents cutoff = query direct (λ s. where_rows (is_stuck cutoff) s.intents)

-- `nonce` is the primary key, and `txn_id` references `payment_intents`.
unfoldable pub register_nonce : Conn → String → String → Time → Db ⊤
register_nonce c nonce txn_id expiry = exec c λ now s.
    require (not (exists nonce_key nonce s.nonces)) Error.duplicate_key (
      require (exists intent_key txn_id s.intents) Error.foreign_key (
        ok (record s {
          nonces =
              record { nonce = nonce; txn_id = txn_id; consumed_at = now; expiry = expiry }
              ∷ s.nonces;
        })))

unfoldable pub check_nonce : String → Db Bool
check_nonce nonce = query direct (λ s. exists nonce_key nonce s.nonces)
