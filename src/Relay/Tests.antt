-- ===== src/Relay/Tests.antt =====
-- Runs of a relay.
use offline_pay.Prelude.{String, ◌≡◌, refl, [], ◌∷◌, inl, arith}
use offline_pay.Prelude.Int.{pos}
use offline_pay.Domain.{EncryptedEnvelope}
use offline_pay.Database.{World, calm, empty_store, ok, Error, raise}
use offline_pay.Relay.Service.{
  Client, Service, new_service, default_limit, receive_and_relay, is_duplicate, Forwarded,
  forward_with_retry,
}
use offline_pay.Relay.Forward.{Explains, forward_with_retry-Explains}
use offline_pay.Relay.Duplicates.{run_events, cleaned, Refused, receive_and_relay-Refused}

abbrev node : Service
node = record { relay_id = "relay-1"; retry_limit = pos 5; dedupe = [] }

new_node : new_service "relay-1" (pos 0) ≡ node
unfolding new_service default_limit
new_node = refl

abbrev envelope : String → EncryptedEnvelope
envelope nonce = record {
  ephemeral_public_key = "k";
  ciphertext = "c";
  nonce = nonce;
  auth_tag = "a";
  txn_id = "txn-1";
  iv = "i";
}

abbrev start : World
start = calm empty_store 100

receive_and_relay-Refused_example : Refused (envelope "n-2") (pos 3) (
    run_events
      (cleaned 5000 ∷ [])
      (receive_and_relay node (envelope "n-1") (pos 1) start).0.service
      (receive_and_relay node (envelope "n-1") (pos 1) start).1)
unfolding receive_and_relay is_duplicate
receive_and_relay-Refused_example =
    receive_and_relay-Refused node (envelope "n-1") (envelope "n-2") (pos 1) (pos 3)
      (cleaned 5000 ∷ []) start refl (omega arith, tt) (inl refl)

-- A client that is down, and a relay with two attempts.
abbrev down : Client
down env hops = raise Error.outage

abbrev tired : Service
tired = record node { retry_limit = pos 2 }

forward_with_retry-Explains_example :
    (r : Forwarded) × (w' : World) × (forward_with_retry down tired (envelope "n-1") (pos 1) start
      ≡ (ok r, w'))
    × Explains down tired (envelope "n-1") (pos 1) start 2 r w'
forward_with_retry-Explains_example =
    forward_with_retry-Explains down tired (envelope "n-1") (pos 1) start
