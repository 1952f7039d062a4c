-- ===== src/Relay/Service.antt =====
-- `NewService`, `ReceiveAndRelay`, `forwardWithRetry` and `cleanDedupeCacheLoop`. The settlement
-- client is a parameter; the sleeps between attempts are left out, but not the backoff's overflow.
use offline_pay.Prelude.{
  ℕ, zero, suc, ◌+◌, ◌-◌, String, str_append, Bool, true, false, ◌||◌, Option, none, some, List, [],
  ◌∷◌, if◌then◌else◌, ltb, ◌==◌,
}
use offline_pay.Prelude.Int.{ℤ, pos, negsuc, pos_part, add64, leb_ℤ}
use offline_pay.Domain.{Time, EncryptedEnvelope, RelayAttempt}
use offline_pay.Database.{
  World, Error, Result, ok, err, ⊤, Db, ◌>>=◌, ◌>>◌, pure, ignore, attempt, exists,
}
use offline_pay.Repository.{record_relay_attempt}

-- `SettlementClient.Settle`
abbrev pub Client : Type 0
Client = EncryptedEnvelope → ℤ → Db String

pub record Seen : Type 0 where
  pub key : String
  pub added_at : Time

abbrev pub seen_key : Seen → String
seen_key s = s.key

-- `dedupe` is the map, the latest assignment of a key first.
pub record Service : Type 0 where
  pub relay_id : String
  pub retry_limit : ℤ
  pub dedupe : List Seen

unfoldable pub default_limit : ℤ → ℤ
default_limit (pos n) = if n == 0 then pos 5 else pos n
default_limit (negsuc n) = negsuc n

-- `NewService`
unfoldable pub new_service : String → ℤ → Service
unfolding default_limit
new_service relay_id retry_limit = record {
  relay_id = relay_id;
  retry_limit = default_limit retry_limit;
  dedupe = [];
}

unfoldable pub is_duplicate : EncryptedEnvelope → Service → Bool
is_duplicate env s = exists seen_key env.txn_id s.dedupe || exists seen_key env.nonce s.dedupe

unfoldable pub remember : Time → EncryptedEnvelope → Service → Service
remember now env s = record s {
  dedupe =
      record { key = env.nonce; added_at = now }
      ∷ record { key = env.txn_id; added_at = now }
      ∷ s.dedupe;
}

unfoldable pub relay_attempt : Service → EncryptedEnvelope → ℤ → String → RelayAttempt
relay_attempt s env hop_count status = record {
  relay_id = s.relay_id;
  txn_id = env.txn_id;
  hop_count = hop_count;
  status = status;
  first_seen_at = 0;
  last_seen_at = 0;
}

-- The relay after a call, and the hop count of the forwarding that it has started, if any.
pub record Received : Type 0 where
  pub service : Service
  pub outcome : Result ⊤
  pub forwarding : Option ℤ

-- `ReceiveAndRelay`
unfoldable pub receive_and_relay : Service → EncryptedEnvelope → ℤ → World → Received × World
unfolding is_duplicate remember relay_attempt
receive_and_relay s env hop_count w =
    if is_duplicate env s
    then (
      record {
        service = s;
        outcome = err (Error.message "duplicate transaction or nonce detected by relay");
        forwarding = none;
      },
      w,
    )
    else (
      record {
        service = remember w.now env s;
        outcome = ok tt;
        forwarding = some (add64 hop_count (pos 1));
      },
      (ignore (record_relay_attempt (relay_attempt s env (add64 hop_count (pos 1)) "RECEIVED"))
          w).1,
    )

-- How the loop ends: with the status and the number of the attempt that was acknowledged, or after
-- its last attempt, or with the panic of `rand.Int63n` on a backoff that is not positive.
pub data Forwarded : Type 0 where
  acked : String → ℕ → Forwarded
  nacked : ℕ → Forwarded
  panicked : ℕ → Forwarded

-- 100 milliseconds
abbrev pub first_backoff : ℤ
first_backoff = pos 100000000

unfoldable pub note_status : Service → EncryptedEnvelope → ℤ → String → Db ⊤
unfolding relay_attempt
note_status s env hop_count status =
    ignore (record_relay_attempt (relay_attempt s env hop_count status))

module _ (client : Client) (s : Service) (env : EncryptedEnvelope) (hop_count : ℤ) where
  -- One attempt: the record, and the client's answer.
  unfoldable pub try_settle : Db String
  unfolding note_status
  try_settle = note_status s env hop_count "FORWARDING" >> client env hop_count

  -- The loop, with the rounds that are left, the number of the attempt, and the backoff.
  unfoldable pub forward_loop : ℕ → ℕ → ℤ → Db Forwarded
  unfolding try_settle
  forward_loop zero number backoff = pure (nacked (number - 1))
  forward_loop (suc left) number backoff = do
    r ← attempt try_settle
    elim r [
      | ok status ↦ (do
        note_status s env hop_count (str_append "ACK_" status)
        pure (acked status number))
      | err e ↦ elim left [
        | zero ↦ (do note_status s env hop_count "NACK_FAILED"; pure (nacked number))
        | suc _ ↦ elim (leb_ℤ backoff (pos 0)) [
          | true ↦ pure (panicked number)
          | false ↦ forward_loop left (suc number) (add64 backoff backoff)
        ]
      ]
    ]

  -- `forwardWithRetry`
  unfoldable pub forward_with_retry : Db Forwarded
  unfolding forward_loop
  forward_with_retry = forward_loop (pos_part s.retry_limit) 1 first_backoff

-- 10 minutes
abbrev pub dedupe_ttl : ℕ
dedupe_ttl = 600000000000

unfoldable pub keep_recent : Time → List Seen → List Seen
keep_recent now [] = []
keep_recent now (x ∷ rest) =
    let kept = keep_recent now rest in if ltb (x.added_at + dedupe_ttl) now then kept else x ∷ kept

-- One round of `cleanDedupeCacheLoop`
unfoldable pub clean_dedupe_cache : Time → Service → Service
unfolding keep_recent
clean_dedupe_cache now s = record s { dedupe = keep_recent now s.dedupe }
