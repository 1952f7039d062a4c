-- ===== src/Repository/Tokens.antt =====
-- The token methods of internal/repository/repository.go.
use offline_pay.Prelude.{String, Bool, true, false, not, ◌&&◌, none, some, List, ◌∷◌, ite, ltb}
use offline_pay.Domain.{
  OfflineToken, TokenStatus, TokenStatus-discrete, is_valid_token_transition, Time,
}
use offline_pay.Database.{
  Error, ok, err, require, token_key, find, exists, update, where_rows, ⊤, Db, ◌>>=◌, ◌>>◌,
  raise_if, Conn, direct, in_tx, exec, query, query_row,
}

-- `if tok.Status == "" { tok.Status = "ISSUED" }`
abbrev pub default_status : TokenStatus → TokenStatus
default_status status =
    ite (TokenStatus-discrete status (TokenStatus.other "")) TokenStatus.issued status

unfoldable pub create_token : Conn → OfflineToken → Db ⊤
create_token c tok = exec c λ now s.
    require (not (exists token_key tok.token_id s.tokens)) Error.duplicate_key
      (ok (record s { tokens = record tok { status = default_status tok.status } ∷ s.tokens }))

unfoldable pub get_token : String → Db OfflineToken
get_token token_id = query_row direct (λ s. find token_key token_id s.tokens)

-- `SELECT ... FOR UPDATE` within the transaction.
unfoldable pub get_token_for_update : String → Db OfflineToken
get_token_for_update token_id = query_row in_tx (λ s. find token_key token_id s.tokens)

-- `UPDATE offline_tokens SET ... WHERE token_id = $1`
update_token : Conn → String → (Time → OfflineToken → OfflineToken) → Db ⊤
update_token c token_id f =
    exec c λ now s. ok (record s { tokens = update token_key token_id (f now) s.tokens })

-- The row is selected, its transition is checked, and then it is updated.
unfoldable pub transition_token :
    Conn → String → TokenStatus → String → (Time → OfflineToken → OfflineToken) → Db ⊤
unfolding update_token
transition_token c token_id target reason f = do
  tok ← query_row c (λ s. find token_key token_id s.tokens)
  raise_if (not (is_valid_token_transition tok.status target)) (Error.message reason)
  update_token c token_id f

abbrev pub hold : Time → OfflineToken → OfflineToken
hold now t = record t { status = TokenStatus.held }

abbrev pub invalidate : Time → OfflineToken → OfflineToken
invalidate now t = record t { status = TokenStatus.invalidated; released_at = some now }

abbrev pub consume : Time → OfflineToken → OfflineToken
consume now t = record t { consumed = true; consumed_at = some now; status = TokenStatus.consumed }

unfoldable pub hold_token : Conn → String → Db ⊤
unfolding transition_token
hold_token c token_id =
    transition_token c token_id TokenStatus.held "invalid token status transition to HELD" hold

unfoldable pub invalidate_token : Conn → String → Db ⊤
unfolding transition_token
invalidate_token c token_id =
    transition_token c token_id TokenStatus.invalidated
      "invalid token status transition to INVALIDATED" invalidate

-- The row was found by the select under its lock, so the update affects one row and the check of
-- `RowsAffected` passes.
unfoldable pub consume_token : Conn → String → Db ⊤
unfolding transition_token
consume_token c token_id =
    transition_token c token_id TokenStatus.consumed "invalid token status transition to CONSUMED"
      consume

unfoldable pub release_token : Conn → String → Db ⊤
unfolding transition_token
release_token c token_id =
    transition_token c token_id TokenStatus.invalidated
      "invalid token status transition to INVALIDATED" invalidate

-- `UnconsumeToken` is disabled.
unfoldable pub unconsume_token : Conn → String → Db ⊤
unconsume_token c token_id w =
    (err (Error.message "token state machine cannot go backward: unconsume disabled"), w)

abbrev is_expired : Time → OfflineToken → Bool
is_expired now t =
    ltb t.expiry now && not t.consumed && elim t.released_at [ none ↦ true | some _ ↦ false ]

unfoldable pub get_expired_tokens : Db (List OfflineToken)
get_expired_tokens w = query direct (λ s. where_rows (is_expired w.now) s.tokens) w
