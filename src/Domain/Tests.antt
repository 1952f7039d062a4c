-- ===== src/Domain/Tests.antt =====
-- The lifecycle of tokens on a concrete history.
use offline_pay.Prelude.{◌≡◌, refl, inl, true, str_dec}
use offline_pay.Domain.States.{TokenStatus, is_valid_token_transition, TokenStatus-discrete}
use offline_pay.Domain.Lifecycle.{TokenReach, token_final}

consumed_stays : TokenReach TokenStatus.consumed TokenStatus.consumed
unfolding is_valid_token_transition TokenStatus-discrete str_dec
consumed_stays =
    let e : is_valid_token_transition TokenStatus.consumed TokenStatus.consumed ≡ true = refl in
    TokenReach.next TokenReach.here e

token_final_example : TokenStatus.consumed ≡ TokenStatus.consumed
token_final_example = token_final (inl refl) consumed_stays
