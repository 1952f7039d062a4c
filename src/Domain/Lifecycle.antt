-- ===== src/Domain/Lifecycle.antt =====
-- What the two transition tables guarantee of every history of transitions.
use offline_pay.Prelude.{ℕ, ◌<◌, ◌≡◌, refl, ap, ◌⊎◌, inl, [], ◌∷◌, true, arith}
use offline_pay.Domain.States.{
  PaymentState, TokenStatus, next_states, is_valid_transition, is_valid_token_transition,
}

-- The states that a payment can pass through from `s`, one checked transition at a time.
pub data Reach (s : PaymentState) : PaymentState → Type 0 where
  here : Reach s s
  next : {t u : PaymentState} → Reach s t → is_valid_transition t u ≡ true → Reach s u

-- How far along its life a payment is.
rank : PaymentState → ℕ
rank PaymentState.created = 0
rank PaymentState.signed = 1
rank PaymentState.encrypted = 2
rank PaymentState.broadcast = 3
rank PaymentState.relayed = 4
rank PaymentState.validated = 5
rank PaymentState.reserved = 6
rank PaymentState.settled = 7
rank PaymentState.rejected = 7
rank PaymentState.failed = 7
rank PaymentState.expired = 7
rank PaymentState.duplicate = 7
rank PaymentState.reconciled = 8
rank (PaymentState.other _) = 0

transition-rank :
    (s t : PaymentState) → is_valid_transition s t ≡ true → (s ≡ t) ⊎ (rank s < rank t)
unfolding is_valid_transition rank
transition-rank PaymentState.created t h = ground arith
transition-rank s t h = ground arith

Reach-rank : {s t : PaymentState} → Reach s t → (s ≡ t) ⊎ (rank s < rank t)
Reach-rank here = inl refl
Reach-rank {s} (next {t} {u} r e) = ground (arith, Reach-rank r, transition-rank t u e, ap rank)

outcome-rank : (o : PaymentState) → next_states o ≡ PaymentState.reconciled ∷ [] → rank o ≡ 7
unfolding rank
outcome-rank PaymentState.settled h = refl
outcome-rank PaymentState.reconciled h = cc
outcome-rank o h = ground arith

-- Two states that can reach one another in the table are the same. No payment's update consults
-- the table.
pub Reach-antisymm : {s t : PaymentState} → Reach s t → Reach t s → s ≡ t
Reach-antisymm r q = ground (arith, Reach-rank r, Reach-rank q)

rank-reconciled : (t : PaymentState) → 7 < rank t → t ≡ PaymentState.reconciled
unfolding rank
rank-reconciled PaymentState.reconciled h = refl
rank-reconciled t h = absurd (omega arith)

-- A state whose only successor in the table is RECONCILED reaches no other one.
pub outcome_final :
    {o t : PaymentState}
    → next_states o ≡ PaymentState.reconciled ∷ []
    → Reach o t
    → (t ≡ o) ⊎ (t ≡ PaymentState.reconciled)
outcome_final {o} {t} h r = ground (arith, Reach-rank r, rank-reconciled t, outcome-rank o h)

-- The statuses that a token can pass through.
pub data TokenReach (s : TokenStatus) : TokenStatus → Type 0 where
  here : TokenReach s s
  next :
      {t u : TokenStatus} → TokenReach s t → is_valid_token_transition t u ≡ true → TokenReach s u

token_stays :
    (s t : TokenStatus)
    → (s ≡ TokenStatus.consumed) ⊎ (s ≡ TokenStatus.invalidated)
    → is_valid_token_transition s t ≡ true
    → t ≡ s
unfolding is_valid_token_transition
token_stays s t h e = ground arith

-- A consumed token is never released, and an invalidated one never spent: both are final.
pub token_final :
    {s t : TokenStatus}
    → (s ≡ TokenStatus.consumed) ⊎ (s ≡ TokenStatus.invalidated)
    → TokenReach s t
    → t ≡ s
token_final h TokenReach.here = refl
token_final {s} h (TokenReach.next {t} {u} r e) = ground (arith, token_final h r, token_stays t u)
