-- ===== src/Domain/States.antt =====
-- The constants of internal/domain/models.go and the two transition tables. The source keeps
-- states as text: `other` is any text that is none of the constants.
use offline_pay.Prelude.{String, Bool, true, false, List, [], ◌∷◌, ite, str_dec}

pub data PaymentState : Type 0 where
  created signed encrypted broadcast relayed validated reserved : PaymentState
  settled rejected failed expired duplicate reconciled : PaymentState
  other : String → PaymentState

pub data TokenStatus : Type 0 where
  issued held consumed invalidated : TokenStatus
  other : String → TokenStatus

pub data DeviceStatus : Type 0 where
  active revoked compromised : DeviceStatus
  other : String → DeviceStatus

pub data Direction : Type 0 where
  debit credit : Direction

pub data EntryType : Type 0 where
  settlement reservation release : EntryType

pub data SagaStatus : Type 0 where
  started compensating completed failed : SagaStatus

unfoldable pub PaymentState-discrete : Discrete PaymentState
PaymentState-discrete = hlevel str_dec

unfoldable pub TokenStatus-discrete : Discrete TokenStatus
TokenStatus-discrete = hlevel str_dec

-- `transitions[oldState]`; a missing key and an empty list both allow nothing.
abbrev pub next_states : PaymentState → List PaymentState
next_states PaymentState.created = PaymentState.signed ∷ []
next_states PaymentState.signed = PaymentState.encrypted ∷ PaymentState.failed ∷ []
next_states PaymentState.encrypted = PaymentState.broadcast ∷ PaymentState.failed ∷ []
next_states PaymentState.broadcast =
    PaymentState.relayed ∷ PaymentState.expired ∷ PaymentState.failed ∷ []
next_states PaymentState.relayed =
    PaymentState.validated ∷ PaymentState.rejected ∷ PaymentState.duplicate ∷ PaymentState.expired
    ∷ PaymentState.failed ∷ []
next_states PaymentState.validated =
    PaymentState.reserved ∷ PaymentState.rejected ∷ PaymentState.failed ∷ []
next_states PaymentState.reserved = PaymentState.settled ∷ PaymentState.failed ∷ []
next_states PaymentState.settled = PaymentState.reconciled ∷ []
next_states PaymentState.rejected = PaymentState.reconciled ∷ []
next_states PaymentState.failed = PaymentState.reconciled ∷ []
next_states PaymentState.expired = PaymentState.reconciled ∷ []
next_states PaymentState.duplicate = PaymentState.reconciled ∷ []
next_states PaymentState.reconciled = []
next_states (PaymentState.other _) = []

-- `for _, a := range allowed { if a == newState { return true } }`
contains_state : PaymentState → List PaymentState → Bool
contains_state new [] = false
contains_state new (a ∷ allowed) =
    ite (PaymentState-discrete a new) true (contains_state new allowed)

-- `IsValidTransition`
unfoldable pub is_valid_transition : PaymentState → PaymentState → Bool
unfolding contains_state
is_valid_transition old new =
    ite (PaymentState-discrete old new) true (contains_state new (next_states old))

abbrev pub next_statuses : TokenStatus → List TokenStatus
next_statuses TokenStatus.issued = TokenStatus.held ∷ TokenStatus.invalidated ∷ []
next_statuses TokenStatus.held = TokenStatus.consumed ∷ TokenStatus.invalidated ∷ []
next_statuses TokenStatus.consumed = []
next_statuses TokenStatus.invalidated = []
next_statuses (TokenStatus.other _) = []

contains_status : TokenStatus → List TokenStatus → Bool
contains_status new [] = false
contains_status new (a ∷ allowed) =
    ite (TokenStatus-discrete a new) true (contains_status new allowed)

-- `IsValidTokenTransition`
unfoldable pub is_valid_token_transition : TokenStatus → TokenStatus → Bool
unfolding contains_status
is_valid_token_transition old new =
    ite (TokenStatus-discrete old new) true (contains_status new (next_statuses old))
