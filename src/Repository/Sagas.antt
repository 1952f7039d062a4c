-- ===== src/Repository/Sagas.antt =====
-- The saga methods of internal/repository/repository.go.
use offline_pay.Prelude.{String, not, ◌∷◌}
use offline_pay.Domain.{SagaState, SagaStatus, Time}
use offline_pay.Database.{
  Error, ok, require, saga_key, find, exists, update, ⊤, Db, Conn, direct, exec, query_row,
}

unfoldable pub create_saga_state : Conn → SagaState → Db ⊤
create_saga_state c saga = exec c λ now s.
    require (not (exists saga_key saga.saga_id s.sagas)) Error.duplicate_key
      (ok (record s { sagas = saga ∷ s.sagas }))

abbrev set_saga : SagaStatus → String → Time → SagaState → SagaState
set_saga status step now s = record s { status = status; step = step; updated_at = now }

unfoldable pub update_saga_state : Conn → String → SagaStatus → String → Db ⊤
update_saga_state c saga_id status step =
    exec c
      λ now s. ok (record s { sagas = update saga_key saga_id (set_saga status step now) s.sagas })

unfoldable pub get_saga_state : String → Db SagaState
get_saga_state saga_id = query_row direct (λ s. find saga_key saga_id s.sagas)
