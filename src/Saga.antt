-- ===== src/Saga.antt =====
-- internal/saga/saga.go: the orchestrator that runs the steps of a settlement, each in its own
-- transaction, and compensates them in reverse order when one fails. The saga's id comes from
-- the uuid package, and is an argument.
pub mod Laws
use offline_pay.Prelude.{str_append, ℕ, zero, suc, String, Option, none, some, List, [], ◌∷◌}
use offline_pay.Domain.{SagaStatus, SagaState, Time}
use offline_pay.Database.{
  World, Error, Result, ok, err, ⊤, Db, ◌>>=◌, ◌>>◌, pure, raise, ignore, attempt, wrap_error,
  direct, with_tx, clock,
}
use offline_pay.Repository.{create_saga_state, update_saga_state}

pub record SagaStep : Type 0 where
  pub name : String
  pub action : Db ⊤
  pub compensate : Option (Db ⊤)

-- After one run: done, or once more.
abbrev pub after_try : Result ⊤ → World → Result ⊤ × World → Result ⊤ × World
after_try (ok u) w again = (ok u, w)
after_try (err e) w again = again

-- At most `attempts` runs of a compensation, each in a transaction of its own. The pauses between
-- them change nothing. The result is that of the last run.
unfoldable pub retry_compensation : ℕ → Db ⊤ → Result ⊤ → Db ⊤
retry_compensation zero comp last w = (last, w)
retry_compensation (suc attempts) comp last w =
    let (r, w') = with_tx comp w in after_try r w' (retry_compensation attempts comp r w')

abbrev pub max_retries : ℕ
max_retries = 3

-- After the runs: on to the next step, or the end of the loop.
abbrev pub after_compensation :
    String → String → Result ⊤ × World → (World → Result ⊤ × World) → Result ⊤ × World
after_compensation saga_id name (ok u, w) go_on = go_on w
after_compensation saga_id name (err e, w) go_on =
    ignore (update_saga_state direct saga_id SagaStatus.failed (str_append "CRITICAL_" name)) w

-- The executed steps, the last one first. A step whose compensation fails for good ends the loop.
unfoldable pub compensate_steps : String → List SagaStep → Db ⊤
unfolding retry_compensation
compensate_steps saga_id [] =
    ignore (update_saga_state direct saga_id SagaStatus.failed "COMPENSATED")
compensate_steps saga_id (step ∷ executed) = elim step.compensate [
  | none ↦ compensate_steps saga_id executed
  | some comp ↦ λ w.
      after_compensation saga_id step.name (retry_compensation max_retries comp (ok tt) w)
        (λ w'. compensate_steps saga_id executed w')
]

unfoldable pub compensate_all : String → List SagaStep → Db ⊤
unfolding compensate_steps
compensate_all saga_id executed =
    ignore (update_saga_state direct saga_id SagaStatus.compensating "ROLLBACK")
    >> compensate_steps saga_id executed

-- After the transaction of a step: on with the next one, or the compensations.
abbrev pub next_step :
    String → List SagaStep → Result ⊤ × World → (World → Result ⊤ × World) → Result ⊤ × World
next_step saga_id executed (ok u, w) go_on = go_on w
next_step saga_id executed (err e, w) go_on =
    (err (Error.wrap "saga aborted on step" e), (compensate_all saga_id executed w).1)

-- The loop over the steps; a failure to note the current step is ignored.
unfoldable pub run_steps : String → List SagaStep → List SagaStep → Db ⊤
unfolding compensate_all
run_steps saga_id [] executed w =
    ignore (update_saga_state direct saga_id SagaStatus.completed "DONE") w
run_steps saga_id (step ∷ steps) executed w =
    let (_, w1) = update_saga_state direct saga_id SagaStatus.started step.name w in
    next_step saga_id executed (with_tx step.action w1)
      (λ w2. run_steps saga_id steps (step ∷ executed) w2)

-- The row that tracks a saga, at its start.
abbrev pub tracking : String → String → Time → SagaState
tracking saga_id txn_id now = record {
  saga_id = saga_id;
  txn_id = txn_id;
  status = SagaStatus.started;
  step = "NONE";
  updated_at = now;
}

-- `Execute`
unfoldable pub execute : String → String → List SagaStep → Db ⊤
unfolding run_steps
execute saga_id txn_id steps = do
  now ← clock
  wrap_error "failed to create saga tracking state"
      (create_saga_state direct (tracking saga_id txn_id now))
  run_steps saga_id steps []
