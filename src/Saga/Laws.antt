-- ===== src/Saga/Laws.antt =====
-- What a saga that completes has run, and what a failed one leaves to its compensations.
use offline_pay.Prelude.{String, ◌≡◌, refl, sym, ap, subst, List, [], ◌∷◌, arith}
use offline_pay.Domain.{SagaStatus, SagaState}
use offline_pay.Database.{World, Result, ok, err, ⊤, wrap_error, exec, stmt, direct, with_tx}
use offline_pay.Database.Laws.{continue-elim, rewrap-ok, exec-ok, with_tx-ok}
use offline_pay.Repository.{update_saga_state, create_saga_state}
use offline_pay.Saga.{SagaStep, execute, run_steps, next_step, tracking}

-- The tables differ in `saga_states` at most, and the time not at all.
pub record SagaOnly (w w' : World) : Type 0 where
  pub tables : w'.store ≡ record w.store { sagas = w'.store.sagas }
  pub same_now : w'.now ≡ w.now

pub update_saga_state-SagaOnly :
    (id : String) (status : SagaStatus) (step : String) (w : World)
    → SagaOnly w (update_saga_state direct id status step w).1
unfolding update_saga_state exec stmt
update_saga_state-SagaOnly id status step w = record {
  tables = ground arith;
  same_now = ground arith;
}

-- Each step has run to its end, one after the other, with only saga rows written in between.
abbrev pub RanAll : List SagaStep → World → World → Type 0
RanAll [] w w' = SagaOnly w w'
RanAll (step ∷ steps) w w' =
    (w1 w2 : World) × SagaOnly w w1 × (step.action w1 ≡ (ok tt, w2)) × RanAll steps w2 w'

SagaOnly-shift :
    {w w' v : World} → w'.store ≡ w.store → w'.now ≡ w.now → SagaOnly w v → SagaOnly w' v
SagaOnly-shift e n s = record { tables = ground arith; same_now = ground arith }

pub RanAll-shift :
    (steps : List SagaStep) (w w' v : World)
    → w'.store ≡ w.store
    → w'.now ≡ w.now
    → RanAll steps w v
    → RanAll steps w' v
RanAll-shift [] w w' v e n r = SagaOnly-shift e n r
RanAll-shift (step ∷ steps) w w' v e n (w1, w2, s, a, r) = (w1, w2, SagaOnly-shift e n s, a, r)

next_step-elim {ℓ} :
    {P : Type ℓ} (id : String) (executed : List SagaStep) (x : Result ⊤ × World)
    (go_on : World → Result ⊤ × World) (w' : World)
    → next_step id executed x go_on ≡ (ok tt, w')
    → ((w : World) → x ≡ (ok tt, w) → go_on w ≡ (ok tt, w') → P)
    → P
next_step-elim id executed (ok u, w) go_on w' h k = k w refl h
next_step-elim id executed (err e, w) go_on w' h k = absurd (cc)

SagaOnly-trans : {w v u : World} → SagaOnly w v → u.store ≡ v.store → u.now ≡ v.now → SagaOnly w u
SagaOnly-trans s e n = record { tables = ground arith; same_now = ground arith }

RanAll-saga :
    (steps : List SagaStep) (w v u : World) → SagaOnly w v → RanAll steps v u → RanAll steps w u
RanAll-saga [] w v u s r = record { tables = ground arith; same_now = ground arith }
RanAll-saga (step ∷ steps) w v u s (w1, w2, r, a, rest) =
    (w1, w2, record { tables = ground arith; same_now = ground arith }, a, rest)

create_saga_state-SagaOnly :
    (saga : SagaState) (w w' : World)
    → create_saga_state direct saga w ≡ (ok tt, w')
    → SagaOnly w w'
unfolding create_saga_state
create_saga_state-SagaOnly saga w w' h =
    let (e, n) = exec-ok direct _ w w' h in record { tables = ground arith; same_now = n }

pub run_steps-ok :
    (id : String) (steps executed : List SagaStep) (w w' : World)
    → run_steps id steps executed w ≡ (ok tt, w')
    → RanAll steps w w'
unfolding run_steps
run_steps-ok id [] executed w w' h =
    subst (λ v. SagaOnly w v) (ap (λ (r : Result ⊤ × World). r.1) h)
      (update_saga_state-SagaOnly id SagaStatus.completed "DONE" w)
run_steps-ok id (step ∷ steps) executed w w' h =
    let w1 = (update_saga_state direct id SagaStatus.started step.name w).1 in
    next_step-elim id executed (with_tx step.action w1) _ w' h (λ w2 q k.
      let (w0, w3, e0, n0, a, e3, n3) = with_tx-ok step.action w1 w2 tt q in
      (
        w0,
        w3,
        SagaOnly-trans (update_saga_state-SagaOnly id SagaStatus.started step.name w) e0 n0,
        a,
        RanAll-shift steps w2 w3 w' (sym e3) (sym n3)
            (run_steps-ok id steps (step ∷ executed) w2 w' k),
      ))

pub execute-ok :
    (id txn_id : String) (steps : List SagaStep) (w w' : World)
    → execute id txn_id steps w ≡ (ok tt, w')
    → RanAll steps w w'
unfolding execute
execute-ok id txn_id steps w w' h =
    continue-elim
      {x = wrap_error "failed to create saga tracking state"
        (create_saga_state direct (tracking id txn_id w.now)) w}
      h
      (λ u w1 q k.
        let s =
          create_saga_state-SagaOnly (tracking id txn_id w.now) w w1
            (rewrap-ok _ (create_saga_state direct (tracking id txn_id w.now) w) tt w1 q) in
        RanAll-saga steps w w1 w' s (run_steps-ok id steps [] w1 w' k))
