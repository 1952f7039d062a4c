-- ===== src/Outbox/Waiting.antt =====
-- The rows that a batch can take: only those that wait.
use offline_pay.Prelude.{
  ℕ, zero, suc, ◌≡◌, refl, false, List, [], ◌∷◌, inl, inr, Bool-cases, leb, take, ◌==◌,
}
use offline_pay.Database.{Store, OutboxRow, where_rows, order_by, insert_by}
use offline_pay.Repository.{
  has_row_id, row_id, is_pending, outbox_event, outbox_events_of, any_id, pending_batch,
}

-- The rows of an id.
abbrev pub rows_of : ℕ → Store → List OutboxRow
rows_of id s = where_rows (has_row_id id) s.outbox

-- None of these rows waits for a worker.
abbrev pub NoneWaits : List OutboxRow → Type 0
NoneWaits [] = Unit {0}
NoneWaits (r ∷ rows) = (is_pending r ≡ false) × NoneWaits rows

-- No row of these has the id.
abbrev pub Lacks : ℕ → List OutboxRow → Type 0
Lacks id [] = Unit {0}
Lacks id (r ∷ rows) = ((r.event_id == id) ≡ false) × Lacks id rows

pub pending-Lacks :
    (id : ℕ) (rows : List OutboxRow)
    → NoneWaits (where_rows (has_row_id id) rows)
    → Lacks id (where_rows is_pending rows)
pending-Lacks id [] h = tt
pending-Lacks id (r ∷ rows) h = elim (Bool-cases (r.event_id == id)) [
  | inl e ↦
      let h' : NoneWaits (r ∷ where_rows (has_row_id id) rows) = rw e at h in
      rw h'.0 (pending-Lacks id rows h'.1)
  | inr e ↦
      let rest = pending-Lacks id rows (rw e at h) in
      elim (Bool-cases (is_pending r)) [ inl p ↦ rw p (e, rest) | inr p ↦ rw p rest ]
]

pub insert_by-Lacks :
    (id : ℕ) (r : OutboxRow) (rows : List OutboxRow)
    → (r.event_id == id) ≡ false
    → Lacks id rows
    → Lacks id (insert_by row_id r rows)
insert_by-Lacks id r [] e h = (e, tt)
insert_by-Lacks id r (x ∷ rows) e h = elim (Bool-cases (leb r.event_id x.event_id)) [
  | inl p ↦ rw p (e, h)
  | inr p ↦ rw p (h.0, insert_by-Lacks id r rows e h.1)
]

pub order_by-Lacks :
    (id : ℕ) (rows : List OutboxRow) → Lacks id rows → Lacks id (order_by row_id rows)
order_by-Lacks id [] h = tt
order_by-Lacks id (r ∷ rows) h =
    insert_by-Lacks id r (order_by row_id rows) h.0 (order_by-Lacks id rows h.1)

pub take-Lacks : (id n : ℕ) (rows : List OutboxRow) → Lacks id rows → Lacks id (take n rows)
take-Lacks id zero rows h = tt
take-Lacks id (suc n) [] h = tt
take-Lacks id (suc n) (r ∷ rows) h = (h.0, take-Lacks id n rows h.1)

pub any_id-Lacks :
    (id : ℕ) (rows : List OutboxRow) → Lacks id rows → any_id (outbox_events_of rows) id ≡ false
unfolding any_id outbox_events_of outbox_event
any_id-Lacks id [] h = refl
any_id-Lacks id (r ∷ rows) h = rw (h.0, any_id-Lacks id rows h.1) refl

-- A batch has no event whose rows do not wait.
pub pending_batch-skips :
    (id limit : ℕ) (rows : List OutboxRow)
    → NoneWaits (where_rows (has_row_id id) rows)
    → any_id (pending_batch limit rows) id ≡ false
unfolding pending_batch
pending_batch-skips id limit rows h =
    any_id-Lacks id (take limit (order_by row_id (where_rows is_pending rows))) (
      take-Lacks id limit (order_by row_id (where_rows is_pending rows))
        (order_by-Lacks id (where_rows is_pending rows) (pending-Lacks id rows h)))
