-- ===== src/Repository/Outbox.antt =====
-- The outbox relay's methods of internal/repository/repository.go. SKIP LOCKED passes over rows
-- that another open transaction holds; the model has one transaction at a time.
use offline_pay.Prelude.{
  ℕ, ◌+◌, String, Bool, true, false, ◌||◌, none, some, List, [], ◌∷◌, if◌then◌else◌, ◌==◌, leb,
  take,
}
use offline_pay.Domain.{OutboxEvent, Time}
use offline_pay.Database.{
  ok, OutboxRow, OutboxStatus, ⊤, Db, ◌>>=◌, ◌>>◌, pure, Conn, direct, in_tx, exec, query,
  update_rows, where_rows, order_by, max_by, count_rows,
}

-- The columns that the methods select.
unfoldable pub outbox_event : OutboxRow → OutboxEvent
outbox_event r = record {
  event_id = r.event_id;
  stream_name = r.stream_name;
  event_type = r.event_type;
  payload = r.payload;
  is_published = r.is_published;
  created_at = r.created_at;
}

abbrev pub row_id : OutboxRow → ℕ
row_id r = r.event_id

abbrev pub has_row_id : ℕ → OutboxRow → Bool
has_row_id id r = r.event_id == id

unfoldable pub is_unpublished : OutboxRow → Bool
is_unpublished r = if r.is_published then false else true

unfoldable pub is_pending : OutboxRow → Bool
is_pending r = elim r.status [
  | OutboxStatus.pending ↦ true
  | OutboxStatus.processing ↦ false
  | OutboxStatus.published ↦ false
  | OutboxStatus.failed ↦ false
]

unfoldable pub outbox_events_of : List OutboxRow → List OutboxEvent
outbox_events_of [] = []
outbox_events_of (r ∷ rows) = outbox_event r ∷ outbox_events_of rows

-- `event_id = ANY($1)`
unfoldable pub any_id : List OutboxEvent → ℕ → Bool
any_id [] id = false
any_id (ev ∷ events) id = ev.event_id == id || any_id events id

unfoldable pub any_of : List ℕ → ℕ → Bool
any_of [] id = false
any_of (x ∷ ids) id = x == id || any_of ids id

unfoldable pub get_unpublished_outbox_events : Db (List OutboxEvent)
get_unpublished_outbox_events =
    query direct
      λ s. outbox_events_of (take 100 (order_by row_id (where_rows is_unpublished s.outbox)))

unfoldable pub mark_outbox_events_published : List ℕ → Db ⊤
mark_outbox_events_published [] = pure tt
mark_outbox_events_published (id ∷ ids) = exec direct λ now s. ok (record s {
  outbox =
      update_rows (λ r. any_of (id ∷ ids) r.event_id) (λ r. record r { is_published = true })
        s.outbox;
})

-- The batch that the select statement finds.
unfoldable pub pending_batch : ℕ → List OutboxRow → List OutboxEvent
pending_batch limit rows =
    outbox_events_of (take limit (order_by row_id (where_rows is_pending rows)))

unfoldable pub lock_row : String → Time → OutboxRow → OutboxRow
lock_row locked_by now r = record r {
  status = OutboxStatus.processing;
  locked_by = some locked_by;
  locked_at = some now;
}

unfoldable pub lock_batch : String → List OutboxEvent → Db ⊤
unfolding any_id lock_row
lock_batch locked_by events = exec in_tx λ now s. ok (record s {
  outbox = update_rows (λ r. any_id events r.event_id) (lock_row locked_by now) s.outbox;
})

-- Without events there is no update.
unfoldable pub lock_events : String → List OutboxEvent → Db (List OutboxEvent)
unfolding lock_batch
lock_events locked_by [] = pure []
lock_events locked_by (ev ∷ events) = do lock_batch locked_by (ev ∷ events); pure (ev ∷ events)

unfoldable pub get_pending_outbox_events_for_update : ℕ → String → Db (List OutboxEvent)
unfolding pending_batch lock_events
get_pending_outbox_events_for_update limit locked_by = do
  events ← query in_tx (λ s. pending_batch limit s.outbox)
  lock_events locked_by events

unfoldable pub publish_row : OutboxRow → OutboxRow
publish_row r = record r {
  status = OutboxStatus.published;
  is_published = true;
  locked_by = none;
  locked_at = none;
}

unfoldable pub mark_outbox_event_published : Conn → ℕ → Db ⊤
unfolding publish_row
mark_outbox_event_published c id =
    exec c λ now s. ok (record s { outbox = update_rows (has_row_id id) publish_row s.outbox })

unfoldable pub fail_row : String → ℕ → OutboxRow → OutboxRow
fail_row error max_retries r = record r {
  retry_count = r.retry_count + 1;
  last_error = some error;
  status =
      if leb max_retries (r.retry_count + 1) then OutboxStatus.failed else OutboxStatus.pending;
  locked_by = none;
  locked_at = none;
}

unfoldable pub mark_outbox_event_failed : Conn → ℕ → String → ℕ → Db ⊤
unfolding fail_row
mark_outbox_event_failed c id error max_retries = exec c λ now s.
    ok (record s { outbox = update_rows (has_row_id id) (fail_row error max_retries) s.outbox })

unfoldable pub get_latest_outbox_event_id : Db ℕ
get_latest_outbox_event_id = query direct (λ s. max_by row_id s.outbox)

unfoldable pub get_pending_outbox_events_count : Db ℕ
unfolding is_pending
get_pending_outbox_events_count = query direct (λ s. count_rows is_pending s.outbox)
