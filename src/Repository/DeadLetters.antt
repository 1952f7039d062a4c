-- ===== src/Repository/DeadLetters.antt =====
-- The dead letter queue of internal/repository/repository.go.
use offline_pay.Prelude.{ℕ, ◌+◌, Bool, true, List, ◌∷◌, ◌==◌, take, drop}
use offline_pay.Domain.{DeadLetterEvent}
use offline_pay.Database.{
  Error, ok, ⊤, Db, ◌>>=◌, ◌>>◌, pure, raise_if, Conn, direct, exec, query, query_row, first_row,
  delete_rows, order_by, count_rows,
}

abbrev pub letter_id : DeadLetterEvent → ℕ
letter_id d = d.event_id

abbrev pub has_letter_id : ℕ → DeadLetterEvent → Bool
has_letter_id id d = d.event_id == id

-- The id of the argument is ignored, and the table's next one taken.
unfoldable pub create_dead_letter_event : Conn → DeadLetterEvent → Db ⊤
create_dead_letter_event c ev = exec c λ now s. ok (record s {
  dead_letters = record ev { event_id = s.next_dead_letter_id } ∷ s.dead_letters;
  next_dead_letter_id = s.next_dead_letter_id + 1;
})

-- `chaos` can switch the database off; the ping itself may fail as any statement.
unfoldable pub ping : Db ⊤
ping w = (raise_if w.postgres_offline Error.offline >> query direct (λ s. tt)) w

unfoldable pub get_dead_letter_events : Db (List DeadLetterEvent)
get_dead_letter_events = query direct (λ s. order_by letter_id s.dead_letters)

unfoldable pub get_dead_letter_events_paginated : ℕ → ℕ → Db (List DeadLetterEvent × ℕ)
get_dead_letter_events_paginated limit offset = do
  total ← query direct (λ s. count_rows (λ _. true) s.dead_letters)
  page ← query direct (λ s. take limit (drop offset (order_by letter_id s.dead_letters)))
  pure (page, total)

unfoldable pub get_dead_letter_event : ℕ → Db DeadLetterEvent
get_dead_letter_event id = query_row direct (λ s. first_row (has_letter_id id) s.dead_letters)

unfoldable pub delete_dead_letter_event : ℕ → Db ⊤
delete_dead_letter_event id =
    exec direct
      λ now s. ok (record s { dead_letters = delete_rows (has_letter_id id) s.dead_letters })

unfoldable pub get_dead_letter_events_count : Db ℕ
get_dead_letter_events_count = query direct (λ s. count_rows (λ _. true) s.dead_letters)
