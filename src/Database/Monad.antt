-- ===== src/Database/Monad.antt =====
-- Statements and transactions. A statement may fail because the connection is down: `outages`
-- says so for each statement, each begin and each commit in turn. A failed commit is a rollback.
use offline_pay.Prelude.{
  String, Bool, true, false, Option, none, some, List, [], ◌∷◌, if◌then◌else◌,
}
use offline_pay.Domain.{Time}
use offline_pay.Database.Schema.{Store, Error, Result, ok, err}

pub record World : Type 0 where
  pub store : Store
  -- `time.Now()` and CURRENT_TIMESTAMP
  pub now : Time
  -- A statement of the open transaction has failed.
  pub aborted : Bool
  pub outages : List Bool
  -- `chaos.GetController().IsPostgresOffline()`
  pub postgres_offline : Bool

-- A database that answers.
abbrev pub calm : Store → Time → World
calm s now = record {
  store = s;
  now = now;
  aborted = false;
  outages = [];
  postgres_offline = false;
}

abbrev pub ⊤ : Type 0
⊤ = Unit

abbrev pub Db : Type 0 → Type 0
Db A = World → Result A × World

-- What follows a call that has ended so.
abbrev pub continue : {A B : Type 0} → Result A × World → (A → Db B) → Result B × World
continue (ok a, w) f = f a w
continue (err e, w) f = (err e, w)

infixl 5 ◌>>=◌ ◌>>◌
abbrev pub ◌>>=◌ : {A B : Type 0} → Db A → (A → Db B) → Db B
◌>>=◌ m f w = continue (m w) f

abbrev pub ◌>>◌ : {B : Type 0} → Db ⊤ → Db B → Db B
m >> k = m >>= λ _. k

abbrev pub pure : {A : Type 0} → A → Db A
pure a w = (ok a, w)

abbrev pub raise : {A : Type 0} → Error → Db A
raise e w = (err e, w)

-- `if c { return e }`
abbrev pub raise_if : Bool → Error → Db ⊤
raise_if c e w = (if c then err e else ok tt, w)

abbrev pub clock : Db Time
clock w = (ok w.now, w)

-- `_ = m()`
abbrev pub ignore : {A : Type 0} → Db A → Db ⊤
ignore m w = (ok tt, (m w).1)

-- The result as a value, for code that looks at `err`.
abbrev pub attempt : {A : Type 0} → Db A → Db (Result A)
attempt m w = (ok (m w).0, (m w).1)

-- `if err != nil { return fmt.Errorf(s + ": %w", err) }`
abbrev pub rewrap : {A : Type 0} → String → Result A × World → Result A × World
rewrap s (ok a, w) = (ok a, w)
rewrap s (err e, w) = (err (Error.wrap s e), w)

abbrev pub wrap_error : {A : Type 0} → String → Db A → Db A
wrap_error s m w = rewrap s (m w)

-- The pool's own connection (`r.db`) or an open transaction (`tx`).
pub data Conn : Type 0 where
  direct in_tx : Conn

abbrev pub next_outage : World → Bool × World
next_outage w = elim w.outages [ [] ↦ (false, w) | b ∷ rest ↦ (b, record w { outages = rest }) ]

abbrev pub mark_failed : Conn → World → World
mark_failed direct w = w
mark_failed in_tx w = record w { aborted = true }

abbrev pub finish : {A : Type 0} → Conn → Result (A × Store) → World → Result A × World
finish c (ok (a, s)) w = (ok a, record w { store = s })
finish c (err e) w = (err e, mark_failed c w)

abbrev pub is_dead : Conn → World → Bool
is_dead direct w = false
is_dead in_tx w = w.aborted

-- One statement.
unfoldable pub stmt : {A : Type 0} → Conn → (Store → Result (A × Store)) → Db A
stmt c f w =
    if is_dead c w
    then (err Error.tx_aborted, w)
    else (let (down, w') = next_outage w in
        if down then (err Error.outage, mark_failed c w') else finish c (f w'.store) w')

abbrev pub with_unit : Result Store → Result (⊤ × Store)
with_unit (ok s) = ok (tt, s)
with_unit (err e) = err e

-- `ExecContext`: a statement that writes.
unfoldable pub exec : Conn → (Time → Store → Result Store) → Db ⊤
exec c f w = stmt c (λ s. with_unit (f w.now s)) w

-- `QueryContext`: a statement that reads.
unfoldable pub query : {A : Type 0} → Conn → (Store → A) → Db A
query c f = stmt c (λ s. ok (f s, s))

-- `QueryRow(...).Scan(...)`: no row is an error of the scan, which aborts no transaction.
abbrev pub or_no_rows : {A : Type 0} → Option A → Db A
or_no_rows none = raise Error.no_rows
or_no_rows (some a) = pure a

unfoldable pub query_row : {A : Type 0} → Conn → (Store → Option A) → Db A
query_row c f = query c f >>= or_no_rows

-- Devices are written on the pool's own connection only, so a rollback keeps them. No function that
-- the program gives to `WithTx` writes another table on that connection.
abbrev pub rollback : World → World → World
rollback w w' = record w' { store = record w.store { devices = w'.store.devices }; aborted = false }

abbrev pub commit : {A : Type 0} → World → A → World → Result A × World
commit w a w' =
    if w'.aborted
    then (err Error.tx_aborted, rollback w w')
    else (let (down, w'') = next_outage w' in
        if down then (err Error.outage, rollback w w'') else (ok a, w''))

abbrev pub close_tx : {A : Type 0} → World → Result A × World → Result A × World
close_tx w (ok a, w') = commit w a w'
close_tx w (err e, w') = (err e, rollback w w')

-- `WithTx`
unfoldable pub with_tx : {A : Type 0} → Db A → Db A
with_tx fn w =
    if w.postgres_offline
    then (err Error.offline, w)
    else (let (down, w') = next_outage w in
        if down then (err Error.outage, w') else close_tx w (fn (record w' { aborted = false })))

-- How the function that `WithTx` was given ended, whatever became of the commit.
unfoldable pub body_result : {A : Type 0} → Db A → World → Result A
body_result fn w =
    if w.postgres_offline
    then err Error.offline
    else (let (down, w') = next_outage w in
        if down then err Error.outage else (fn (record w' { aborted = false })).0)
