-- ===== src/Settlement/Entries.antt =====
-- The ledger entries that LEDGER_COMMIT (internal/settlement/service.go) writes, as a sum.
use offline_pay.Prelude.{String, ◌≡◌, refl, sym, ◌≢◌, List, ite, str_dec, if_pos, if_neg}
use offline_pay.Prelude.Int.{ℤ, pos, ◌+ℤ◌, ◌-ℤ◌, int_laws, parts_of_eq}
use offline_pay.Domain.{Time, Direction, LedgerEntry}
use offline_pay.Database.{sum_by}
use offline_pay.Settlement.Steps.{Payment, reservation_txn}
use offline_pay.Settlement.Effects.{entries, debit_entry, credit_entry, release_entry}

-- A credit counts as its amount, a debit as its negative.
abbrev pub signed_amount : Direction → ℤ → ℤ
signed_amount Direction.credit amount = amount
signed_amount Direction.debit amount = pos 0 -ℤ amount

abbrev pub net_entry : String → LedgerEntry → ℤ
net_entry txn_id e = ite (str_dec e.txn_id txn_id) (signed_amount e.direction e.amount) (pos 0)

-- The credits of a transaction less its debits.
abbrev pub ledger_net : String → List LedgerEntry → ℤ
ledger_net txn_id rows = sum_by (net_entry txn_id) rows

net_hit :
    (e : LedgerEntry) (t : String)
    → e.txn_id ≡ t
    → net_entry t e ≡ signed_amount e.direction e.amount
net_hit e t h = if_pos (str_dec e.txn_id t) h _ _

net_miss : (e : LedgerEntry) (t : String) → e.txn_id ≢ t → net_entry t e ≡ pos 0
net_miss e t h = if_neg (str_dec e.txn_id t) h _ _

module _ (x : Payment) (sa ra : ℤ) (now : Time) (rows : List LedgerEntry)
    (apart : x.p.txn_id ≢ reservation_txn x.p.token_id) where
  abbrev paid : LedgerEntry
  paid = record (debit_entry x sa) { created_at = now }

  abbrev received : LedgerEntry
  received = record (credit_entry x ra) { created_at = now }

  abbrev released : LedgerEntry
  released = record (release_entry x sa) { created_at = now }

  pub entries-net : ledger_net x.p.txn_id (entries x sa ra now rows) ≡ ledger_net x.p.txn_id rows
  entries-net = omega (
    int_laws,
    parts_of_eq (net_hit paid x.p.txn_id refl),
    parts_of_eq (net_hit received x.p.txn_id refl),
    parts_of_eq (net_miss released x.p.txn_id (λ q. apart (sym q))),
  )

  pub entries-net_reservation :
      ledger_net (reservation_txn x.p.token_id) (entries x sa ra now rows)
      ≡ x.token.value +ℤ ledger_net (reservation_txn x.p.token_id) rows
  entries-net_reservation = omega (
    int_laws,
    parts_of_eq (net_miss paid (reservation_txn x.p.token_id) apart),
    parts_of_eq (net_miss received (reservation_txn x.p.token_id) apart),
    parts_of_eq (net_hit released (reservation_txn x.p.token_id) refl),
  )
