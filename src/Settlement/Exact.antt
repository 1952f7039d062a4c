-- ===== src/Settlement/Exact.antt =====
-- The sums that LEDGER_COMMIT (internal/settlement/service.go) computes are exact on valid rows.
use offline_pay.Prelude.{String, ◌≡◌, refl, ◌∙◌, Bool, true, false, not, ◌||◌, some, List, arith}
use offline_pay.Prelude.Int.{
  ℤ, pos, ◌+ℤ◌, ◌-ℤ◌, ltb_ℤ, int_laws, parts_of_eq, add64, sub64, IsInt64, IsNonneg, leb_ℤ→IsNonneg,
  add64-nonneg, sub64-nonneg, wrap64-IsInt64,
}
use offline_pay.Domain.{Time, AccountBalance}
use offline_pay.Database.{Store, find, exists, sum_by, exists-update, balance_key}
use offline_pay.Repository.{nonneg_balance}
use offline_pay.Settlement.Steps.{Payment, Accounts}
use offline_pay.Settlement.Effects.{sender_available, sender_reserved, receiver_available}
use offline_pay.Settlement.Settled.{SettledEffect}

-- A column of cents: an int64 that is not negative.
abbrev pub IsMoney : ℤ → Type 0
IsMoney z = IsNonneg z × IsInt64 z

-- The rows of `account_balances` are as their types and checks say.
abbrev pub ValidBalances : List AccountBalance → Type 0
ValidBalances rows =
    (k : String) (b : AccountBalance)
    → find balance_key k rows ≡ some b
    → IsMoney b.available_balance × IsMoney b.reserved_balance

-- All the money of the accounts.
abbrev pub funds : AccountBalance → ℤ
funds b = b.available_balance +ℤ b.reserved_balance

abbrev pub total_funds : List AccountBalance → ℤ
total_funds rows = sum_by funds rows

pub nonneg_balance-IsNonneg :
    (a r : ℤ) (b : Bool) → nonneg_balance a r || not b ≡ true → b ≡ true → IsNonneg a × IsNonneg r
nonneg_balance-IsNonneg a r b h e =
    let both : nonneg_balance a r ≡ true = ground arith in
    (leb_ℤ→IsNonneg a (ground arith), leb_ℤ→IsNonneg r (ground arith))

pub change-exact :
    (value amount : ℤ)
    → IsMoney value
    → IsInt64 amount
    → ltb_ℤ (pos 0) amount ≡ true
    → ltb_ℤ value amount ≡ false
    → (sub64 value amount ≡ value -ℤ amount) × IsMoney (sub64 value amount)
unfolding ◌-ℤ◌
change-exact value amount (nv, iv) ia positive covers =
    let na : IsNonneg amount = ground arith in
    let e = sub64-nonneg value amount nv iv na ia in (e, ground arith)

pub reserved-exact :
    (reserved value : ℤ)
    → IsMoney reserved
    → IsMoney value
    → ltb_ℤ reserved value ≡ false
    → (sub64 reserved value ≡ reserved -ℤ value) × IsMoney (sub64 reserved value)
unfolding ◌-ℤ◌
reserved-exact reserved value (nr, ir) (nv, iv) covered =
    let e = sub64-nonneg reserved value nr ir nv iv in (e, ground arith)

-- What a valid settlement writes, as exact sums.
pub record Exact (x : Payment) (acc : Accounts) : Type 0 where
  pub sender_gets :
      sender_available x acc +ℤ x.p.amount ≡ acc.sender.available_balance +ℤ x.token.value
  pub sender_frees : sender_reserved x acc +ℤ x.token.value ≡ acc.sender.reserved_balance
  pub receiver_gets : receiver_available x acc ≡ acc.receiver.available_balance +ℤ x.p.amount
  pub sender_money : IsMoney (sender_available x acc) × IsMoney (sender_reserved x acc)
  pub receiver_money : IsMoney (receiver_available x acc)

-- The token and the amount fit their columns, and the token covers the amount.
abbrev pub IsCovered : Payment → Type 0
IsCovered x = IsMoney x.token.value × IsInt64 x.p.amount × (ltb_ℤ x.token.value x.p.amount ≡ false)

pub found-exists :
    (k : String) (rows : List AccountBalance) (b : AccountBalance)
    → find balance_key k rows ≡ some b
    → exists balance_key k rows ≡ true
found-exists k rows b h = ground arith

pub positive-IsNonneg : (z : ℤ) → ltb_ℤ (pos 0) z ≡ true → IsNonneg z
positive-IsNonneg z h = ground arith

pub sender_gains :
    (a value amount : ℤ)
    → IsMoney a
    → IsMoney (sub64 value amount)
    → sub64 value amount ≡ value -ℤ amount
    → IsNonneg (add64 a (sub64 value amount))
    → add64 a (sub64 value amount) +ℤ amount ≡ a +ℤ value
sender_gains a value amount (na, ia) (nc, ic) e h =
    let q = add64-nonneg a (sub64 value amount) na ia nc ic h in
    omega (int_laws, parts_of_eq q, parts_of_eq e)

pub reserve_falls : (r value : ℤ) → sub64 r value ≡ r -ℤ value → sub64 r value +ℤ value ≡ r
reserve_falls r value e = omega (int_laws, parts_of_eq e)

pub add64-IsInt64 : (a b : ℤ) → IsInt64 (add64 a b)
unfolding add64
add64-IsInt64 a b = wrap64-IsInt64 (a +ℤ b)

pub exact :
    (x : Payment) (now : Time) (s s' : Store) (e : SettledEffect x now s s')
    → ValidBalances s.balances
    → IsCovered x
    → Exact x e.accounts
exact x now s s' e valid (vm, ia, covers) =
    let acc = e.accounts in
    let (sa, sr) = valid _ _ e.found_sender in
    let (ra, rr) = valid _ _ e.found_receiver in
    let (change, change_money) = change-exact x.token.value x.p.amount vm ia e.positive covers in
    let (reserved, reserved_money) =
      reserved-exact acc.sender.reserved_balance x.token.value sr vm e.covered in
    let here = found-exists _ _ _ e.found_sender in
    let there = found-exists _ _ _ e.found_receiver in
    let (ns, nr) = nonneg_balance-IsNonneg _ _ _ e.sender_nonneg here in
    let (nv, nw) =
      nonneg_balance-IsNonneg _ _ _ e.receiver_nonneg (
        exists-update balance_key x.p.receiver_id x.p.sender_id _ s.balances (λ v. refl) ∙ there) in
    let na = positive-IsNonneg x.p.amount e.positive in
    record {
      sender_gets = sender_gains _ _ _ sa change_money change ns;
      sender_frees = reserve_falls _ _ reserved;
      receiver_gets = add64-nonneg _ _ ra.0 ra.1 na ia nv;
      sender_money = ((ns, add64-IsInt64 _ _), reserved_money);
      receiver_money = (nv, add64-IsInt64 _ _);
    }
