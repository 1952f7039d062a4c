-- ===== src/Settlement/Money.antt =====
-- Money through a settlement (the LEDGER_COMMIT step of internal/settlement/service.go): what the
-- two accounts hold together, and what is reserved for tokens that are still to be spent.
use offline_pay.Prelude.{String, ◌≡◌, refl, sym, ap, subst, ◌∙◌, ◌≢◌, some, List}
use offline_pay.Prelude.Int.{ℤ, pos, ◌+ℤ◌, int_laws, parts_of_eq, sub64}
use offline_pay.Domain.{Time, OfflineToken, TokenStatus, AccountBalance}
use offline_pay.Database.{
  Store, find, update, sum_by, find-key, find-update_self, find-update_ne, sum_by-update,
  balance_key, token_key,
}
use offline_pay.Repository.{set_balance, hold, consume}
use offline_pay.Settlement.Steps.{Payment, Accounts}
use offline_pay.Settlement.Effects.{moved, sender_available, sender_reserved, receiver_available}
use offline_pay.Settlement.Settled.{SettledEffect}
use offline_pay.Settlement.Exact.{Exact, IsCovered, ValidBalances, exact, funds, total_funds}

same_row :
    (j k : String) (rows : List AccountBalance) (a b : AccountBalance)
    → j ≡ k
    → find balance_key j rows ≡ some a
    → find balance_key k rows ≡ some b
    → a ≡ b
same_row j k rows a b e p q = cc

-- Two updates of rows with different keys, and two of the same row.
pub moved-total :
    (x : Payment) (acc : Accounts) (now : Time) (rows : List AccountBalance)
    → x.p.sender_id ≢ x.p.receiver_id
    → find balance_key x.p.sender_id rows ≡ some acc.sender
    → find balance_key x.p.receiver_id rows ≡ some acc.receiver
    → Exact x acc
    → total_funds (moved x acc now rows) ≡ total_funds rows
moved-total x acc now rows apart fs fr e =
    let f = set_balance (sender_available x acc) (sender_reserved x acc) now in
    let g = set_balance (receiver_available x acc) acc.receiver.reserved_balance now in
    let fr' =
      find-update_ne balance_key x.p.receiver_id x.p.sender_id f rows (λ v. refl)
        (λ q. apart (sym q))
      ∙ fr in
    omega (
      int_laws,
      parts_of_eq (sum_by-update funds balance_key x.p.sender_id f rows acc.sender fs),
      parts_of_eq (
          sum_by-update funds balance_key x.p.receiver_id g
            (update balance_key x.p.sender_id f rows) acc.receiver fr'),
      parts_of_eq e.sender_gets,
      parts_of_eq e.sender_frees,
      parts_of_eq e.receiver_gets,
    )

pub moved-total_self :
    (x : Payment) (acc : Accounts) (now : Time) (rows : List AccountBalance)
    → x.p.sender_id ≡ x.p.receiver_id
    → find balance_key x.p.sender_id rows ≡ some acc.sender
    → find balance_key x.p.receiver_id rows ≡ some acc.receiver
    → Exact x acc
    → total_funds (moved x acc now rows) ≡ total_funds rows +ℤ x.p.amount
moved-total_self x acc now rows same fs fr e =
    let f = set_balance (sender_available x acc) (sender_reserved x acc) now in
    let g = set_balance (receiver_available x acc) acc.receiver.reserved_balance now in
    let fs' =
      find-update_self balance_key x.p.sender_id f rows acc.sender fs
        (find-key balance_key x.p.sender_id rows acc.sender fs) in
    let fr' =
      subst
        (λ k. find balance_key k (update balance_key x.p.sender_id f rows) ≡ some (f acc.sender))
        same fs' in
    let q = same_row x.p.sender_id x.p.receiver_id rows acc.sender acc.receiver same fs fr in
    omega (
      int_laws,
      parts_of_eq (sum_by-update funds balance_key x.p.sender_id f rows acc.sender fs),
      parts_of_eq (
          sum_by-update funds balance_key x.p.receiver_id g
            (update balance_key x.p.sender_id f rows) (f acc.sender) fr'),
      parts_of_eq (ap (λ (b : AccountBalance). b.available_balance) q),
      parts_of_eq (ap (λ (b : AccountBalance). b.reserved_balance) q),
      parts_of_eq e.sender_gets,
      parts_of_eq e.sender_frees,
      parts_of_eq e.receiver_gets,
    )

abbrev pub claim : TokenStatus → ℤ → ℤ
claim TokenStatus.issued value = value
claim TokenStatus.held value = value
claim TokenStatus.consumed value = pos 0
claim TokenStatus.invalidated value = pos 0
claim (TokenStatus.other _) value = pos 0

-- What a token still claims of its owner's reserve: its value until it is consumed or invalidated.
abbrev pub outstanding : OfflineToken → ℤ
outstanding t = claim t.status t.value

-- The reserves of all accounts are exactly what the outstanding tokens claim.
abbrev pub IsBacked : Store → Type 0
IsBacked s =
    sum_by (λ (b : AccountBalance). b.reserved_balance) s.balances ≡ sum_by outstanding s.tokens

moved-reserved :
    (x : Payment) (acc : Accounts) (now : Time) (rows : List AccountBalance)
    → x.p.sender_id ≢ x.p.receiver_id
    → find balance_key x.p.sender_id rows ≡ some acc.sender
    → find balance_key x.p.receiver_id rows ≡ some acc.receiver
    → sub64 acc.sender.reserved_balance x.token.value +ℤ x.token.value ≡ acc.sender.reserved_balance
    → sum_by (λ (b : AccountBalance). b.reserved_balance) (moved x acc now rows) +ℤ x.token.value
      ≡ sum_by (λ (b : AccountBalance). b.reserved_balance) rows
moved-reserved x acc now rows apart fs fr e =
    let f = set_balance (sender_available x acc) (sender_reserved x acc) now in
    let g = set_balance (receiver_available x acc) acc.receiver.reserved_balance now in
    let fr' =
      find-update_ne balance_key x.p.receiver_id x.p.sender_id f rows (λ v. refl)
        (λ q. apart (sym q))
      ∙ fr in
    omega (
      int_laws,
      parts_of_eq (
          sum_by-update (λ (b : AccountBalance). b.reserved_balance) balance_key x.p.sender_id f
            rows acc.sender fs),
      parts_of_eq (
          sum_by-update (λ (b : AccountBalance). b.reserved_balance) balance_key x.p.receiver_id g
            (update balance_key x.p.sender_id f rows) acc.receiver fr'),
      parts_of_eq e,
    )

-- A settlement between two accounts keeps the reserves backed.
pub SettledEffect-IsBacked :
    (x : Payment) (now : Time) (s s' : Store) (e : SettledEffect x now s s')
    → ValidBalances s.balances
    → IsCovered x
    → x.p.sender_id ≢ x.p.receiver_id
    → x.token ≡ e.token
    → IsBacked s
    → IsBacked s'
SettledEffect-IsBacked x now s s' e valid covered apart same backed =
    let y = exact x now s s' e valid covered in
    let k = find-key token_key x.p.token_id s.tokens e.token e.found_token in
    let held =
      sum_by-update outstanding token_key x.p.token_id (hold now) s.tokens e.token e.found_token in
    let found' =
      find-update_self token_key x.p.token_id (hold now) s.tokens e.token e.found_token k in
    let consumed =
      sum_by-update outstanding token_key x.p.token_id (consume now)
        (update token_key x.p.token_id (hold now) s.tokens) (hold now e.token) found' in
    let was : outstanding e.token ≡ x.token.value = rw (e.was_issued, same) refl in
    let tokens = ap (sum_by outstanding) e.tokens_after in
    let balances = ap (sum_by (λ (b : AccountBalance). b.reserved_balance)) e.balances_after in
    let m =
      moved-reserved x e.accounts now s.balances apart e.found_sender e.found_receiver
        y.sender_frees in
    let value = ap (λ (t : OfflineToken). t.value) same in
    omega (
      int_laws,
      parts_of_eq held,
      parts_of_eq consumed,
      parts_of_eq was,
      parts_of_eq tokens,
      parts_of_eq balances,
      parts_of_eq m,
      parts_of_eq value,
      parts_of_eq backed,
    )
