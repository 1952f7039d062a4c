-- ===== src/Database/Table.antt =====
-- A table is the list of its rows, newest first. A primary key is a text column, so `UPDATE` and
-- `SELECT` by key meet at most one row.
use offline_pay.Prelude.{
  ℕ, suc, ltb, leb, String, ◌≡◌, refl, ◌≢◌, Bool, true, false, Option, none, some, List, [], ◌∷◌,
  ite, str_dec, if_neg, if_pos, arith, if◌then◌else◌,
}
use offline_pay.Prelude.Int.{ℤ, pos, ◌+ℤ◌, int_laws, parts_of_eq}

module _ {ℓ} {V : Type ℓ} where
  -- `SELECT ... WHERE key = $1`
  abbrev pub find : (V → String) → String → List V → Option V
  find key k [] = none
  find key k (v ∷ rows) = ite (str_dec (key v) k) (some v) (find key k rows)

  -- `EXISTS(SELECT 1 ... WHERE key = $1)`
  abbrev pub exists : (V → String) → String → List V → Bool
  exists key k rows = elim (find key k rows) [ none ↦ false | some _ ↦ true ]

  -- `UPDATE ... WHERE key = $1`
  abbrev pub update : (V → String) → String → (V → V) → List V → List V
  update key k f [] = []
  update key k f (v ∷ rows) = ite (str_dec (key v) k) (f v ∷ rows) (v ∷ update key k f rows)

  -- `SELECT ... WHERE p`
  abbrev pub where_rows : (V → Bool) → List V → List V
  where_rows p [] = []
  where_rows p (v ∷ rows) = if p v then v ∷ where_rows p rows else where_rows p rows

  -- `DELETE ... WHERE p`
  abbrev pub delete_rows : (V → Bool) → List V → List V
  delete_rows p [] = []
  delete_rows p (v ∷ rows) = if p v then delete_rows p rows else v ∷ delete_rows p rows

  -- `SELECT SUM(...)`
  abbrev pub sum_by : (V → ℤ) → List V → ℤ
  sum_by w [] = pos 0
  sum_by w (v ∷ rows) = w v +ℤ sum_by w rows

  -- The first row that a `WHERE p` meets, for a key that is no text.
  abbrev pub first_row : (V → Bool) → List V → Option V
  first_row p [] = none
  first_row p (v ∷ rows) = if p v then some v else first_row p rows

  -- `UPDATE ... WHERE p`
  abbrev pub update_rows : (V → Bool) → (V → V) → List V → List V
  update_rows p f [] = []
  update_rows p f (v ∷ rows) = (if p v then f v else v) ∷ update_rows p f rows

  -- `SELECT COUNT(*) ... WHERE p`
  abbrev pub count_rows : (V → Bool) → List V → ℕ
  count_rows p [] = 0
  count_rows p (v ∷ rows) = let n = count_rows p rows in if p v then suc n else n

  -- `SELECT COALESCE(MAX(key), 0)`
  abbrev pub max_by : (V → ℕ) → List V → ℕ
  max_by key [] = 0
  max_by key (v ∷ rows) = let n = max_by key rows in if ltb n (key v) then key v else n

  abbrev pub insert_by : (V → ℕ) → V → List V → List V
  insert_by key v [] = v ∷ []
  insert_by key v (x ∷ rows) =
      if leb (key v) (key x) then v ∷ (x ∷ rows) else x ∷ insert_by key v rows

  -- `ORDER BY key ASC`
  abbrev pub order_by : (V → ℕ) → List V → List V
  order_by key [] = []
  order_by key (v ∷ rows) = insert_by key v (order_by key rows)

  pub find-key :
      (key : V → String) (k : String) (rows : List V) (v : V) → find key k rows ≡ some v → key v ≡ k
  find-key key k [] v h = cc
  find-key key k (x ∷ rows) v h = ground (arith, find-key key k rows v)

  pub find-update_self :
      (key : V → String) (k : String) (f : V → V) (rows : List V) (v : V)
      → find key k rows ≡ some v
      → key (f v) ≡ k
      → find key k (update key k f rows) ≡ some (f v)
  find-update_self key k f [] v h e = cc
  find-update_self key k f (x ∷ rows) v h e = ground (arith, find-update_self key k f rows v)

  pub find-update_ne :
      (key : V → String) (j k : String) (f : V → V) (rows : List V)
      → ((v : V) → key (f v) ≡ key v)
      → j ≢ k
      → find key j (update key k f rows) ≡ find key j rows
  find-update_ne key j k f [] same h = refl
  find-update_ne key j k f (x ∷ rows) same h =
      ground (arith, find-update_ne key j k f rows same h, same x)

  pub sum_by-update :
      (w : V → ℤ) (key : V → String) (k : String) (f : V → V) (rows : List V) (v : V)
      → find key k rows ≡ some v
      → sum_by w (update key k f rows) +ℤ w v ≡ sum_by w rows +ℤ w (f v)
  sum_by-update w key k f [] v h = cc
  sum_by-update w key k f (x ∷ rows) v h = elim (str_dec (key x) k) [
    | yes hit ↦ let e : x ≡ v = ground arith in rw (if_pos _ hit, e) (omega int_laws)
    | no miss ↦
        let e : find key k rows ≡ some v = ground arith in
        rw (if_neg _ miss) (omega (int_laws, parts_of_eq (sum_by-update w key k f rows v e)))
  ]

  pub exists-update :
      (key : V → String) (j k : String) (f : V → V) (rows : List V)
      → ((v : V) → key (f v) ≡ key v)
      → exists key j (update key k f rows) ≡ exists key j rows
  exists-update key j k f [] same = refl
  exists-update key j k f (x ∷ rows) same =
      ground (arith, exists-update key j k f rows same, same x)
