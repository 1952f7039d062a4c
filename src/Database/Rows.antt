-- ===== src/Database/Rows.antt =====
-- Rows after an update and a deletion by a condition, and how a call ends.
use offline_pay.Prelude.{
  ◌≡◌, refl, Bool, true, false, Option, none, some, List, [], ◌∷◌, ◌⊎◌, inl, inr, arith,
}
use offline_pay.Domain.{Time}
use offline_pay.Database.Schema.{Store, Error, Result, ok, err}
use offline_pay.Database.Table.{first_row, update_rows, delete_rows, where_rows}
use offline_pay.Database.Monad.{World, Conn, exec}
use offline_pay.Database.Laws.{exec-ok, exec-err}

module _ {ℓ} {V : Type ℓ} where
  abbrev pub map_option : (V → V) → Option V → Option V
  map_option f none = none
  map_option f (some v) = some (f v)

  pub first_row-update_rows :
      (p : V → Bool) (f : V → V)
      → ((v : V) → p (f v) ≡ p v)
      → (rows : List V) → first_row p (update_rows p f rows) ≡ map_option f (first_row p rows)
  first_row-update_rows p f same [] = refl
  first_row-update_rows p f same (x ∷ rows) =
      ground (arith, first_row-update_rows p f same rows, same x)

  pub first_row-delete_rows :
      (p : V → Bool) (rows : List V) → first_row p (delete_rows p rows) ≡ none
  first_row-delete_rows p [] = refl
  first_row-delete_rows p (x ∷ rows) = ground (arith, first_row-delete_rows p rows)

  -- The rows that `q` selects, after an update of others.
  pub where_rows-update_rows :
      (p q : V → Bool) (f : V → V)
      → ((v : V) → q (f v) ≡ q v)
      → ((v : V) → q v ≡ true → p v ≡ false)
      → (rows : List V) → where_rows q (update_rows p f rows) ≡ where_rows q rows
  where_rows-update_rows p q f same apart [] = refl
  where_rows-update_rows p q f same apart (x ∷ rows) =
      ground (arith, where_rows-update_rows p q f same apart rows, same x, apart x)

  pub where_rows-delete_rows :
      (p q : V → Bool)
      → ((v : V) → q v ≡ true → p v ≡ false)
      → (rows : List V) → where_rows q (delete_rows p rows) ≡ where_rows q rows
  where_rows-delete_rows p q apart [] = refl
  where_rows-delete_rows p q apart (x ∷ rows) =
      ground (arith, where_rows-delete_rows p q apart rows, apart x)

pub result-cases {ℓ} :
    {A : Type 0} {P : Type ℓ} (x : Result A × World)
    → ((a : A) (w : World) → x ≡ (ok a, w) → P)
    → ((e : Error) (w : World) → x ≡ (err e, w) → P)
    → P
result-cases (ok a, w) yes_case no_case = yes_case a w refl
result-cases (err e, w) yes_case no_case = no_case e w refl

-- A statement whose error is ignored has run, or has left the tables alone.
pub exec-cases :
    (c : Conn) (f : Time → Store → Result Store) (w : World)
    → (f w.now w.store ≡ ok (exec c f w).1.store) ⊎ ((exec c f w).1.store ≡ w.store)
exec-cases c f w =
    result-cases (exec c f w) (λ a w' h. inl (ground (arith, exec-ok c f w w')))
      (λ e w' h. inr (ground (arith, exec-err c f w w' e)))
