-- ===== src/Database/Laws.antt =====
-- What a statement, a transaction and a sequence of them that succeed have done.
use offline_pay.Prelude.{String, ◌≡◌, refl, Bool, true, false, Option, none, some, arith}
use offline_pay.Domain.{Time}
use offline_pay.Database.Schema.{Store, Error, Result, ok, err}
use offline_pay.Database.Monad.{
  World, Db, continue, rewrap, raise_if, Conn, direct, in_tx, stmt, exec, query, query_row, with_tx,
  finish, next_outage, with_unit, or_no_rows, commit, close_tx,
}

pub continue-ok :
    {A B : Type 0} (x : Result A × World) (f : A → Db B) (b : B) (w' : World)
    → continue x f ≡ (ok b, w')
    → (a : A) × (w : World) × (x ≡ (ok a, w)) × (f a w ≡ (ok b, w'))
continue-ok (ok a, w) f b w' h = (a, w, refl, h)
continue-ok (err e, w) f b w' h = cc

-- The same as a rule, so that the parts of a long sequence stay variables.
pub continue-elim {ℓ} :
    {A B : Type 0} {P : Type ℓ} {x : Result A × World} {f : A → Db B} {b : B} {w' : World}
    → continue x f ≡ (ok b, w')
    → ((a : A) (w : World) → x ≡ (ok a, w) → f a w ≡ (ok b, w') → P)
    → P
continue-elim {x = (ok a, w)} h k = k a w refl h
continue-elim {x = (err e, w)} h k = absurd (cc)

pub rewrap-ok :
    {A : Type 0} (s : String) (x : Result A × World) (a : A) (w : World)
    → rewrap s x ≡ (ok a, w)
    → x ≡ (ok a, w)
rewrap-ok s (ok a, w) b w' h = h
rewrap-ok s (err e, w) b w' h = cc

-- After a check that has not raised, the rest runs in the same world.
pub raise_if-ok :
    {B : Type 0} (c : Bool) (e : Error) (w : World) (f : Unit {0} → Db B) (b : B) (w' : World)
    → continue (raise_if c e w) f ≡ (ok b, w')
    → (c ≡ false) × (f tt w ≡ (ok b, w'))
raise_if-ok true e w f b w' h = cc
raise_if-ok false e w f b w' h = (refl, h)

module _ {A : Type 0} where
  finish-ok :
      (c : Conn) (r : Result (A × Store)) (w w' : World) (a : A)
      → finish c r w ≡ (ok a, w')
      → (r ≡ ok (a, w'.store)) × (w'.now ≡ w.now)
  finish-ok c (ok (b, s)) w w' a h = (ground arith, ground arith)
  finish-ok direct (err e) w w' a h = cc
  finish-ok in_tx (err e) w w' a h = cc

  finish-err :
      (c : Conn) (r : Result (A × Store)) (w w' : World) (e : Error)
      → finish c r w ≡ (err e, w')
      → (w'.store ≡ w.store) × (w'.now ≡ w.now)
  finish-err c (ok (b, s)) w w' e h = absurd (cc)
  finish-err direct (err d) w w' e h = (ground arith, ground arith)
  finish-err in_tx (err d) w w' e h = (ground arith, ground arith)

  pub stmt-ok :
      (c : Conn) (f : Store → Result (A × Store)) (w w' : World) (a : A)
      → stmt c f w ≡ (ok a, w')
      → (f w.store ≡ ok (a, w'.store)) × (w'.now ≡ w.now)
  unfolding stmt
  stmt-ok c f w w' a h =
      ground (arith, finish-ok c (f w.store) w w' a, finish-ok c (f w.store) (next_outage w).1 w' a)

  pub stmt-err :
      (c : Conn) (f : Store → Result (A × Store)) (w w' : World) (e : Error)
      → stmt c f w ≡ (err e, w')
      → (w'.store ≡ w.store) × (w'.now ≡ w.now)
  unfolding stmt
  stmt-err c f w w' e h =
      ground
        (arith, finish-err c (f w.store) w w' e, finish-err c (f w.store) (next_outage w).1 w' e)

with_unit-ok : (r : Result Store) (s : Store) → with_unit r ≡ ok (tt, s) → r ≡ ok s
with_unit-ok (ok t) s h = ground arith
with_unit-ok (err e) s h = cc

pub exec-ok :
    (c : Conn) (f : Time → Store → Result Store) (w w' : World)
    → exec c f w ≡ (ok tt, w')
    → (f w.now w.store ≡ ok w'.store) × (w'.now ≡ w.now)
unfolding exec
exec-ok c f w w' h =
    let (e, n) = stmt-ok c (λ s. with_unit (f w.now s)) w w' tt h in
    (with_unit-ok (f w.now w.store) w'.store e, n)

pub exec-err :
    (c : Conn) (f : Time → Store → Result Store) (w w' : World) (e : Error)
    → exec c f w ≡ (err e, w')
    → (w'.store ≡ w.store) × (w'.now ≡ w.now)
unfolding exec
exec-err c f w w' e h = stmt-err c (λ s. with_unit (f w.now s)) w w' e h

module _ {A : Type 0} where
  -- A read leaves the tables alone, however it ends.
  pub query-ok :
      (c : Conn) (f : Store → A) (w w' : World) (a : A)
      → query c f w ≡ (ok a, w')
      → (f w.store ≡ a) × (w'.store ≡ w.store) × (w'.now ≡ w.now)
  unfolding query
  query-ok c f w w' a h =
      let (e, n) = stmt-ok c (λ s. ok (f s, s)) w w' a h in (ground arith, ground arith, n)

  pub query-store :
      (c : Conn) (f : Store → A) (w : World)
      → ((query c f w).1.store ≡ w.store) × ((query c f w).1.now ≡ w.now)
  unfolding query stmt
  query-store direct f w = ground arith
  query-store in_tx f w = ground arith

module _ {A : Type 0} where
  or_no_rows-ok :
      (o : Option A) (w w' : World) (a : A) → or_no_rows o w ≡ (ok a, w') → (o ≡ some a) × (w' ≡ w)
  or_no_rows-ok none w w' a h = cc
  or_no_rows-ok (some b) w w' a h = (ground arith, ground arith)

  pub query_row-ok :
      (c : Conn) (f : Store → Option A) (w w' : World) (a : A)
      → query_row c f w ≡ (ok a, w')
      → (f w.store ≡ some a) × (w'.store ≡ w.store) × (w'.now ≡ w.now)
  unfolding query_row
  query_row-ok c f w w' a h =
      let (o, w1, q, r) = continue-ok (query c f w) or_no_rows a w' h in
      let (e, s, n) = query-ok c f w w1 o q in
      let (e', s') = or_no_rows-ok o w1 w' a r in (ground arith, ground arith, ground arith)

  commit-ok :
      (w : World) (a : A) (w1 w' : World) (b : A)
      → commit w a w1 ≡ (ok b, w')
      → (w1.aborted ≡ false) × (a ≡ b) × (w'.store ≡ w1.store) × (w'.now ≡ w1.now)
  commit-ok w a w1 w' b h = ground arith

  close_tx-ok :
      (w : World) (x : Result A × World) (w' : World) (a : A)
      → close_tx w x ≡ (ok a, w')
      → (w1 : World) × (x ≡ (ok a, w1)) × (w'.store ≡ w1.store) × (w'.now ≡ w1.now)
  close_tx-ok w (ok b, w1) w' a h =
      let (_, e, s, n) = commit-ok w b w1 w' a h in (w1, ground arith, s, n)
  close_tx-ok w (err e, w1) w' a h = cc

  -- A transaction that commits has run to its end, from the tables as they stood.
  pub with_tx-ok :
      (fn : Db A) (w w' : World) (a : A)
      → with_tx fn w ≡ (ok a, w')
      → (w0 w1 : World) × (w0.store ≡ w.store)
        × (w0.now ≡ w.now)
        × (fn w0 ≡ (ok a, w1))
        × (w'.store ≡ w1.store)
        × (w'.now ≡ w1.now)
  unfolding with_tx
  with_tx-ok fn w w' a h =
      let w0 : World = record (next_outage w).1 { aborted = false } in
      let (w1, e, s, n) = close_tx-ok (next_outage w).1 (fn w0) w' a (ground arith) in
      (w0, w1, ground arith, ground arith, e, s, n)

  close_tx-err :
      (w : World) (x : Result A × World) (w' : World) (e : Error)
      → close_tx w x ≡ (err e, w')
      → w'.store ≡ record w.store { devices = w'.store.devices }
  close_tx-err w (ok b, w1) w' e h = ground arith
  close_tx-err w (err d, w1) w' e h = ground arith

  -- A transaction that fails, at whatever statement, leaves every table but the devices alone.
  pub with_tx-err :
      (fn : Db A) (w w' : World) (e : Error)
      → with_tx fn w ≡ (err e, w')
      → w'.store ≡ record w.store { devices = w'.store.devices }
  unfolding with_tx
  with_tx-err fn w w' e h =
      let w0 : World = record (next_outage w).1 { aborted = false } in
      ground (arith, close_tx-err w (fn w0) w' e, close_tx-err (next_outage w).1 (fn w0) w' e)

module _ {A : Type 0} where
  or_no_rows-world : (o : Option A) (w : World) → (or_no_rows o w).1 ≡ w
  or_no_rows-world none w = refl
  or_no_rows-world (some a) w = refl

  continue-world : (x : Result (Option A) × World) → (continue x or_no_rows).1 ≡ x.1
  continue-world (ok o, w) = or_no_rows-world o w
  continue-world (err e, w) = refl

  -- The same for a read of one row.
  pub query_row-store :
      (c : Conn) (f : Store → Option A) (w : World)
      → ((query_row c f w).1.store ≡ w.store) × ((query_row c f w).1.now ≡ w.now)
  unfolding query_row
  query_row-store c f w =
      let e = continue-world (query c f w) in
      let (s, n) = query-store c f w in (ground arith, ground arith)

-- How a sequence fails: in its first call, or in what follows it.
pub continue-err {ℓ} :
    {A B : Type 0} {P : Type ℓ} {x : Result A × World} {f : A → Db B} {e : Error} {w' : World}
    → continue x f ≡ (err e, w')
    → (x ≡ (err e, w') → P)
    → ((a : A) (w : World) → x ≡ (ok a, w) → f a w ≡ (err e, w') → P)
    → P
continue-err {x = (ok a, w)} h first later = later a w refl h
continue-err {x = (err d, w)} h first later = first (cc)
