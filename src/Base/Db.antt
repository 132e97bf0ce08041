-- ===== src/Base/Db.antt =====
-- Postgres as the Go code meets it: a statement reads and changes the tables, may use NOW() and a
-- fresh UUID, and may fail, which leaves the tables as they were. The schedule `faults` says which
-- statements fail. Within one request NOW() and time.Now() are one instant.
pub mod Keeps
pub mod Success
use Prim.Native.Nat.{suc}
use mathlib.Core.Path.{◌≡◌, refl}
use mathlib.Core.Bool.{Bool, true, false}
use mathlib.Core.List.{List, [], ◌∷◌}
use marco_api.Base.Ids.{Uuid, Time}

-- pgx.ErrNoRows, or any other error of the driver.
pub data DbError : Type 0 where
  no_rows failed : DbError

pub data Result {ℓ κ} (E : Type ℓ) (A : Type κ) : Type (ℓ ⊔ κ) where
  ok : A → Result E A
  err : E → Result E A

-- `a, err := r; if err != nil { return err }`, where r is computed without the database.
unfoldable pub and_then {ℓ κ} :
    {E A : Type ℓ} {B : Type κ} → Result E A → (A → Result E B) → Result E B
and_then (err e) f = err e
and_then (ok a) f = f a

pub record World {ℓ} (S : Type ℓ) : Type ℓ where
  pub tables : S
  pub now : Time
  pub next_id : Uuid
  pub faults : List Bool

abbrev pub Db {ℓ κ} : Type ℓ → Type κ → Type (ℓ ⊔ κ)
Db S A = World S → A × World S

module _ {ℓ κ} {S : Type ℓ} {A : Type κ} where
  unfoldable pub attempt : Bool → (Time → Uuid → S → Result DbError A × S) → Db S (Result DbError A)
  attempt true f w = (err failed, w)
  attempt false f w =
      let (r, s) = f w.now w.next_id w.tables in
      (r, record w { tables = s; next_id = suc w.next_id })

  unfoldable pub statement : (Time → Uuid → S → Result DbError A × S) → Db S (Result DbError A)
  unfolding attempt
  statement f w = elim w.faults [
    | [] ↦ attempt false f w
    | fault ∷ rest ↦ attempt fault f (record w { faults = rest })
  ]

  unfoldable pub pure : A → Db S A
  pure a w = (a, w)

module _ {ℓ κ} {S A B : Type ℓ} {E : Type κ} where
  -- A call whose error is handled by its own branch: `a, err := m; if err != nil { … }`.
  unfoldable pub on_error : Db S (Result E A) → (E → Db S B) → (A → Db S B) → Db S B
  on_error m failed_with go w =
      let (r, w') = m w in elim r [ ok a ↦ go a w' | err e ↦ failed_with e w' ]

module _ {ℓ} {S A B : Type ℓ} where
  -- A call whose result is used on every branch, errors included.
  infixl 5 ◌>>=◌
  unfoldable pub ◌>>=◌ : Db S A → (A → Db S B) → Db S B
  ◌>>=◌ m f w = let (a, w') = m w in f a w'

module _ {ℓ} {S : Type ℓ} where
  -- tx.Begin and tx.Commit touch no row.
  unfoldable pub round_trip : Db S (Result DbError (Unit {ℓ}))
  unfolding statement
  round_trip = statement (λ _ _ s. (ok tt, s))

  -- The deferred tx.Rollback gives back the tables that the transaction began with. A failed
  -- commit rolls back as well.
  unfoldable pub rollback : World S → World S → World S
  rollback start w = record start { faults = w.faults }

module _ {ℓ} {S A : Type ℓ} {E : Type ℓ} (wrap : DbError → E) where
  unfoldable pub settle : World S → Result E A → Db S (Result E A)
  unfolding rollback round_trip
  settle start (err e) w = (err e, rollback start w)
  settle start (ok a) w =
      let (r, w') = round_trip w in
      elim r [ ok _ ↦ (ok a, w') | err e ↦ (err (wrap e), rollback start w') ]

  unfoldable pub transaction : Db S (Result E A) → Db S (Result E A)
  unfolding settle
  transaction body start =
      let (r, w) = round_trip start in
      elim r [ ok _ ↦ let (b, w') = body w in settle w b w' | err e ↦ (err (wrap e), w) ]
