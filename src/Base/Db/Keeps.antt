-- ===== src/Base/Db/Keeps.antt =====
-- Invariants of database code, with one rule for each way to build it, and the atomicity of a
-- transaction. An invariant speaks of the next fresh UUID and of the tables.
use Prim.Native.Nat.{suc}
use mathlib.Core.Path.{◌≡◌, refl}
use mathlib.Core.Bool.{Bool, true, false}
use mathlib.Core.List.{List, [], ◌∷◌}
use native.Mathlib.Omega.{arith}
use marco_api.Base.Ids.{Uuid, Time}
use marco_api.Base.Tests.{if◌then◌else◌}
use marco_api.Base.Db.{
  DbError, Result, ok, err, World, Db, attempt, statement, pure, on_error, ◌>>=◌, transaction,
  settle, round_trip, rollback,
}

abbrev pub Holds {ℓ} : {S : Type ℓ} → (Uuid → S → Type ℓ) → World S → Type ℓ
Holds I w = I w.next_id w.tables

-- The code keeps the invariant, whichever of its statements fail.
pub record Keeps {ℓ} {S A : Type ℓ} (I : Uuid → S → Type ℓ) (m : Db S A) : Type ℓ where
  pub after : (w : World S) → Holds I w → Holds I (m w).1

module _ {ℓ} {S A : Type ℓ} {I : Uuid → S → Type ℓ} where
  pub Keeps-pure : (a : A) → Keeps I (pure a)
  unfolding pure
  Keeps-pure a = record { after = λ w h. h }

  pub Keeps-if :
      (b : Bool) (m n : Db S A)
      → (b ≡ true → Keeps I m)
      → (b ≡ false → Keeps I n)
      → Keeps I (if b then m else n)
  Keeps-if true m n km kn = km refl
  Keeps-if false m n km kn = kn refl

  attempt-Keeps :
      (fault : Bool) (f : Time → Uuid → S → Result DbError A × S)
      → ((now : Time) (id : Uuid) (s : S) → I id s → I (suc id) (f now id s).1)
      → (w : World S) → Holds I w
      → Holds I (attempt fault f w).1
  unfolding attempt
  attempt-Keeps true f k w h = h
  attempt-Keeps false f k w h = k w.now w.next_id w.tables h

  statement-Keeps :
      (f : Time → Uuid → S → Result DbError A × S)
      → ((now : Time) (id : Uuid) (s : S) → I id s → I (suc id) (f now id s).1)
      → (w : World S) (faults : List Bool) → faults ≡ w.faults
      → Holds I w
      → Holds I (statement f w).1
  unfolding statement
  statement-Keeps f k w [] e h = rw (← e) (attempt-Keeps false f k w h)
  statement-Keeps f k w (b ∷ bs) e h = rw (← e) (attempt-Keeps b f k (record w { faults = bs }) h)

  pub Keeps-statement :
      (f : Time → Uuid → S → Result DbError A × S)
      → ((now : Time) (id : Uuid) (s : S) → I id s → I (suc id) (f now id s).1)
      → Keeps I (statement f)
  Keeps-statement f k = record { after = λ w h. statement-Keeps f k w w.faults refl h }

module _ {ℓ} {S A B E : Type ℓ} {I : Uuid → S → Type ℓ} where
  on_error-Keeps :
      (r : Result E A) (bad : E → Db S B) (go : A → Db S B)
      → ((e : E) → Keeps I (bad e))
      → ((a : A) → Keeps I (go a))
      → (w : World S) → Holds I w
      → Holds I (on_error (pure r) bad go w).1
  unfolding on_error pure
  on_error-Keeps (ok a) bad go kb kg w h = (kg a).after w h
  on_error-Keeps (err e) bad go kb kg w h = (kb e).after w h

  pub Keeps-on_error :
      (m : Db S (Result E A)) (bad : E → Db S B) (go : A → Db S B)
      → Keeps I m
      → ((e : E) → Keeps I (bad e))
      → ((a : A) → Keeps I (go a))
      → Keeps I (on_error m bad go)
  unfolding on_error pure
  Keeps-on_error m bad go km kb kg = record {
    after = λ w h. let (r, w') = m w in on_error-Keeps r bad go kb kg w' (km.after w h);
  }

module _ {ℓ} {S A B : Type ℓ} {I : Uuid → S → Type ℓ} where
  pub Keeps-bind :
      (m : Db S A) (f : A → Db S B) → Keeps I m → ((a : A) → Keeps I (f a)) → Keeps I (m >>= f)
  unfolding ◌>>=◌
  Keeps-bind m f km kf = record {
    after = λ w h. let (a, w') = m w in (kf a).after w' (km.after w h);
  }

module _ {ℓ} {S A E : Type ℓ} (wrap : DbError → E) where
  -- A transaction that fails leaves every table as it was.
  pub transaction_atomic :
      (body : Db S (Result E A)) (w : World S) {e : E}
      → (transaction wrap body w).0 ≡ err e
      → (transaction wrap body w).1.tables ≡ w.tables
  unfolding transaction attempt
  transaction_atomic body w h = ground arith

module _ {ℓ} {S : Type ℓ} {I : Uuid → S → Type ℓ} where
  round_trip-Keeps : ((id : Uuid) (s : S) → I id s → I (suc id) s) → Keeps I round_trip
  unfolding round_trip
  round_trip-Keeps fresh = Keeps-statement (λ _ _ s. (ok tt, s)) (λ _ id s h. fresh id s h)

module _ {ℓ} {S A E : Type ℓ} {I : Uuid → S → Type ℓ} (wrap : DbError → E)
    (fresh : (id : Uuid) (s : S) → I id s → I (suc id) s) where
  commit-Keeps :
      (start w : World S) (a : A) (r : Result DbError (Unit {ℓ}))
      → Holds I start
      → Holds I w
      → Holds I
          (elim r as (λ _. Result E A × World S) [
            | ok _ ↦ (ok a, w)
            | err e ↦ (err (wrap e), rollback start w)
          ]).1
  unfolding rollback
  commit-Keeps start w a (ok _) hs h = h
  commit-Keeps start w a (err e) hs h = hs

  settle-Keeps :
      (start : World S) (r : Result E A) (w : World S)
      → Holds I start
      → Holds I w
      → Holds I (settle wrap start r w).1
  unfolding settle rollback
  settle-Keeps start (err e) w hs h = hs
  settle-Keeps start (ok a) w hs h =
      let (r, w') = round_trip w in
      commit-Keeps start w' a r hs ((round_trip-Keeps fresh).after w h)

  begin-Keeps :
      (body : Db S (Result E A)) (w : World S) (r : Result DbError (Unit {ℓ}))
      → Keeps I body
      → Holds I w
      → Holds I
          (elim r as (λ _. Result E A × World S) [
            | ok _ ↦ let (b, w') = body w in settle wrap w b w'
            | err e ↦ (err (wrap e), w)
          ]).1
  begin-Keeps body w (ok _) k h = let (b, w') = body w in settle-Keeps w b w' h (k.after w h)
  begin-Keeps body w (err e) k h = h

  pub Keeps-transaction :
      (body : Db S (Result E A)) → Keeps I body → Keeps I (transaction wrap body)
  unfolding transaction
  Keeps-transaction body k = record {
    after = λ w h.
        let (r, w') = round_trip w in begin-Keeps body w' r k ((round_trip-Keeps fresh).after w h);
  }

pub ruleset keeps_rules = (Keeps-pure, Keeps-if, Keeps-on_error, Keeps-bind)
