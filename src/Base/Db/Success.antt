-- ===== src/Base/Db/Success.antt =====
-- What a success of database code says of its parts: each statement in it ran.
use marco_api.Base.{suc, [], ◌≡◌, refl, ap, arith, ◌⊎◌, inl, inr, Uuid, Time}
use marco_api.Base.Db.{
  DbError, Result, ok, err, World, Db, attempt, statement, pure, on_error, round_trip, transaction,
}

module _ {ℓ} {S A : Type ℓ} where
  -- The statement ran, at the clock and on the tables of the world before.
  pub record Ran (f : Time → Uuid → S → Result DbError A × S) (w : World S) (a : A) : Type ℓ where
    pub value : (f w.now w.next_id w.tables).0 ≡ ok a
    pub tables : (statement f w).1.tables ≡ (f w.now w.next_id w.tables).1
    pub now : (statement f w).1.now ≡ w.now
    pub next_id : (statement f w).1.next_id ≡ suc w.next_id

  pub statement-Ran :
      (f : Time → Uuid → S → Result DbError A × S) (w : World S) (a : A)
      → (statement f w).0 ≡ ok a
      → Ran f w a
  unfolding statement attempt
  statement-Ran f w a h = record {
    value = ground arith;
    tables = ground arith;
    now = ground arith;
    next_id = ground arith;
  }

  -- With no fault ahead a statement runs.
  pub statement_runs :
      (f : Time → Uuid → S → Result DbError A × S) (w : World S)
      → w.faults ≡ []
      → statement f w ≡ (
        (f w.now w.next_id w.tables).0,
        record w { tables = (f w.now w.next_id w.tables).1; next_id = suc w.next_id },
      )
  unfolding statement attempt
  statement_runs f w h = ground arith

module _ {ℓ} {S A B E F : Type ℓ} where
  pub on_error_ok :
      (m : Db S (Result E A)) (wrap : E → F) (go : A → Db S (Result F B)) (w : World S) (b : B)
      → (on_error m (λ e. pure (err (wrap e))) go w).0 ≡ ok b
      → (a : A) × ((m w).0 ≡ ok a) × (on_error m (λ e. pure (err (wrap e))) go w ≡ go a (m w).1)
  unfolding on_error pure
  on_error_ok m wrap go w b h = ground arith

module _ {ℓ} {S A B E : Type ℓ} where
  -- A call that answers.
  pub on_error_runs :
      (m : Db S (Result E A)) (bad : E → Db S B) (go : A → Db S B) (w v : World S) (a : A)
      → m w ≡ (ok a, v)
      → on_error m bad go w ≡ go a v
  unfolding on_error
  on_error_runs m bad go w v a h = rw (h, on_error) (ap (λ x. go a x.1) h)

  -- The two ways that a call with an error branch can go.
  pub on_error_cases :
      (m : Db S (Result E A)) (bad : E → Db S B) (go : A → Db S B) (w : World S)
      → ((e : E) × ((m w).0 ≡ err e) × (on_error m bad go w ≡ bad e (m w).1))
        ⊎ ((a : A) × ((m w).0 ≡ ok a) × (on_error m bad go w ≡ go a (m w).1))
  unfolding on_error
  on_error_cases m bad go w = with_result (m w) refl
    where
      with_result :
          (r : Result E A × World S)
          → m w ≡ r
          → ((e : E) × ((m w).0 ≡ err e) × (on_error m bad go w ≡ bad e (m w).1))
            ⊎ ((a : A) × ((m w).0 ≡ ok a) × (on_error m bad go w ≡ go a (m w).1))
      with_result (ok a, v) h = inr (a, ap (λ x. x.0) h, rw (h, on_error) (ap (λ x. go a x.1) h))
      with_result (err e, v) h = inl (e, ap (λ x. x.0) h, rw (h, on_error) (ap (λ x. bad e x.1) h))

module _ {ℓ} {S A E : Type ℓ} (wrap : DbError → E) where
  pub transaction_ok :
      (body : Db S (Result E A)) (w : World S) (a : A)
      → (transaction wrap body w).0 ≡ ok a
      → (v : World S) × (v.tables ≡ w.tables)
        × (v.now ≡ w.now)
        × (v.next_id ≡ suc w.next_id)
        × ((body v).0 ≡ ok a)
        × ((transaction wrap body w).1.tables ≡ (body v).1.tables)
  unfolding transaction attempt
  transaction_ok body w a h =
      ((round_trip w).1, ground arith, ground arith, ground arith, ground arith, ground arith)
