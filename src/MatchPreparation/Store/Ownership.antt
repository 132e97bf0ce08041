-- ===== src/MatchPreparation/Store/Ownership.antt =====
-- What the calls of internal/match_preparation/store.go that change rows leave alone.
use marco_api.Base.{
  ℕ, suc, ◌≡◌, refl, ap, sym, ◌∙◌, arith, Bool, true, false, none, some, List, [], ◌∷◌, ◌==◌, not,
  if◌then◌else◌, Uuid, keep, keep-keep, find_first, update_where, Bool-cases, inl, inr, ==_iff,
}
use mathlib.Core.Path.{subst⁻¹}
use marco_api.Base.Rows.{
  keep-update_where, keep-add, find_first-keep, update_where-none, keep-none, count_where-none,
}
use marco_api.Base.Db.{err, World, statement, pure}
use marco_api.Base.Db.Keeps.{
  Keeps, Holds, Keeps-pure, Keeps-if, Keeps-statement, Keeps-on_error, Keeps-transaction,
}
use marco_api.Base.Db.Success.{on_error_cases, statement-Ran}
use marco_api.MatchPreparation.{PreparationRow, DrillRow, PreparationTables}
use marco_api.MatchPreparation.Validation.{DrillInput}
use marco_api.MatchPreparation.Store.{
  row_or_none, not_found, owned, insert_drills, insert_drill, list_drills, to_not_found, get,
  select_preparation,
}
use marco_api.MatchPreparation.Store.Editing.{
  UpdateParams, update, update_row, update_body, patched_row, replace_drills, replace_body,
  rewrite_queue, delete_drills, touch, lock_preparation, toggle, set_drill_completed, checked_off,
  owned_drill, delete, delete_row,
}

-- The preparation k is the row r, alone, and its queue is D.
abbrev pub Stays : Uuid → PreparationRow → List DrillRow → Uuid → PreparationTables → Type 0
Stays k r D _ s =
    (keep (λ x. x.id == k) s.preparations ≡ r ∷ [])
    × (keep (λ d. d.match_preparation_id == k) s.drills ≡ D)

module _ (k user_id : Uuid) (r : PreparationRow) (D : List DrillRow)
    (other : (r.user_id == user_id) ≡ false) where
  -- No row of the user has the id k.
  stranger :
      (rows : List PreparationRow)
      → keep (λ x. x.id == k) rows ≡ r ∷ []
      → find_first (owned user_id k) rows ≡ none
  unfolding find_first
  stranger rows h =
      let e = find_first-keep (λ x. x.id == k) (owned user_id k) (λ x g. ground arith) rows in
      rw (e, h) (ground arith)

  -- An UPDATE of the user's rows.
  update-elsewhere :
      (id : Uuid) (f : PreparationRow → PreparationRow)
      → ((x : PreparationRow) → ((f x).id == k) ≡ (x.id == k))
      → (rows : List PreparationRow) → keep (λ x. x.id == k) rows ≡ r ∷ []
      → keep (λ x. x.id == k) (update_where (owned user_id id) f rows) ≡ r ∷ []
  update-elsewhere id f same rows h = elim (Bool-cases (id == k)) [
    | inl e ↦
        let gone = update_where-none (owned user_id k) f rows (stranger rows h) in
        rw ((==_iff id k).0 e, gone) h
    | inr e ↦
        keep-update_where (λ x. x.id == k) (owned user_id id) f (λ x hit. ground arith) same rows
        ∙ h
  ]

  get-Stays : (id : Uuid) → Keeps (Stays k r D) (get user_id id)
  unfolding get select_preparation list_drills
  get-Stays id =
      Keeps-on_error _ _ _ (Keeps-statement _ (λ now n s h. h)) (λ e. Keeps-pure _)
        λ q.
          Keeps-on_error _ _ _ (Keeps-statement _ (λ now n s h. h)) (λ e. Keeps-pure _)
            (λ d. Keeps-pure _)

  same_owner :
      (q : PreparationRow)
      → some q ≡ find_first (λ x. x.id == k) (r ∷ [])
      → (q.user_id == user_id) ≡ false
  unfolding find_first
  same_owner q h = ground arith

  not_theirs :
      (id : Uuid) (d : DrillRow) (rows : List PreparationRow)
      → keep (λ x. x.id == k) rows ≡ r ∷ []
      → owned_drill user_id id rows d ≡ true
      → (d.match_preparation_id == k) ≡ false
  not_theirs id d rows h hit = elim (Bool-cases (d.match_preparation_id == k)) [
    | inl e ↦
        let none_found = stranger rows h in
        let same = (==_iff d.match_preparation_id k).0 e in ground arith
    | inr e ↦ e
  ]

  insert_drills-Stays :
      (id i : ℕ) (inputs : List DrillInput)
      → (id == k) ≡ false
      → Keeps (Stays k r D) (insert_drills id i inputs)
  unfolding insert_drills insert_drill
  insert_drills-Stays id i [] e = Keeps-pure _
  insert_drills-Stays id i (input ∷ inputs) e =
      Keeps-on_error _ _ _
        (Keeps-statement _
          (λ now n s h. (h.0, keep-add (λ d. d.match_preparation_id == k) _ e s.drills ∙ h.1)))
        (λ _. Keeps-pure _)
        λ d.
          Keeps-on_error _ _ _ (insert_drills-Stays id (suc i) inputs e) (λ _. Keeps-pure _)
            (λ _. Keeps-pure _)

  rewrite_queue-Stays :
      (id : ℕ) (inputs : List DrillInput)
      → (id == k) ≡ false
      → Keeps (Stays k r D) (rewrite_queue id inputs)
  unfolding rewrite_queue delete_drills touch
  rewrite_queue-Stays id inputs e =
      Keeps-on_error _ _ _
        (Keeps-statement _ (λ now n s h. (
          h.0,
          keep-keep (λ d. d.match_preparation_id == k) _ (λ d hit. ground arith) s.drills ∙ h.1,
        )))
        (λ _. Keeps-pure _)
        λ _.
          Keeps-on_error _ _ _ (insert_drills-Stays id 0 inputs e) (λ _. Keeps-pure _)
            λ _.
              Keeps-on_error _ _ _
                (Keeps-statement _ (λ now n s h. (
                  keep-update_where (λ x. x.id == k) (λ x. x.id == id) _ (λ x hit. ground arith)
                        (λ x. refl) s.preparations
                      ∙ h.0,
                  h.1,
                )))
                (λ _. Keeps-pure _) (λ _. Keeps-pure _)

  -- The row k, if it is found by its id, is not the user's.
  lock-stranger :
      (rows : List PreparationRow) (q : PreparationRow)
      → keep (λ x. x.id == k) rows ≡ r ∷ []
      → find_first (λ x. x.id == k) rows ≡ some q
      → (q.user_id == user_id) ≡ false
  unfolding find_first
  lock-stranger rows q h found =
      let e = find_first-keep (λ x. x.id == k) (λ x. x.id == k) (λ x g. g) rows in
      let one = ap (find_first (λ x. x.id == k)) h in same_owner q (sym found ∙ e ∙ one)

  lock-Stays : (id : Uuid) → Keeps (Stays k r D) (lock_preparation id)
  unfolding lock_preparation
  lock-Stays id = Keeps-statement _ (λ now n s h. h)

  -- ReplaceDrills at k itself stops at the ownership check.
  locked_out :
      (inputs : List DrillInput) (w : World PreparationTables)
      → Holds (Stays k r D) w
      → Holds (Stays k r D) (replace_body user_id k inputs w).1
  unfolding replace_body lock_preparation pure statement
  locked_out inputs w h =
      let look = lock_preparation k in
      let kept = (lock-Stays k).after w h in
      let go = λ (q : PreparationRow).
        if q.user_id == user_id then rewrite_queue k inputs else pure (err not_found) in
      elim (on_error_cases look (λ e. pure (err (to_not_found e))) go w) [
        | inl (e, _, eq) ↦ subst⁻¹ (λ x. Holds (Stays k r D) x.1) eq kept
        | inr (q, found, eq) ↦
            let row =
              (statement-Ran
                (λ _ _ s. (row_or_none (find_first (λ r. r.id == k) s.preparations), s)) w q
                found).value in
            let foreign = lock-stranger w.tables.preparations q h.0 (ground arith) in
            let stop =
              ap (λ b. (if b then rewrite_queue k inputs else pure (err not_found)) (look w).1)
                foreign in
            subst⁻¹ (λ x. Holds (Stays k r D) x.1) (eq ∙ stop) kept
      ]

  replace_body-Stays :
      (id : Uuid) (inputs : List DrillInput) → Keeps (Stays k r D) (replace_body user_id id inputs)
  unfolding replace_body
  replace_body-Stays id inputs = elim (Bool-cases (id == k)) [
    | inl e ↦ rw ((==_iff id k).0 e) (record { after = locked_out inputs })
    | inr e ↦
        Keeps-on_error _ _ _ (lock-Stays id) (λ _. Keeps-pure _)
          λ q.
            Keeps-if (q.user_id == user_id) _ _ (λ _. rewrite_queue-Stays id inputs e)
              (λ _. Keeps-pure _)
  ]

  replace-Stays :
      (id : Uuid) (inputs : List DrillInput)
      → Keeps (Stays k r D) (replace_drills user_id id inputs)
  unfolding replace_drills
  replace-Stays id inputs =
      Keeps-on_error _ _ _ (Keeps-transaction _ (λ n s h. h) _ (replace_body-Stays id inputs))
        (λ _. Keeps-pure _) (λ _. get-Stays id)

  toggle-Stays :
      (id : Uuid) (completed : Bool)
      → Keeps (Stays k r D) (set_drill_completed user_id id completed)
  unfolding set_drill_completed toggle
  toggle-Stays id completed =
      Keeps-on_error _ _ _
        (Keeps-statement _ (λ now n s h. (
          h.0,
          keep-update_where (λ d. d.match_preparation_id == k) _ (checked_off completed)
                (λ d hit. not_theirs id d s.preparations h.0 hit) (λ d. refl) s.drills
              ∙ h.1,
        )))
        (λ _. Keeps-pure _) (λ _. Keeps-pure _)

  delete-here : Keeps (Stays k r D) (delete user_id k)
  unfolding delete delete_row
  delete-here =
      Keeps-on_error _ _ _
        (Keeps-statement _ (λ now n s h.
          let none_found = stranger s.preparations h.0 in
          let rows = keep-none (owned user_id k) s.preparations none_found in
          let met = count_where-none (owned user_id k) s.preparations none_found in
          (ap (keep (λ x. x.id == k)) rows ∙ h.0, rw met h.1)))
        (λ _. Keeps-pure _) (λ _. Keeps-pure _)

  delete-Stays : (id : Uuid) → Keeps (Stays k r D) (delete user_id id)
  unfolding delete delete_row
  delete-Stays id = elim (Bool-cases (id == k)) [
    | inl e ↦ rw ((==_iff id k).0 e) delete-here
    | inr e ↦
        Keeps-on_error _ _ _
          (Keeps-statement _ (λ now n s h.
            let rows =
              keep-keep (λ x. x.id == k) (λ x. not (owned user_id id x)) (λ x hit. ground arith)
                s.preparations in
            let queue =
              keep-keep (λ d. d.match_preparation_id == k) (λ d. not (d.match_preparation_id == id))
                (λ d hit. ground arith) s.drills in
            (rows ∙ h.0, ground arith)))
          (λ _. Keeps-pure _) (λ _. Keeps-pure _)
  ]

module _ (k : Uuid) (p : UpdateParams) (r : PreparationRow) (D : List DrillRow)
    (other : (r.user_id == p.user_id) ≡ false) where
  update-Stays : Keeps (Stays k r D) (update p)
  unfolding update update_body update_row patched_row list_drills
  update-Stays =
      Keeps-transaction _ (λ n s h. h) _
        (Keeps-on_error _ _ _
          (Keeps-statement _ (λ now n s h.
            let e =
              update-elsewhere k p.user_id r D other p.id (patched_row p now) (λ x. refl)
                s.preparations h.0 in
            (ground arith, ground arith)))
          (λ e. Keeps-pure _)
          λ q.
            Keeps-on_error _ _ _ (Keeps-statement _ (λ now n s h. h)) (λ e. Keeps-pure _)
              (λ d. Keeps-pure _))

-- A call of the store that changes rows, and its effect on the world for a user.
pub data Edit : Type 0 where
  update_call : UpdateParams → Edit
  replace_call : Uuid → List DrillInput → Edit
  complete_call : Uuid → Bool → Edit
  delete_call : Uuid → Edit

abbrev pub run_edit : Uuid → Edit → World PreparationTables → World PreparationTables
run_edit user_id (update_call p) w = (update (record p { user_id = user_id }) w).1
run_edit user_id (replace_call id inputs) w = (replace_drills user_id id inputs w).1
run_edit user_id (complete_call id completed) w = (set_drill_completed user_id id completed w).1
run_edit user_id (delete_call id) w = (delete user_id id w).1

abbrev pub run_edits : Uuid → List Edit → World PreparationTables → World PreparationTables
run_edits user_id [] w = w
run_edits user_id (e ∷ es) w = run_edits user_id es (run_edit user_id e w)

run_edit-Stays :
    (k user_id : Uuid) (r : PreparationRow) (D : List DrillRow)
    → (r.user_id == user_id) ≡ false
    → (e : Edit) (w : World PreparationTables) → Holds (Stays k r D) w
    → Holds (Stays k r D) (run_edit user_id e w)
run_edit-Stays k user_id r D other (update_call p) w h =
    (update-Stays k (record p { user_id = user_id }) r D other).after w h
run_edit-Stays k user_id r D other (replace_call id inputs) w h =
    (replace-Stays k user_id r D other id inputs).after w h
run_edit-Stays k user_id r D other (complete_call id completed) w h =
    (toggle-Stays k user_id r D other id completed).after w h
run_edit-Stays k user_id r D other (delete_call id) w h =
    (delete-Stays k user_id r D other id).after w h

-- Whatever calls of Update, ReplaceDrills, SetDrillCompleted and Delete a user makes, in any order and
-- whichever statements fail: a preparation that is another user's, and the only one with its id, stays as it is,
-- and so do the drills of its queue.
pub run_edits-Stays :
    (k user_id : Uuid) (r : PreparationRow) (D : List DrillRow)
    → (r.user_id == user_id) ≡ false
    → (es : List Edit) (w : World PreparationTables) → Holds (Stays k r D) w
    → Holds (Stays k r D) (run_edits user_id es w)
run_edits-Stays k user_id r D other [] w h = h
run_edits-Stays k user_id r D other (e ∷ es) w h =
    run_edits-Stays k user_id r D other es (run_edit user_id e w)
      (run_edit-Stays k user_id r D other e w h)
