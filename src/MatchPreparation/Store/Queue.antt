-- ===== src/MatchPreparation/Store/Queue.antt =====
-- Create and Get of internal/match_preparation/store.go: what is stored is what is read.
use marco_api.Base.{
  ℕ, suc, ◌<◌, ◌≡◌, refl, ap, sym, ◌∙◌, arith, true, some, List, [], ◌∷◌, ◌++◌, map, All, Uuid,
  Time, keep, find_first, order_by, insert_in,
}
use mathlib.Core.List.{append-nil, append_assoc}
use marco_api.Base.Db.{
  ok, err, World, attempt, statement, pure, on_error, transaction, settle, round_trip,
}
use marco_api.Base.Db.Success.{on_error_runs}
use marco_api.MatchPreparation.{Drill, Preparation, PreparationRow, DrillRow, PreparationTables}
use marco_api.MatchPreparation.Validation.{DrillInput}
use marco_api.MatchPreparation.Store.{
  CreateParams, owned, refers, new_row, with_drills, new_drill, insert_preparation, insert_drill,
  insert_drills, create_body, create, before_position, drills_of, list_drills, select_preparation,
  get, row_or_none, db, to_not_found,
}

-- A world in which every statement runs.
abbrev pub fair : PreparationTables → Time → Uuid → World PreparationTables
fair s t n = record { tables = s; now = t; next_id = n; faults = [] }

-- The drills of the inputs, from a position and a fresh id on.
abbrev queue : ℕ → Time → Uuid → List DrillInput → List Drill
queue i t n [] = []
queue i t n (input ∷ inputs) = new_drill i input t n ∷ queue (suc i) t (suc n) inputs

abbrev row_of : Uuid → Drill → DrillRow
row_of id d = record { match_preparation_id = id; drill = d }

abbrev next_after : Uuid → List DrillInput → Uuid
next_after n [] = n
next_after n (_ ∷ inputs) = next_after (suc n) inputs

insert_drills-queue :
    (id i : ℕ) (inputs : List DrillInput) (s : PreparationTables) (t : Time) (n : Uuid)
    → insert_drills id i inputs (fair s t n) ≡ (
      ok (queue i t n inputs),
      fair
          (record s { drills = s.drills ++ map (row_of id) (queue i t n inputs) })
          t
          (next_after n inputs),
    )
unfolding insert_drills insert_drill statement attempt on_error pure
insert_drills-queue id i [] s t n =
    ap (λ l. (ok [], fair (record s { drills = l }) t n)) (sym (append-nil s.drills))
insert_drills-queue id i (input ∷ inputs) s t n =
    let one = row_of id (new_drill i input t n) in
    let more = map (row_of id) (queue (suc i) t (suc n) inputs) in
    on_error_runs (insert_drills id (suc i) inputs) (λ e. pure (err e))
      (λ drills. pure (ok (new_drill i input t n ∷ drills))) _ _ _
      (insert_drills-queue id (suc i) inputs (record s { drills = s.drills ++ one ∷ [] }) t (suc n))
    ∙ ap
        (λ l. (
          ok (queue i t n (input ∷ inputs)),
          fair (record s { drills = l }) t (next_after (suc n) inputs),
        ))
        (append_assoc s.drills (one ∷ []) more)

insert_in-head :
    (d e : Drill) (ds : List Drill)
    → before_position d e ≡ true
    → insert_in before_position d (e ∷ ds) ≡ d ∷ e ∷ ds
unfolding insert_in
insert_in-head d e ds h = ground arith

order_by-queue :
    (i : ℕ) (t : Time) (n : Uuid) (inputs : List DrillInput)
    → order_by before_position (queue i t n inputs) ≡ queue i t n inputs
unfolding order_by
order_by-queue i t n [] = refl
order_by-queue i t n (input ∷ []) = refl
order_by-queue i t n (input ∷ next ∷ inputs) =
    ap (insert_in before_position (new_drill i input t n))
      (order_by-queue (suc i) t (suc n) (next ∷ inputs))
    ∙ insert_in-head (new_drill i input t n) (new_drill (suc i) next t (suc n)) _ (ground arith)

drills_of-fresh :
    (id : Uuid) (rows : List DrillRow) (ds : List Drill)
    → All (λ (d : DrillRow). d.match_preparation_id < id) rows
    → drills_of id (rows ++ map (row_of id) ds) ≡ ds
unfolding drills_of keep
drills_of-fresh id [] [] h = refl
drills_of-fresh id [] (d ∷ ds) h = let rest = drills_of-fresh id [] ds tt in ground arith
drills_of-fresh id (r ∷ rows) ds (lt, h) = let rest = drills_of-fresh id rows ds h in ground arith

find_first-fresh :
    (user_id id : Uuid) (r : PreparationRow) (rows : List PreparationRow)
    → All (λ (x : PreparationRow). x.id < id) rows
    → r.id ≡ id
    → r.user_id ≡ user_id
    → find_first (owned user_id id) (rows ++ r ∷ []) ≡ some r
unfolding find_first
find_first-fresh user_id id r [] h e u = ground arith
find_first-fresh user_id id r (x ∷ rows) (lt, h) e u =
    let rest = find_first-fresh user_id id r rows h e u in ground arith

-- What Create stores.
stored : CreateParams → PreparationTables → Time → Uuid → PreparationTables
stored p s t n = record s {
  preparations = s.preparations ++ new_row p t n ∷ [];
  drills = s.drills ++ map (row_of n) (queue 0 t (suc n) p.drills);
}

created : CreateParams → Time → Uuid → Preparation
created p t n = with_drills (new_row p t n) (queue 0 t (suc n) p.drills)

insert_preparation-row :
    (p : CreateParams) (s : PreparationTables) (t : Time) (n : Uuid)
    → refers p.message_id s.message_ids ≡ true
    → insert_preparation p (fair s t n) ≡ (
      ok (new_row p t n),
      fair (record s { preparations = s.preparations ++ new_row p t n ∷ [] }) t (suc n),
    )
unfolding insert_preparation statement attempt
insert_preparation-row p s t n h = ground arith

create_body-stored :
    (p : CreateParams) (s : PreparationTables) (t : Time) (n : Uuid)
    → refers p.message_id s.message_ids ≡ true
    → create_body p (fair s t n)
      ≡ (ok (created p t n), fair (stored p s t n) t (next_after (suc n) p.drills))
unfolding create_body created stored pure
create_body-stored p s t n h =
    on_error_runs (insert_preparation p) (λ e. pure (err (db e)))
      (λ r.
        on_error (insert_drills r.id 0 p.drills) (λ e. pure (err e))
          λ drills. pure (ok (with_drills r drills)))
      _ _ _ (insert_preparation-row p s t n h)
    ∙ on_error_runs (insert_drills n 0 p.drills) (λ e. pure (err e))
        (λ drills. pure (ok (with_drills (new_row p t n) drills))) _ _ _
        (insert_drills-queue n 0 p.drills
          (record s { preparations = s.preparations ++ new_row p t n ∷ [] }) t (suc n))

create-stored :
    (p : CreateParams) (s : PreparationTables) (t : Time) (n : Uuid)
    → refers p.message_id s.message_ids ≡ true
    → create p (fair s t n) ≡ (
      ok (created p t (suc n)),
      fair (stored p s t (suc n)) t (suc (next_after (suc (suc n)) p.drills)),
    )
unfolding create transaction round_trip statement attempt settle
create-stored p s t n h =
    ap (λ x. settle db (fair s t (suc n)) x.0 x.1) (create_body-stored p s t (suc n) h)

-- No row has an id from n on.
pub record IsFresh (n : Uuid) (s : PreparationTables) : Type 0 where
  pub preparations : All (λ (r : PreparationRow). r.id < n) s.preparations
  pub drills : All (λ (d : DrillRow). d.match_preparation_id < n) s.drills

select-stored :
    (p : CreateParams) (s : PreparationTables) (t : Time) (n m : Uuid)
    → IsFresh n s
    → select_preparation p.user_id n (fair (stored p s t n) t m)
      ≡ (ok (new_row p t n), fair (stored p s t n) t (suc m))
unfolding select_preparation statement attempt stored
select-stored p s t n m fresh =
    ap (λ r. (row_or_none r, fair (stored p s t n) t (suc m)))
      (find_first-fresh p.user_id n (new_row p t n) s.preparations fresh.preparations refl refl)

list_drills-stored :
    (p : CreateParams) (s : PreparationTables) (t : Time) (n m : Uuid)
    → IsFresh n s
    → list_drills n (fair (stored p s t n) t m)
      ≡ (ok (queue 0 t (suc n) p.drills), fair (stored p s t n) t (suc m))
unfolding list_drills statement attempt stored
list_drills-stored p s t n m fresh =
    ap (λ ds. (ok (order_by before_position ds), fair (stored p s t n) t (suc m)))
      (drills_of-fresh n s.drills (queue 0 t (suc n) p.drills) fresh.drills)
    ∙ ap (λ ds. (ok ds, fair (stored p s t n) t (suc m))) (order_by-queue 0 t (suc n) p.drills)

get-stored :
    (p : CreateParams) (s : PreparationTables) (t : Time) (n m : Uuid)
    → IsFresh n s
    → get p.user_id n (fair (stored p s t n) t m)
      ≡ (ok (created p t n), fair (stored p s t n) t (suc (suc m)))
unfolding get created pure
get-stored p s t n m fresh =
    on_error_runs (select_preparation p.user_id n) (λ e. pure (err (to_not_found e)))
      (λ r.
        on_error (list_drills r.id) (λ e. pure (err (db e)))
          λ drills. pure (ok (with_drills r drills)))
      _ _ _ (select-stored p s t n m fresh)
    ∙ on_error_runs (list_drills n) (λ e. pure (err (db e)))
        (λ drills. pure (ok (with_drills (new_row p t n) drills))) _ _ _
        (list_drills-stored p s t n (suc m) fresh)

abbrev pub input_of : Drill → DrillInput
input_of d = record {
  title = d.title;
  duration_seconds = d.duration_seconds;
  completed = d.completed;
}

inputs-queue :
    (i : ℕ) (t : Time) (n : Uuid) (inputs : List DrillInput)
    → map input_of (queue i t n inputs) ≡ inputs
inputs-queue i t n [] = refl
inputs-queue i t n (input ∷ inputs) = ap (λ l. input ∷ l) (inputs-queue (suc i) t (suc n) inputs)

-- Where no statement fails, no row has an id from the next fresh one on, and the message that the preparation
-- refers to is there: Create answers a preparation with the drills that it was given, in their order, and Get
-- then answers the same preparation.
pub create-get :
    (p : CreateParams) (s : PreparationTables) (t : Time) (n : Uuid)
    → refers p.message_id s.message_ids ≡ true
    → IsFresh (suc n) s
    → (r : Preparation) × ((create p (fair s t n)).0 ≡ ok r)
      × ((get p.user_id r.id (create p (fair s t n)).1).0 ≡ ok r)
      × (map input_of r.drills ≡ p.drills)
unfolding created
create-get p s t n h fresh =
    let made = create-stored p s t n h in
    (
      created p t (suc n),
      ap (λ x. x.0) made,
      ap (λ x. (get p.user_id (suc n) x.1).0) made
          ∙ ap (λ x. x.0)
              (get-stored p s t (suc n) (suc (next_after (suc (suc n)) p.drills)) fresh),
      inputs-queue 0 t (suc (suc n)) p.drills,
    )
