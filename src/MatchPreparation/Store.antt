-- ===== src/MatchPreparation/Store.antt =====
-- internal/match_preparation/store.go over tables. The drills of a store call have passed the checks of the
-- handler, so no CHECK of their table can fail; the foreign keys can.
pub mod Editing
pub mod Ownership
pub mod Queue
use marco_api.Base.{
  ℕ, suc, String, Bool, true, false, Option, none, some, List, [], ◌∷◌, ◌++◌, map, ◌==◌, ◌&&◌, ◌||◌,
  not, leb, ltb, is_some, if◌then◌else◌, or_else, Uuid, Time, keep, find_first, update_where,
  count_where, order_by,
}
use marco_api.Base.Db.{
  DbError, no_rows, failed, Result, ok, err, World, Db, statement, pure, on_error, transaction,
}
use marco_api.MatchPreparation.{
  Drill, Preparation, PreparationRow, DrillRow, PreparationTables, compute_preparation_pct,
}
use marco_api.MatchPreparation.Validation.{DrillInput}

pub record CreateParams : Type 0 where
  pub user_id : Uuid
  pub scheduled_at : Time
  pub opponents : List String
  pub partner_name : Option String
  pub court : Option String
  pub note : Option String
  pub drills : List DrillInput
  pub message_id : Option Uuid

pub data PreparationError : Type 0 where
  not_found : PreparationError
  db : DbError → PreparationError

abbrev pub Prep : Type 0 → Type 0
Prep A = Db PreparationTables A

abbrev pub owned : Uuid → Uuid → PreparationRow → Bool
owned user_id id r = r.id == id && r.user_id == user_id

-- A foreign key that is NULL or names a row.
abbrev pub refers : Option Uuid → List Uuid → Bool
refers none ids = true
refers (some id) ids = is_some (find_first (λ i. i == id) ids)

abbrev pub new_row : CreateParams → Time → Uuid → PreparationRow
new_row p now id = record {
  id = id;
  user_id = p.user_id;
  match_log_id = none;
  message_id = p.message_id;
  scheduled_at = p.scheduled_at;
  played_at = none;
  opponents = p.opponents;
  partner_name = p.partner_name;
  court = p.court;
  note = p.note;
  plan_grade = none;
  created_at = now;
  updated_at = now;
}

abbrev pub with_drills : PreparationRow → List Drill → Preparation
with_drills r drills = record {
  id = r.id;
  user_id = r.user_id;
  match_log_id = r.match_log_id;
  message_id = r.message_id;
  scheduled_at = r.scheduled_at;
  played_at = r.played_at;
  opponents = r.opponents;
  partner_name = r.partner_name;
  court = r.court;
  note = r.note;
  plan_grade = r.plan_grade;
  preparation_pct = compute_preparation_pct drills;
  drills = drills;
  created_at = r.created_at;
  updated_at = r.updated_at;
}

unfoldable pub insert_preparation : CreateParams → Prep (Result DbError PreparationRow)
insert_preparation p = statement λ now id s.
    if refers p.message_id s.message_ids
    then (
      ok (new_row p now id),
      record s { preparations = s.preparations ++ new_row p now id ∷ [] },
    )
    else (err failed, s)

abbrev pub new_drill : ℕ → DrillInput → Time → Uuid → Drill
new_drill i input now id = record {
  id = id;
  position = i;
  title = input.title;
  duration_seconds = input.duration_seconds;
  completed = input.completed;
  created_at = now;
}

unfoldable pub insert_drill : Uuid → ℕ → DrillInput → Prep (Result DbError Drill)
insert_drill preparation_id i input = statement λ now id s.
    let d = new_drill i input now id in
    (
      ok d,
      record s {
        drills = s.drills ++ record { match_preparation_id = preparation_id; drill = d } ∷ [];
      },
    )

-- The loop of insertDrills, from index i on.
unfoldable pub insert_drills :
    Uuid → ℕ → List DrillInput → Prep (Result PreparationError (List Drill))
unfolding insert_drill
insert_drills preparation_id i [] = pure (ok [])
insert_drills preparation_id i (input ∷ inputs) =
    on_error (insert_drill preparation_id i input) (λ e. pure (err (db e)))
      λ d.
        on_error (insert_drills preparation_id (suc i) inputs) (λ e. pure (err e))
          λ drills. pure (ok (d ∷ drills))

unfoldable pub create_body : CreateParams → Prep (Result PreparationError Preparation)
unfolding insert_preparation insert_drills
create_body p =
    on_error (insert_preparation p) (λ e. pure (err (db e)))
      λ r.
        on_error (insert_drills r.id 0 p.drills) (λ e. pure (err e))
          λ drills. pure (ok (with_drills r drills))

unfoldable pub create : CreateParams → Prep (Result PreparationError Preparation)
unfolding create_body
create p = transaction db (create_body p)

abbrev pub before_position : Drill → Drill → Bool
before_position d e = leb d.position e.position

abbrev drill_of : DrillRow → Drill
drill_of r = r.drill

unfoldable pub drills_of : Uuid → List DrillRow → List Drill
drills_of preparation_id rows =
    map drill_of (keep (λ r. r.match_preparation_id == preparation_id) rows)

unfoldable pub list_drills : Uuid → Prep (Result DbError (List Drill))
unfolding drills_of order_by
list_drills preparation_id =
    statement λ _ _ s. (ok (order_by before_position (drills_of preparation_id s.drills)), s)

abbrev pub row_or_none : Option PreparationRow → Result DbError PreparationRow
row_or_none none = err no_rows
row_or_none (some r) = ok r

unfoldable pub to_not_found : DbError → PreparationError
to_not_found no_rows = not_found
to_not_found failed = db failed

unfoldable pub select_preparation : Uuid → Uuid → Prep (Result DbError PreparationRow)
select_preparation user_id id =
    statement λ _ _ s. (row_or_none (find_first (owned user_id id) s.preparations), s)

unfoldable pub get : Uuid → Uuid → Prep (Result PreparationError Preparation)
unfolding select_preparation list_drills to_not_found
get user_id id =
    on_error (select_preparation user_id id) (λ e. pure (err (to_not_found e)))
      λ r.
        on_error (list_drills r.id) (λ e. pure (err (db e)))
          λ drills. pure (ok (with_drills r drills))

-- ORDER BY scheduled_at DESC, created_at DESC
abbrev pub before_schedule : PreparationRow → PreparationRow → Bool
before_schedule a b =
    ltb b.scheduled_at a.scheduled_at
    || (a.scheduled_at == b.scheduled_at && leb b.created_at a.created_at)

unfoldable pub select_preparations : Uuid → Prep (Result DbError (List PreparationRow))
select_preparations user_id =
    statement
      λ _ _ s. (ok (order_by before_schedule (keep (λ r. r.user_id == user_id) s.preparations)), s)

abbrev pub among : List PreparationRow → DrillRow → Bool
among rs d = is_some (find_first (λ (r : PreparationRow). r.id == d.match_preparation_id) rs)

-- ORDER BY match_preparation_id, position
abbrev pub before_drill : DrillRow → DrillRow → Bool
before_drill d e =
    ltb d.match_preparation_id e.match_preparation_id
    || (d.match_preparation_id == e.match_preparation_id && leb d.drill.position e.drill.position)

unfoldable pub select_drills : List PreparationRow → Prep (Result DbError (List DrillRow))
select_drills rs = statement λ _ _ s. (ok (order_by before_drill (keep (among rs) s.drills)), s)

-- byPreparation[id] holds the drills of one id, in the order of the query.
unfoldable pub list : Uuid → Prep (Result DbError (List Preparation))
unfolding select_preparations select_drills drills_of
list user_id =
    on_error (select_preparations user_id) (λ e. pure (err e))
      (elim [
        | [] ↦ pure (ok [])
        | r ∷ rs ↦
            on_error (select_drills (r ∷ rs)) (λ e. pure (err e))
              λ drills. pure (ok (map (λ q. with_drills q (drills_of q.id drills)) (r ∷ rs)))
      ])
