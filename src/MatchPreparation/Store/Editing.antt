-- ===== src/MatchPreparation/Store/Editing.antt =====
-- internal/match_preparation/store.go: the calls that change a preparation or its queue.
use marco_api.Base.{
  ℕ, String, Bool, true, false, Option, none, some, List, ◌==◌, ◌&&◌, ◌||◌, not, is_some,
  if◌then◌else◌, or_else, Uuid, Time, keep, find_first, update_where, count_where,
}
use marco_api.Base.Db.{
  DbError, no_rows, failed, Result, ok, err, statement, pure, on_error, transaction,
}
use marco_api.MatchPreparation.{Drill, Preparation, PreparationRow, DrillRow}
use marco_api.MatchPreparation.Validation.{DrillInput}
use marco_api.MatchPreparation.Store.{
  PreparationError, not_found, db, Prep, owned, refers, with_drills, row_or_none, to_not_found,
  list_drills, insert_drills, get,
}

pub record UpdateParams : Type 0 where
  pub user_id : Uuid
  pub id : Uuid
  pub scheduled_at : Option Time
  pub opponents : Option (List String)
  pub partner_name : Option String
  pub court : Option String
  pub note : Option String
  pub match_log_id : Option Uuid
  pub clear_match : Bool
  pub plan_grade : Option String
  pub clear_grade : Bool
  pub played_at : Option Time
  pub clear_played : Bool

abbrev pub set_if {ℓ} : {A : Type ℓ} → Bool → A → A → A
set_if true new old = new
set_if false new old = old

-- The SET list of Update, with the updated_at trigger.
unfoldable pub patched_row : UpdateParams → Time → PreparationRow → PreparationRow
patched_row p now r = record r {
  scheduled_at = or_else p.scheduled_at r.scheduled_at;
  opponents = or_else p.opponents r.opponents;
  partner_name = set_if (is_some p.partner_name) p.partner_name r.partner_name;
  court = set_if (is_some p.court) p.court r.court;
  note = set_if (is_some p.note) p.note r.note;
  match_log_id = set_if (is_some p.match_log_id || p.clear_match) p.match_log_id r.match_log_id;
  plan_grade = set_if (is_some p.plan_grade || p.clear_grade) p.plan_grade r.plan_grade;
  played_at = set_if (is_some p.played_at || p.clear_played) p.played_at r.played_at;
  updated_at = now;
}

unfoldable pub update_row : UpdateParams → Prep (Result DbError PreparationRow)
unfolding patched_row
update_row p = statement λ now _ s.
    if refers p.match_log_id s.match_log_ids
      || not (is_some (find_first (owned p.user_id p.id) s.preparations))
    then (let changed = update_where (owned p.user_id p.id) (patched_row p now) s.preparations in
        (
          row_or_none (find_first (owned p.user_id p.id) changed),
          record s { preparations = changed },
        ))
    else (err failed, s)

unfoldable pub update_body : UpdateParams → Prep (Result PreparationError Preparation)
unfolding update_row list_drills to_not_found
update_body p =
    on_error (update_row p) (λ e. pure (err (to_not_found e)))
      λ r.
        on_error (list_drills r.id) (λ e. pure (err (db e)))
          λ drills. pure (ok (with_drills r drills))

unfoldable pub update : UpdateParams → Prep (Result PreparationError Preparation)
unfolding update_body
update p = transaction db (update_body p)

unfoldable pub lock_preparation : Uuid → Prep (Result DbError PreparationRow)
lock_preparation id =
    statement λ _ _ s. (row_or_none (find_first (λ r. r.id == id) s.preparations), s)

unfoldable pub delete_drills : Uuid → Prep (Result DbError (Unit {0}))
delete_drills id =
    statement λ _ _ s.
      (ok tt, record s { drills = keep (λ d. not (d.match_preparation_id == id)) s.drills })

unfoldable pub touch : Uuid → Prep (Result DbError (Unit {0}))
touch id = statement λ now _ s. (
  ok tt,
  record s {
    preparations =
        update_where (λ r. r.id == id) (λ r. record r { updated_at = now }) s.preparations;
  },
)

-- The statements of ReplaceDrills after the ownership check.
unfoldable pub rewrite_queue : Uuid → List DrillInput → Prep (Result PreparationError (Unit {0}))
unfolding delete_drills insert_drills touch
rewrite_queue id inputs =
    on_error (delete_drills id) (λ e. pure (err (db e)))
      λ _.
        on_error (insert_drills id 0 inputs) (λ e. pure (err e))
          λ _. on_error (touch id) (λ e. pure (err (db e))) λ _. pure (ok tt)

unfoldable pub replace_body :
    Uuid → Uuid → List DrillInput → Prep (Result PreparationError (Unit {0}))
unfolding lock_preparation rewrite_queue to_not_found
replace_body user_id id inputs =
    on_error (lock_preparation id) (λ e. pure (err (to_not_found e)))
      λ r. if r.user_id == user_id then rewrite_queue id inputs else pure (err not_found)

unfoldable pub replace_drills :
    Uuid → Uuid → List DrillInput → Prep (Result PreparationError Preparation)
unfolding replace_body get
replace_drills user_id id inputs =
    on_error (transaction db (replace_body user_id id inputs)) (λ e. pure (err e))
      λ _. get user_id id

-- The join with the parent that the user owns.
abbrev pub owned_drill : Uuid → Uuid → List PreparationRow → DrillRow → Bool
owned_drill user_id drill_id rows d =
    d.drill.id == drill_id && is_some (find_first (owned user_id d.match_preparation_id) rows)

abbrev pub checked_off : Bool → DrillRow → DrillRow
checked_off completed d = record d { drill = record d.drill { completed = completed } }

abbrev drill_or_none : Option DrillRow → Result DbError Drill
drill_or_none none = err no_rows
drill_or_none (some d) = ok d.drill

unfoldable pub toggle : Uuid → Uuid → Bool → Prep (Result DbError Drill)
toggle user_id drill_id completed = statement λ _ _ s.
    let hit = owned_drill user_id drill_id s.preparations in
    let changed = update_where hit (checked_off completed) s.drills in
    (drill_or_none (find_first hit changed), record s { drills = changed })

unfoldable pub set_drill_completed : Uuid → Uuid → Bool → Prep (Result PreparationError Drill)
unfolding toggle to_not_found
set_drill_completed user_id drill_id completed =
    on_error (toggle user_id drill_id completed) (λ e. pure (err (to_not_found e)))
      (λ d. pure (ok d))

-- DELETE with ON DELETE CASCADE, and the number of rows it met.
unfoldable pub delete_row : Uuid → Uuid → Prep (Result DbError ℕ)
delete_row user_id id = statement λ _ _ s.
    let met = count_where (owned user_id id) s.preparations in
    (
      ok met,
      record s {
        preparations = keep (λ r. not (owned user_id id r)) s.preparations;
        drills =
            if met == 0 then s.drills else keep (λ d. not (d.match_preparation_id == id)) s.drills;
      },
    )

unfoldable pub delete : Uuid → Uuid → Prep (Result PreparationError (Unit {0}))
unfolding delete_row
delete user_id id =
    on_error (delete_row user_id id) (λ e. pure (err (db e)))
      λ met. pure (if met == 0 then err not_found else ok tt)
