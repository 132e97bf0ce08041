-- ===== src/Lessons.antt =====
-- internal/lessons: the catalogue of lessons and the progress of a user in them, as model.go and store.go over
-- tables. The JSON texts that lessonSelect makes of the cues and of the drill, and that scanLesson decodes, are the
-- values themselves here.
pub mod Handler
pub mod Access
pub mod Progress
mod Tests
use marco_api.Base.{
  ℕ, String, Bool, true, false, Option, none, some, List, [], ◌∷◌, ◌++◌, map, ◌==◌, ◌&&◌, ◌||◌, ltb,
  leb, str_eq, is_some, if◌then◌else◌, Uuid, Time, keep, find_first, update_where, order_by,
}
use marco_api.Base.Db.{DbError, no_rows, failed, Result, ok, err, Db, statement}
use marco_api.Users.{User}

pub record CuePoint : Type 0 where
  pub timestamp_seconds : ℕ
  pub cue_text : String

pub record LessonDrill : Type 0 where
  pub name : String
  pub duration_minutes : ℕ
  pub is_recommended : Bool
  pub description : String

-- A row of `lessons`.
pub record LessonRow : Type 0 where
  pub id : Uuid
  pub slug : String
  pub title : String
  pub level : String
  pub order_index : ℕ
  pub tagline : Option String
  pub focus : Option String
  pub video_url : Option String
  pub thumbnail_url : Option String
  pub duration_seconds : Option ℕ
  pub common_mistake_text : Option String
  pub is_free : Bool
  pub published : Bool
  pub created_at : Time

-- A lesson as it is read: its row, its cues and its drill.
pub record Lesson : Type 0 where
  pub row : LessonRow
  pub cue_points : List CuePoint
  pub drill : Option LessonDrill

pub record LessonProgress : Type 0 where
  pub id : Uuid
  pub user_id : Uuid
  pub lesson_id : Uuid
  pub status : String
  pub updated_at : Time

-- A row of `lesson_cues`.
pub record CueRow : Type 0 where
  pub lesson_id : Uuid
  pub cue : CuePoint
  pub sort_order : ℕ

-- A row of the table `drills`.
pub record LessonDrillRow : Type 0 where
  pub lesson_id : Uuid
  pub drill : LessonDrill

pub record LessonTables : Type 0 where
  pub users : List User
  pub lessons : List LessonRow
  pub cues : List CueRow
  pub drills : List LessonDrillRow
  pub progress : List LessonProgress

abbrev before_cue : CueRow → CueRow → Bool
before_cue a b = leb a.sort_order b.sort_order

abbrev cue_of : CueRow → CuePoint
cue_of c = c.cue

abbrev drill_of_row : Option LessonDrillRow → Option LessonDrill
drill_of_row none = none
drill_of_row (some d) = some d.drill

-- One row of lessonSelect.
unfoldable pub scan_lesson : LessonTables → LessonRow → Lesson
scan_lesson s l = record {
  row = l;
  cue_points = map cue_of (order_by before_cue (keep (λ c. c.lesson_id == l.id) s.cues));
  drill = drill_of_row (find_first (λ d. d.lesson_id == l.id) s.drills);
}

-- The place of a level in the order of texts: advanced, beginner, intermediate.
abbrev level_rank : String → ℕ
level_rank level = if str_eq level "advanced" then 0 else if str_eq level "beginner" then 1 else 2

-- ORDER BY l.level, l.order_index
abbrev pub before_lesson : LessonRow → LessonRow → Bool
before_lesson a b =
    ltb (level_rank a.level) (level_rank b.level)
    || (level_rank a.level == level_rank b.level && leb a.order_index b.order_index)

abbrev pub before_index : LessonRow → LessonRow → Bool
before_index a b = leb a.order_index b.order_index

unfoldable pub list_lessons : String → Db LessonTables (Result DbError (List Lesson))
unfolding scan_lesson
list_lessons level = statement λ _ _ s. (
  ok (
      map (scan_lesson s) (
        if str_eq level ""
        then order_by before_lesson (keep (λ l. l.published) s.lessons)
        else order_by before_index (keep (λ l. l.published && str_eq l.level level) s.lessons))),
  s,
)

abbrev pub has_slug : String → LessonRow → Bool
has_slug slug l = str_eq l.slug slug && l.published

abbrev pub lesson_or_none : LessonTables → Option LessonRow → Result DbError Lesson
lesson_or_none s none = err no_rows
lesson_or_none s (some l) = ok (scan_lesson s l)

unfoldable pub get_lesson_by_slug : String → Db LessonTables (Result DbError Lesson)
unfolding scan_lesson
get_lesson_by_slug slug =
    statement λ _ _ s. (lesson_or_none s (find_first (has_slug slug) s.lessons), s)

-- The rows that the loop of ListProgressByUserID puts into its map, in their order.
unfoldable pub list_progress_by_user_id :
    Uuid → Db LessonTables (Result DbError (List LessonProgress))
list_progress_by_user_id user_id =
    statement λ _ _ s. (ok (keep (λ p. p.user_id == user_id) s.progress), s)

abbrev pub is_progress : Uuid → Uuid → LessonProgress → Bool
is_progress user_id lesson_id p = p.user_id == user_id && p.lesson_id == lesson_id

abbrev pub progress_or_none : Option LessonProgress → Result DbError LessonProgress
progress_or_none none = err no_rows
progress_or_none (some p) = ok p

unfoldable pub get_progress : Uuid → Uuid → Db LessonTables (Result DbError LessonProgress)
get_progress user_id lesson_id =
    statement λ _ _ s. (progress_or_none (find_first (is_progress user_id lesson_id) s.progress), s)

-- The CHECK on the column status, whose values are those of the map validStatus of handler.go.
unfoldable pub valid_status : String → Bool
valid_status status =
    str_eq status "viewed" || (str_eq status "learned" || str_eq status "mastered")

-- user_id and lesson_id refer to their tables.
abbrev pub refers_to : Uuid → Uuid → LessonTables → Bool
refers_to user_id lesson_id s =
    is_some (find_first (λ (u : User). u.id == user_id) s.users)
    && is_some (find_first (λ (l : LessonRow). l.id == lesson_id) s.lessons)

abbrev pub moved_to : String → Time → LessonProgress → LessonProgress
moved_to status now p = record p { status = status; updated_at = now }

-- The insert or, on a conflict with the UNIQUE pair, the update.
abbrev pub upserted : Uuid → Uuid → String → Time → Uuid → List LessonProgress → List LessonProgress
upserted user_id lesson_id status now id rows =
    if is_some (find_first (is_progress user_id lesson_id) rows)
    then update_where (is_progress user_id lesson_id) (moved_to status now) rows
    else rows
      ++ record {
        id = id;
        user_id = user_id;
        lesson_id = lesson_id;
        status = status;
        updated_at = now;
      }
        ∷ []

unfoldable pub upsert_progress :
    Uuid → Uuid → String → Db LessonTables (Result DbError LessonProgress)
unfolding valid_status
upsert_progress user_id lesson_id status = statement λ now id s.
    if valid_status status && refers_to user_id lesson_id s
    then (let rows = upserted user_id lesson_id status now id s.progress in
        (
          progress_or_none (find_first (is_progress user_id lesson_id) rows),
          record s { progress = rows },
        ))
    else (err failed, s)
