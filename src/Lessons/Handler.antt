-- ===== src/Lessons/Handler.antt =====
-- internal/lessons/handler.go. A request carries the user id that the middleware has set, if any, the slug or the
-- level of its URL, and the body that fiber has parsed, if it could.
use marco_api.Base.{
  ℕ, String, Bool, Option, none, some, List, [], ◌∷◌, map, ◌==◌, ◌&&◌, ◌||◌, not, str_eq,
  if◌then◌else◌, Uuid, Reply, json, problem, signed_in,
}
use marco_api.Base.Db.{DbError, no_rows, failed, Result, ok, err, Db, statement, pure, on_error}
use marco_api.Users.{User, Query, get_user_by_id}
use marco_api.Lessons.{
  Lesson, LessonProgress, LessonTables, list_lessons, get_lesson_by_slug, list_progress_by_user_id,
  get_progress, upsert_progress, valid_status,
}

-- A lesson of the list.
pub record LessonView : Type 0 where
  pub lesson : Lesson
  pub locked : Bool
  pub progress : Option String

pub record LessonDetail : Type 0 where
  pub lesson : Lesson
  pub progress : Option String

-- The errors of currentUser: a fiber.Error, or any other.
pub data UserError : Type 0 where
  fiber_error : ℕ → String → UserError
  other_error : UserError

unfoldable pub valid_level : String → Bool
valid_level level =
    str_eq level "beginner" || (str_eq level "intermediate" || str_eq level "advanced")

-- h.users, over the table of accounts.
unfoldable pub on_accounts : {A : Type 0} → Query A → Db LessonTables (Result DbError A)
on_accounts f =
    statement λ now id s. let (r, users) = f now id s.users in (r, record s { users = users })

abbrev pub lookup_error : DbError → UserError
lookup_error no_rows = fiber_error 404 "user not found"
lookup_error failed = other_error

unfoldable pub current_user : Option Uuid → Db LessonTables (Result UserError User)
unfolding on_accounts
current_user user = elim (signed_in user) [
  | none ↦ pure (err (fiber_error 401 "unauthorized"))
  | some user_id ↦
      on_error (on_accounts (get_user_by_id user_id)) (λ e. pure (err (lookup_error e)))
        (λ u. pure (ok u))
]

unfoldable pub user_err : {A : Type 0} → UserError → Reply A
user_err (fiber_error code message) = problem code message
user_err other_error = problem 500 "internal server error"

-- !l.IsFree && user.Plan == "free"
unfoldable pub is_locked : User → Lesson → Bool
is_locked user l = not l.row.is_free && str_eq user.plan "free"

-- The status of a lesson in the map that the rows have filled, where a later row replaces an earlier one.
unfoldable pub status_of : Uuid → List LessonProgress → Option String
status_of lesson_id [] = none
status_of lesson_id (p ∷ ps) = elim (status_of lesson_id ps) [
  | none ↦ if p.lesson_id == lesson_id then some p.status else none
  | some status ↦ some status
]

unfoldable pub view : User → List LessonProgress → Lesson → LessonView
unfolding is_locked status_of
view user progress l = record {
  lesson = l;
  locked = is_locked user l;
  progress = status_of l.row.id progress;
}

unfoldable pub list_lessons_handler :
    Option Uuid → String → Db LessonTables (Reply (List LessonView))
unfolding view
list_lessons_handler user level =
    on_error (current_user user) (λ e. pure (user_err e))
      λ u.
        if not (str_eq level "") && not (valid_level level)
        then pure (problem 400 "level must be one of: beginner, intermediate, advanced")
        else on_error (list_lessons level) (λ _. pure (problem 500 "internal server error"))
            λ lessons.
              on_error (list_progress_by_user_id u.id)
                (λ _. pure (problem 500 "internal server error"))
                λ progress. pure (json 200 (map (view u progress) lessons))

abbrev pub lesson_problem : {A : Type 0} → DbError → Reply A
lesson_problem no_rows = problem 404 "lesson not found"
lesson_problem failed = problem 500 "internal server error"

abbrev pub progress_problem : Lesson → DbError → Reply LessonDetail
progress_problem l no_rows = json 200 (record { lesson = l; progress = none })
progress_problem l failed = problem 500 "internal server error"

unfoldable pub get_lesson_handler : Option Uuid → String → Db LessonTables (Reply LessonDetail)
unfolding is_locked
get_lesson_handler user slug =
    on_error (current_user user) (λ e. pure (user_err e))
      λ u.
        on_error (get_lesson_by_slug slug) (λ e. pure (lesson_problem e))
          λ l.
            if is_locked u l
            then pure (problem 403 "upgrade_required")
            else on_error (get_progress u.id l.row.id) (λ e. pure (progress_problem l e))
                λ p. pure (json 200 (record { lesson = l; progress = some p.status }))

-- The body of a request is its status.
unfoldable pub update_progress_handler :
    Option Uuid → String → Option String → Db LessonTables (Reply LessonProgress)
unfolding is_locked
update_progress_handler user slug body =
    on_error (current_user user) (λ e. pure (user_err e))
      λ u. elim body [
        | none ↦ pure (problem 400 "invalid request body")
        | some status ↦
            if not (valid_status status)
            then pure (problem 422 "status must be one of: viewed, learned, mastered")
            else on_error (get_lesson_by_slug slug) (λ e. pure (lesson_problem e))
                λ l.
                  if is_locked u l
                  then pure (problem 403 "upgrade_required")
                  else on_error (upsert_progress u.id l.row.id status)
                      (λ _. pure (problem 500 "internal server error")) λ p. pure (json 200 p)
      ]
