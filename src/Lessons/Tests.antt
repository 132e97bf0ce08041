-- ===== src/Lessons/Tests.antt =====
-- Tests of the lessons, and the theorems at a catalogue of one lesson.
use marco_api.Base.{
  ℕ, ◌≡◌, refl, String, Bool, true, false, Option, none, some, List, [], ◌∷◌, Uuid, Time, Reply,
  json, problem, status,
}
use marco_api.Base.Db.{World}
use marco_api.Users.{User}
use marco_api.Lessons.{LessonRow, LessonProgress, LessonTables, scan_lesson}
use marco_api.Lessons.Handler.{get_lesson_handler, update_progress_handler, list_lessons_handler}
use marco_api.Lessons.Progress.{quiet, get_lesson_handler-update_progress_handler}
use marco_api.Lessons.Access.{IsTurnedAway, locked-IsTurnedAway}

abbrev lesson : Uuid → String → Bool → LessonRow
lesson id slug is_free = record {
  id = id;
  slug = slug;
  title = "A lesson";
  level = "beginner";
  order_index = 1;
  tagline = none;
  focus = none;
  video_url = none;
  thumbnail_url = none;
  duration_seconds = none;
  common_mistake_text = none;
  is_free = is_free;
  published = true;
  created_at = 1;
}

abbrev ana : User
ana = record {
  id = 7;
  google_id = none;
  password_hash = none;
  email = "ana@example.com";
  display_name = none;
  avatar_url = none;
  skill_level = none;
  dominant_hand = none;
  court_side = none;
  play_frequency = none;
  goal = none;
  plan = "free";
  created_at = 1;
  updated_at = 1;
}

abbrev tables : LessonTables
tables = record {
  users = ana ∷ [];
  lessons = lesson 1 "grip" true ∷ lesson 2 "smash" false ∷ [];
  cues = [];
  drills = [];
  progress = record { id = 5; user_id = 7; lesson_id = 1; status = "viewed"; updated_at = 3 } ∷ [];
}

-- The lesson is not free, and the account is on the free plan.
locked_test :
    (update_progress_handler (some 7) "smash" (some "learned") (quiet tables 10 20)).0
    ≡ problem 403 "upgrade_required"
unfolding update_progress_handler marco_api.Base.Db.on_error marco_api.Lessons.Handler.current_user
    marco_api.Base.Db.statement marco_api.Users.get_user_by_id marco_api.Base.find_first
    marco_api.Base.Db.pure marco_api.Lessons.valid_status marco_api.Lessons.get_lesson_by_slug
locked_test = refl

list_test : status (list_lessons_handler (some 7) "beginner" (quiet tables 10 20)).0 ≡ 200
unfolding list_lessons_handler marco_api.Base.Db.on_error marco_api.Lessons.Handler.current_user
    marco_api.Base.Db.statement marco_api.Users.get_user_by_id marco_api.Base.find_first
    marco_api.Base.Db.pure marco_api.Lessons.Handler.valid_level marco_api.Lessons.list_lessons
    marco_api.Lessons.list_progress_by_user_id
list_test = refl

get_lesson_handler-update_progress_handler_example :
    (status (update_progress_handler (some 7) "grip" (some "mastered") (quiet tables 10 20)).0
      ≡ 200)
    × ((get_lesson_handler (some 7) "grip" (
          quiet
            (update_progress_handler
              (some 7)
              "grip"
              (some "mastered")
              (quiet tables 10 20)).1.tables
            11
            30)).0
        ≡ json 200 (record {
          lesson = scan_lesson tables (lesson 1 "grip" true);
          progress = some "mastered";
        }))
unfolding marco_api.Base.find_first marco_api.Lessons.Handler.is_locked scan_lesson
    marco_api.Lessons.valid_status
get_lesson_handler-update_progress_handler_example =
    get_lesson_handler-update_progress_handler (some 7) 7 "grip" tables ana (lesson 1 "grip" true)
      refl refl refl refl "mastered" 10 11 20 30 refl

-- The third statement would fail; the two that come before the lock run.
abbrev world : World LessonTables
world = record { tables = tables; now = 10; next_id = 20; faults = false ∷ false ∷ true ∷ [] }

locked-IsTurnedAway_example :
    IsTurnedAway tables (get_lesson_handler (some 7) "smash" world)
    × IsTurnedAway tables (update_progress_handler (some 7) "smash" (some "learned") world)
unfolding marco_api.Base.find_first marco_api.Lessons.Handler.is_locked scan_lesson
locked-IsTurnedAway_example =
    locked-IsTurnedAway (some 7) 7 "smash" ana (lesson 2 "smash" false) world refl refl refl refl
      refl (some "learned")
