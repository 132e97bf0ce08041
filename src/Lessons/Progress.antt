-- ===== src/Lessons/Progress.antt =====
-- The progress of a user in a lesson through the endpoints of internal/lessons.
use marco_api.Base.{
  suc, ◌≡◌, refl, ap, ◌∙◌, arith, String, Bool, true, false, Option, some, List, [], ◌==◌, is_some,
  not, status, if◌then◌else◌, Option-cases, ==_refl, inl, inr, Uuid, Time, find_first, json,
  signed_in,
}
use marco_api.Base.Rows.{find_first-also, find_first-added, find_first-changed}
use marco_api.Base.Db.{World, Db, ok, statement, attempt, pure, on_error}
use marco_api.Base.Db.Success.{on_error_runs}
use marco_api.Users.{User, get_user_by_id}
use marco_api.Lessons.{
  LessonRow, LessonProgress, LessonTables, scan_lesson, is_progress, upserted, moved_to, has_slug,
  upsert_progress, valid_status, get_lesson_by_slug, get_progress,
}
use marco_api.Lessons.Handler.{
  is_locked, current_user, get_lesson_handler, update_progress_handler, on_accounts,
}

-- The row of a user and a lesson after the upsert.
find_first-upserted :
    (user_id lesson_id : Uuid) (status : String) (now : Time) (id : Uuid)
    (rows : List LessonProgress)
    → (p : LessonProgress) × (find_first
          (is_progress user_id lesson_id)
          (upserted user_id lesson_id status now id rows)
        ≡ some p)
      × (p.status ≡ status)
find_first-upserted user_id lesson_id status now id rows =
    elim (Option-cases (find_first (is_progress user_id lesson_id) rows)) [
      | inl e ↦ (
        record {
          id = id;
          user_id = user_id;
          lesson_id = lesson_id;
          status = status;
          updated_at = now;
        },
        rw e (find_first-added _ _ rows e (rw (==_refl user_id, ==_refl lesson_id) refl)),
        refl,
      )
      | inr (p, e) ↦ (
        moved_to status now p,
        rw e (
            find_first-changed (is_progress user_id lesson_id) (moved_to status now) (λ q. refl) p
              rows e),
        refl,
      )
    ]

if-skipped :
    {A : Type 0} (b : Bool) (x y : Db LessonTables A) (w : World LessonTables)
    (v : A × World LessonTables)
    → b ≡ false
    → y w ≡ v
    → (if b then x else y) w ≡ v
if-skipped true x y w v h k = ground arith
if-skipped false x y w v h k = k

abbrev pub quiet : LessonTables → Time → Uuid → World LessonTables
quiet s now id = record { tables = s; now = now; next_id = id; faults = [] }

module _ (user : Option Uuid) (user_id : Uuid) (slug : String) (s : LessonTables) (u : User)
    (l : LessonRow) (signed : signed_in user ≡ some user_id)
    (account : find_first (λ v. v.id == user_id) s.users ≡ some u)
    (found : find_first (has_slug slug) s.lessons ≡ some l)
    (unlocked : is_locked u (scan_lesson s l) ≡ false) where
  current_user-answers :
      (now : Time) (id : Uuid) → current_user user (quiet s now id) ≡ (ok u, quiet s now (suc id))
  unfolding current_user on_accounts get_user_by_id statement attempt pure on_error find_first
  current_user-answers now id = rw (signed, account, current_user) refl

  get_lesson_by_slug-answers :
      (now : Time) (id : Uuid)
      → get_lesson_by_slug slug (quiet s now id) ≡ (ok (scan_lesson s l), quiet s now (suc id))
  unfolding get_lesson_by_slug statement attempt
  get_lesson_by_slug-answers now id = rw found refl

  get_progress-answers :
      (p : LessonProgress) (now : Time) (id : Uuid)
      → find_first (is_progress u.id l.id) s.progress ≡ some p
      → get_progress u.id l.id (quiet s now id) ≡ (ok p, quiet s now (suc id))
  unfolding get_progress statement attempt
  get_progress-answers p now id h = rw h refl

  get_lesson_handler-shows :
      (p : LessonProgress) (now : Time) (id : Uuid)
      → find_first (is_progress u.id l.id) s.progress ≡ some p
      → (get_lesson_handler user slug (quiet s now id)).0
        ≡ json 200 (record { lesson = scan_lesson s l; progress = some p.status })
  unfolding get_lesson_handler pure scan_lesson
  get_lesson_handler-shows p now id h =
      ap (λ x. x.0)
        (on_error_runs (current_user user) _ _ _ _ u (current_user-answers now id)
          ∙ on_error_runs (get_lesson_by_slug slug) _ _ _ _ (scan_lesson s l)
              (get_lesson_by_slug-answers now (suc id))
          ∙ if-skipped _ _ _ _ _ unlocked (
              on_error_runs (get_progress u.id l.id) _ _ _ _ p
                (get_progress-answers p now (suc (suc id)) h)))

  upsert_progress-answers :
      (status : String) (p : LessonProgress) (now : Time) (id : Uuid)
      → valid_status status ≡ true
      → find_first (is_progress u.id l.id) (upserted u.id l.id status now id s.progress) ≡ some p
      → upsert_progress u.id l.id status (quiet s now id) ≡ (
        ok p,
        quiet (record s { progress = upserted u.id l.id status now id s.progress }) now (suc id),
      )
  unfolding upsert_progress statement attempt
  upsert_progress-answers status p now id good h =
      let user_known : is_some (find_first (λ (v : User). v.id == u.id) s.users) ≡ true =
        find_first-also (λ v. v.id == user_id) (λ v. v.id == u.id) u s.users account
          (==_refl u.id) in
      let lesson_known : is_some (find_first (λ (m : LessonRow). m.id == l.id) s.lessons) ≡ true =
        find_first-also (has_slug slug) (λ m. m.id == l.id) l s.lessons found (==_refl l.id) in
      rw (good, user_known, lesson_known, h) refl

  update_progress_handler-saves :
      (status : String) (p : LessonProgress) (now : Time) (id : Uuid)
      → valid_status status ≡ true
      → find_first (is_progress u.id l.id) (upserted u.id l.id status now (suc (suc id)) s.progress)
        ≡ some p
      → update_progress_handler user slug (some status) (quiet s now id) ≡ (
        json 200 p,
        quiet
            (record s { progress = upserted u.id l.id status now (suc (suc id)) s.progress })
            now
            (suc (suc (suc id))),
      )
  unfolding update_progress_handler pure scan_lesson
  update_progress_handler-saves status p now id good h =
      on_error_runs (current_user user) _ _ _ _ u (current_user-answers now id)
      ∙ if-skipped _ _ _ _ _ (ap not good) (
          on_error_runs (get_lesson_by_slug slug) _ _ _ _ (scan_lesson s l)
            (get_lesson_by_slug-answers now (suc id)))
      ∙ if-skipped _ _ _ _ _ unlocked (
          on_error_runs (upsert_progress u.id l.id status) _ _ _ _ p
            (upsert_progress-answers status p now (suc (suc id)) good h))

-- A PATCH of a valid status by an account that may see the lesson answers 200, with no fault ahead, whether it is the
-- first one or replaces another; from then on GET shows the lesson with this status, at any later time.
pub get_lesson_handler-update_progress_handler :
    (user : Option Uuid) (user_id : Uuid) (slug : String) (s : LessonTables) (u : User)
    (l : LessonRow)
    → signed_in user ≡ some user_id
    → find_first (λ v. v.id == user_id) s.users ≡ some u
    → find_first (has_slug slug) s.lessons ≡ some l
    → is_locked u (scan_lesson s l) ≡ false
    → (text : String) (now later : Time) (id next : Uuid) → valid_status text ≡ true
    → (status (update_progress_handler user slug (some text) (quiet s now id)).0 ≡ 200)
      × ((get_lesson_handler user slug (
            quiet
              (update_progress_handler user slug (some text) (quiet s now id)).1.tables
              later
              next)).0
          ≡ json 200 (record { lesson = scan_lesson s l; progress = some text }))
unfolding scan_lesson
get_lesson_handler-update_progress_handler user user_id slug s u l signed account found unlocked
      text now later id next good =
    let rows : List LessonProgress = upserted u.id l.id text now (suc (suc id)) s.progress in
    let (p, there, same) = find_first-upserted u.id l.id text now (suc (suc id)) s.progress in
    let saved =
      update_progress_handler-saves user user_id slug s u l signed account found unlocked text p now
        id good there in
    let shown =
      get_lesson_handler-shows user user_id slug (record s { progress = rows }) u l signed account
        found unlocked p later next there in
    (
      ap (λ x. status x.0) saved,
      ap (λ x. (get_lesson_handler user slug (quiet x.1.tables later next)).0) saved
          ∙ shown
          ∙ ap (λ t. json 200 (record { lesson = scan_lesson s l; progress = some t })) same,
    )
