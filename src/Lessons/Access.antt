-- ===== src/Lessons/Access.antt =====
-- What the plan of a user closes in the endpoints of internal/lessons.
use marco_api.Base.{
  ℕ, ◌≡◌, refl, ap, sym, ◌∙◌, arith, String, Bool, true, false, Option, none, some, ◌==◌,
  if◌then◌else◌, Bool-cases, inl, inr, Uuid, find_first, Reply, json, problem, bare, signed_in,
}
use marco_api.Base.Db.{
  DbError, no_rows, failed, Result, World, Db, ok, statement, attempt, pure, on_error,
}
use mathlib.Core.Path.{subst}
use marco_api.Base.Db.Success.{on_error_cases}
use marco_api.Users.{User, get_user_by_id}
use marco_api.Lessons.{
  Lesson, LessonRow, LessonTables, scan_lesson, has_slug, valid_status, get_lesson_by_slug,
}
use marco_api.Lessons.Handler.{
  UserError, fiber_error, other_error, user_err, lesson_problem, is_locked, current_user,
  get_lesson_handler, update_progress_handler, on_accounts,
}

abbrev is_json : {A : Type 0} → Reply A → Bool
is_json (json _ _) = true
is_json (problem _ _) = false
is_json (bare _) = false

module _ (user : Option Uuid) (user_id : Uuid) (slug : String) (s : LessonTables) (u : User)
    (l : LessonRow) (signed : signed_in user ≡ some user_id)
    (account : find_first (λ v. v.id == user_id) s.users ≡ some u)
    (found : find_first (has_slug slug) s.lessons ≡ some l) where
  current_user-reads :
      (w : World LessonTables)
      → w.tables ≡ s
      → ((current_user user w).1.tables ≡ s) × ((v : User) → (current_user user w).0 ≡ ok v → v ≡ u)
  unfolding current_user on_accounts get_user_by_id statement attempt pure on_error find_first
  current_user-reads w h = (ground arith, λ v k. ground arith)

  get_lesson_by_slug-reads :
      (w : World LessonTables)
      → w.tables ≡ s
      → ((get_lesson_by_slug slug w).1.tables ≡ s)
        × ((m : Lesson) → (get_lesson_by_slug slug w).0 ≡ ok m → m ≡ scan_lesson s l)
  unfolding get_lesson_by_slug statement attempt
  get_lesson_by_slug-reads w h = (ground arith, λ m k. ground arith)

module _ {A B E : Type 0} where
  -- What holds of both branches of a call holds of the call.
  on_error-both :
      (P : B × World LessonTables → Type 0) (m : Db LessonTables (Result E A))
      (bad : E → Db LessonTables B) (go : A → Db LessonTables B) (w : World LessonTables)
      → ((e : E) → P (bad e (m w).1))
      → ((a : A) → (m w).0 ≡ ok a → P (go a (m w).1))
      → P (on_error m bad go w)
  on_error-both P m bad go w on_bad on_good = elim (on_error_cases m bad go w) [
    | inl (e, _, k) ↦ subst P (sym k) (on_bad e)
    | inr (a, h, k) ↦ subst P (sym k) (on_good a h)
  ]

-- An answer without a value, which leaves the tables as they were.
unfoldable pub IsTurnedAway : {A : Type 0} → LessonTables → Reply A × World LessonTables → Type 0
IsTurnedAway s x = (is_json x.0 ≡ false) × (x.1.tables ≡ s)

user_err-IsTurnedAway :
    (A : Type 0) (s : LessonTables) (e : UserError) (w : World LessonTables)
    → w.tables ≡ s
    → IsTurnedAway {A = A} s (user_err e, w)
unfolding IsTurnedAway user_err
user_err-IsTurnedAway A s (fiber_error code message) w h = (refl, h)
user_err-IsTurnedAway A s other_error w h = (refl, h)

lesson_problem-IsTurnedAway :
    (A : Type 0) (s : LessonTables) (e : DbError) (w : World LessonTables)
    → w.tables ≡ s
    → IsTurnedAway {A = A} s (lesson_problem e, w)
unfolding IsTurnedAway
lesson_problem-IsTurnedAway A s no_rows w h = (refl, h)
lesson_problem-IsTurnedAway A s failed w h = (refl, h)

problem-IsTurnedAway :
    (A : Type 0) (s : LessonTables) (code : ℕ) (message : String) (w : World LessonTables)
    → w.tables ≡ s
    → IsTurnedAway {A = A} s (problem code message, w)
unfolding IsTurnedAway
problem-IsTurnedAway A s code message w h = (refl, h)

if-taken :
    {A : Type 0} (P : A × World LessonTables → Type 0) (b : Bool) (x y : Db LessonTables A)
    (w : World LessonTables)
    → b ≡ true
    → P (x w)
    → P ((if b then x else y) w)
if-taken P true x y w h k = k
if-taken P false x y w h k = ground arith

module _ (user : Option Uuid) (user_id : Uuid) (slug : String) (s : LessonTables) (u : User)
    (l : LessonRow) (signed : signed_in user ≡ some user_id)
    (account : find_first (λ v. v.id == user_id) s.users ≡ some u)
    (found : find_first (has_slug slug) s.lessons ≡ some l)
    (locked : is_locked u (scan_lesson s l) ≡ true) where
  locked_get :
      (w : World LessonTables) → w.tables ≡ s → IsTurnedAway s (get_lesson_handler user slug w)
  unfolding get_lesson_handler pure
  locked_get w here =
      let (kept, same) = current_user-reads user user_id slug s u l signed account found w here in
      on_error-both (IsTurnedAway s) (current_user user) _ _ w
        (λ e. user_err-IsTurnedAway _ s e (current_user user w).1 kept)
        λ v k.
          let (kept_too, same_lesson) =
            get_lesson_by_slug-reads user user_id slug s u l signed account found
              (current_user user w).1 kept in
          on_error-both (IsTurnedAway s) (get_lesson_by_slug slug) _ _ _
            (λ e.
              lesson_problem-IsTurnedAway _ s e (get_lesson_by_slug slug (current_user user w).1).1
                kept_too)
            λ m j.
              if-taken (IsTurnedAway s) _ _ _ _
                (ap (λ x. is_locked x m) (same v k) ∙ ap (is_locked u) (same_lesson m j) ∙ locked)
                (problem-IsTurnedAway _ s 403 _ _ kept_too)

  locked_update :
      (body : Option String) (w : World LessonTables)
      → w.tables ≡ s
      → IsTurnedAway s (update_progress_handler user slug body w)
  unfolding update_progress_handler pure
  locked_update none w here =
      let (kept, same) = current_user-reads user user_id slug s u l signed account found w here in
      on_error-both (IsTurnedAway s) (current_user user) _ _ w
        (λ e. user_err-IsTurnedAway _ s e (current_user user w).1 kept)
        λ v k. problem-IsTurnedAway _ s 400 _ _ kept
  locked_update (some text) w here =
      let (kept, same) = current_user-reads user user_id slug s u l signed account found w here in
      let (kept_too, same_lesson) =
        get_lesson_by_slug-reads user user_id slug s u l signed account found
          (current_user user w).1 kept in
      on_error-both (IsTurnedAway s) (current_user user) _ _ w
        (λ e. user_err-IsTurnedAway _ s e (current_user user w).1 kept)
        λ v k. elim (Bool-cases (valid_status text)) [
          | inl good ↦ rw good (
              on_error-both (IsTurnedAway s) (get_lesson_by_slug slug) _ _ (current_user user w).1
                (λ e.
                  lesson_problem-IsTurnedAway _ s e
                    (get_lesson_by_slug slug (current_user user w).1).1 kept_too)
                λ m j.
                  if-taken (IsTurnedAway s) _ _ _ _
                    (ap (λ x. is_locked x m) (same v k)
                      ∙ ap (is_locked u) (same_lesson m j)
                      ∙ locked)
                    (problem-IsTurnedAway _ s 403 _
                      (get_lesson_by_slug slug (current_user user w).1).1 kept_too))
          | inr bad ↦ rw bad (problem-IsTurnedAway _ s 422 _ (current_user user w).1 kept)
        ]

-- Where the account of the signed-in user is on the plan "free" and the published lesson of the slug is not free, the
-- lesson is closed to it, whichever statements fail: GET does not show it, PATCH does not answer a progress, whatever
-- its body, and both leave every table as it was.
pub locked-IsTurnedAway :
    (user : Option Uuid) (user_id : Uuid) (slug : String) (u : User) (l : LessonRow)
    (w : World LessonTables)
    → signed_in user ≡ some user_id
    → find_first (λ v. v.id == user_id) w.tables.users ≡ some u
    → find_first (has_slug slug) w.tables.lessons ≡ some l
    → u.plan ≡ "free"
    → l.is_free ≡ false
    → (body : Option String)
    → IsTurnedAway w.tables (get_lesson_handler user slug w)
      × IsTurnedAway w.tables (update_progress_handler user slug body w)
unfolding is_locked scan_lesson
locked-IsTurnedAway user user_id slug u l w signed account found plan paid body =
    let locked : is_locked u (scan_lesson w.tables l) ≡ true = rw (plan, paid) refl in
    (
      locked_get user user_id slug w.tables u l signed account found locked w refl,
      locked_update user user_id slug w.tables u l signed account found locked body w refl,
    )
