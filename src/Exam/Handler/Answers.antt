-- ===== src/Exam/Handler/Answers.antt =====
-- What the handlers of internal/exam/handler.go guarantee.
use marco_api.Base.{
  String, Option, none, some, List, [], ◌≡◌, ◌≢◌, refl, ap, ◌∙◌, arith, ◌⊎◌, inl, inr, length, Uuid,
  status, ◌==◌, sym, Bool-cases,
}
use marco_api.Base.Db.{Result, ok, err, World, pure, on_error, transaction, statement, attempt}
use marco_api.Base.Db.Keeps.{transaction_atomic}
use marco_api.Base.Db.Success.{on_error_cases}
use marco_api.Exam.{
  Question, Picks, Graded, GradeResult, graded, pick_not_on_question, grade_attempt,
  question_reviews,
}
use marco_api.Exam.Grading.{
  answers_for, reviews_for, grade_attempt_iff, grade_attempt_valid, question_reviews-answers_for,
}
use marco_api.Exam.Store.{
  AttemptReview, ExamTables, ExamError, db, submit_attempt, grade_and_save, save_attempt,
  save_and_review, reviewed, get_questions_for_review,
}
use marco_api.Exam.Handler.{SubmitAnswerInput, collect_picks, submit_attempt_handler}

Graded-cases :
    (g : Graded GradeResult)
    → ((r : GradeResult) × (g ≡ graded r))
      ⊎ ((p : Uuid) × (k : Uuid) × (g ≡ pick_not_on_question p k))
Graded-cases (graded r) = inl (r, refl)
Graded-cases (pick_not_on_question p k) = inr (p, k, refl)

query_same : (w : World ExamTables) → (get_questions_for_review w).1.tables ≡ w.tables
unfolding get_questions_for_review statement attempt
query_same w = ground arith

save_and_review_atomic :
    (user_id : Uuid) (picks : Picks) (qs : List Question) (r : GradeResult) (w : World ExamTables)
    (e : ExamError)
    → grade_attempt qs picks ≡ graded r
    → (save_and_review user_id qs r w).0 ≡ err e
    → (save_and_review user_id qs r w).1.tables ≡ w.tables
unfolding save_and_review
save_and_review_atomic user_id picks qs r w e marked h =
    elim (on_error_cases (transaction db (save_attempt user_id r)) (λ e. pure (err e))
      (λ a. pure (reviewed a (question_reviews qs r.answers))) w) [
        | inl (f, broke, same) ↦
            unfold pure in
            (ap (λ x. x.1.tables) same ∙ transaction_atomic db (save_attempt user_id r) w broke)
        | inr (a, stored, same) ↦
            let accepted = (grade_attempt_iff qs picks).0 (r, marked) in
            let answers : r.answers ≡ answers_for picks qs =
              ground (arith, marked, grade_attempt_valid qs picks accepted) in
            let reviews : question_reviews qs r.answers ≡ some (reviews_for picks qs) =
              rw answers (question_reviews-answers_for qs picks) in
            absurd (unfold reviewed pure in ground (arith, h, same, reviews))
      ]

grade_and_save_atomic :
    (user_id : Uuid) (picks : Picks) (qs : List Question) (w : World ExamTables) (e : ExamError)
    → (grade_and_save user_id picks qs w).0 ≡ err e
    → (grade_and_save user_id picks qs w).1.tables ≡ w.tables
grade_and_save_atomic user_id picks qs w e h = elim (Graded-cases (grade_attempt qs picks)) [
  | inl (r, marked) ↦
      unfold grade_and_save in
      elim (Bool-cases (length qs == 0)) [
        | inl none_seeded ↦ rw none_seeded (unfold pure in refl)
        | inr seeded ↦
            rw (seeded, marked, grade_and_save)
              (save_and_review_atomic user_id picks qs r w e marked
                (rw (seeded, marked, grade_and_save) at h))
      ]
  | inr (p, k, off) ↦ unfold grade_and_save pure in ground (arith, off)
]

-- A submission that fails, whatever the reason and whichever statements fail, leaves every table
-- as it was.
pub submit_attempt_atomic :
    (user_id : Uuid) (picks : Picks) (w : World ExamTables) (e : ExamError)
    → (submit_attempt user_id picks w).0 ≡ err e
    → (submit_attempt user_id picks w).1.tables ≡ w.tables
submit_attempt_atomic user_id picks w e h =
    elim (on_error_cases get_questions_for_review (λ e. pure (err (db e)))
      (grade_and_save user_id picks) w) [
        | inl (f, broke, same) ↦
            unfold submit_attempt pure in (ap (λ x. x.1.tables) same ∙ query_same w)
        | inr (qs, read, same) ↦
            unfold submit_attempt in
            (ap (λ x. x.1.tables) same
              ∙ grade_and_save_atomic user_id picks qs (get_questions_for_review w).1 e
                  (sym (ap (λ x. x.0) same) ∙ h)
              ∙ query_same w)
      ]

submit_cases :
    (user_id : Uuid) (picks : Picks) (w : World ExamTables)
    → ((submit_attempt user_id picks w).1.tables ≡ w.tables)
      ⊎ ((review : AttemptReview) × ((submit_attempt user_id picks w).0 ≡ ok review))
submit_cases user_id picks w = by_result (submit_attempt user_id picks w).0 refl
  where
    by_result :
        (r : Result ExamError AttemptReview)
        → (submit_attempt user_id picks w).0 ≡ r
        → ((submit_attempt user_id picks w).1.tables ≡ w.tables)
          ⊎ ((review : AttemptReview) × ((submit_attempt user_id picks w).0 ≡ ok review))
    by_result (ok review) h = inr (review, h)
    by_result (err e) h = inl (submit_attempt_atomic user_id picks w e h)

Picks-cases :
    (parse_uuid : String → Option Uuid) (answers : List SubmitAnswerInput)
    → ((m : String) × (collect_picks parse_uuid answers [] ≡ err m))
      ⊎ ((picks : Picks) × (collect_picks parse_uuid answers [] ≡ ok picks))
Picks-cases parse_uuid answers = by_result (collect_picks parse_uuid answers []) refl
  where
    by_result :
        (r : Result String Picks)
        → collect_picks parse_uuid answers [] ≡ r
        → ((m : String) × (collect_picks parse_uuid answers [] ≡ err m))
          ⊎ ((picks : Picks) × (collect_picks parse_uuid answers [] ≡ ok picks))
    by_result (ok picks) h = inr (picks, h)
    by_result (err m) h = inl (m, h)

-- The handler changes the tables only when it answers 201.
pub submit_attempt_handler_atomic :
    (parse_uuid : String → Option Uuid) (user : Option Uuid)
    (body : Option (List SubmitAnswerInput)) (w : World ExamTables)
    → status (submit_attempt_handler parse_uuid user body w).0 ≢ 201
    → (submit_attempt_handler parse_uuid user body w).1.tables ≡ w.tables
unfolding submit_attempt_handler
submit_attempt_handler_atomic parse_uuid none body w h = unfold pure in refl
submit_attempt_handler_atomic parse_uuid (some u) none w h = unfold pure in ground arith
submit_attempt_handler_atomic parse_uuid (some u) (some answers) w h = elim (Bool-cases (u == 0)) [
  | inl nobody ↦ rw (nobody, submit_attempt_handler) (unfold pure in refl)
  | inr somebody ↦ elim (Picks-cases parse_uuid answers) [
    | inl (message, bad) ↦ rw (somebody, bad, submit_attempt_handler) (unfold pure in refl)
    | inr (picks, good) ↦ elim (submit_cases u picks w) [
      | inl same ↦
          rw (somebody, good, submit_attempt_handler) (unfold on_error pure in ground (arith, same))
      | inr (review, done) ↦ absurd (
          h (
            rw (somebody, good, submit_attempt_handler)
              (unfold on_error pure in ground (arith, done))))
    ]
  ]
]
