-- ===== src/Exam/Store/Submission.antt =====
-- What a success of SubmitAttempt in internal/exam/store.go says.
use mathlib.Core.Path.{subst}
use marco_api.Base.{◌≤◌, true, some, List, [], ◌∷◌, ◌≡◌, refl, ap, ◌∙◌, arith, All, Uuid, map}
use marco_api.Base.Db.{ok, err, World, pure, on_error, transaction}
use marco_api.Base.Db.Success.{statement-Ran, on_error_ok, transaction_ok}
use marco_api.Exam.{Question, GradeResult, Picks, graded, grade_attempt, question_reviews}
use marco_api.Exam.Grading.{
  IsOnQuestion, grade_attempt_iff, grade_attempt_valid, question_reviews-answers_for, answers_for,
  reviews_for,
}
use marco_api.Exam.Questions.{list_questions_internal}
use marco_api.Exam.Store.{
  AttemptReview, ExamTables, ExamError, db, get_questions_for_review, reviewed, answer_row,
  save_attempt, submit_attempt, grade_and_save,
}
use marco_api.Exam.Store.Saving.{Added, save_attempt-Saved}

-- What a successful submission did.
pub record Submitted (user_id : Uuid) (picks : Picks) (qs : List Question)
    (w after : World ExamTables) (review : AttemptReview) : Type 0 where
  pub later_id : w.next_id ≤ review.attempt.id
  pub owned : review.attempt.user_id ≡ user_id
  pub stamped : review.attempt.completed_at ≡ w.now
  pub added :
      Added w.tables after.tables
        (review.attempt ∷ [])
        (map (answer_row review.attempt.id) (answers_for picks qs))
  pub reviews : review.questions ≡ reviews_for picks qs
  pub accepted : All (IsOnQuestion picks) qs

grade_and_save_inverse :
    (user_id : Uuid) (picks : Picks) (qs : List Question) (w : World ExamTables)
    (review : AttemptReview)
    → (grade_and_save user_id picks qs w).0 ≡ ok review
    → (r : GradeResult) × (grade_attempt qs picks ≡ graded r)
      × (grade_and_save user_id picks qs w
          ≡ on_error
              (transaction db (save_attempt user_id r))
              (λ e. pure (err e))
              (λ a. pure (reviewed a (question_reviews qs r.answers)))
              w)
unfolding grade_and_save pure
grade_and_save_inverse user_id picks qs w review h = ground arith

grade_and_save-Submitted :
    (user_id : Uuid) (picks : Picks) (qs : List Question) (w : World ExamTables)
    (review : AttemptReview)
    → (grade_and_save user_id picks qs w).0 ≡ ok review
    → Submitted user_id picks qs w (grade_and_save user_id picks qs w).1 review
grade_and_save-Submitted user_id picks qs w review h =
    let (r, marked, same) = grade_and_save_inverse user_id picks qs w review h in
    let (a, stored, same') =
      on_error_ok (transaction db (save_attempt user_id r)) (λ (e : ExamError). e)
        (λ a. pure (reviewed a (question_reviews qs r.answers))) w review (rw same at h) in
    let (v, tables, now, next_id, saved, end) =
      transaction_ok db (save_attempt user_id r) w a stored in
    let accepted = (grade_attempt_iff qs picks).0 (r, marked) in
    let answers : r.answers ≡ answers_for picks qs =
      ground (arith, marked, grade_attempt_valid qs picks accepted) in
    let reviews : question_reviews qs r.answers ≡ some (reviews_for picks qs) =
      rw answers (question_reviews-answers_for qs picks) in
    let value : review ≡ record { attempt = a; questions = reviews_for picks qs } =
      unfold reviewed pure in ground (arith, h, same, same', reviews) in
    let after : (grade_and_save user_id picks qs w).1.tables ≡ (save_attempt user_id r v).1.tables =
      unfold pure in (ap (λ x. x.1.tables) same ∙ ap (λ x. x.1.tables) same' ∙ end) in
    let (stamped, added) = save_attempt-Saved user_id r v a saved in
    let fresh = stamped.fresh_id in
    record {
      later_id = rw value (omega arith);
      owned = rw value stamped.owned;
      stamped = rw value (stamped.stamped ∙ now);
      added =
          rw (value, after, ← answers)
            (subst
              (λ t.
                Added t (save_attempt user_id r v).1.tables (a ∷ [])
                  (map (answer_row a.id) r.answers))
              tables added);
      reviews = rw value refl;
      accepted = accepted;
    }

pub submit_attempt-Submitted :
    (user_id : Uuid) (picks : Picks) (w : World ExamTables) (review : AttemptReview)
    → (submit_attempt user_id picks w).0 ≡ ok review
    → Submitted user_id picks
        (list_questions_internal true w.tables.rows)
        w
        (submit_attempt user_id picks w).1
        review
unfolding submit_attempt
submit_attempt-Submitted user_id picks w review h =
    let (qs, read, same) =
      on_error_ok get_questions_for_review db (grade_and_save user_id picks) w review h in
    let ran = statement-Ran _ w qs read in
    let loaded : qs ≡ list_questions_internal true w.tables.rows =
      let value = ran.value in ground arith in
    let s =
      grade_and_save-Submitted user_id picks qs (get_questions_for_review w).1 review
        (rw same at h) in
    let tables = ran.tables in
    let now = ran.now in
    let next = ran.next_id in
    let later = s.later_id in
    record {
      later_id = omega (arith, next, later);
      owned = s.owned;
      stamped = s.stamped ∙ now;
      added =
          rw (same, ← loaded)
            (subst
              (λ t.
                Added t (grade_and_save user_id picks qs (get_questions_for_review w).1).1.tables
                  (review.attempt ∷ []) (map (answer_row review.attempt.id) (answers_for picks qs)))
              tables s.added);
      reviews = rw (← loaded) s.reviews;
      accepted = rw (← loaded) s.accepted;
    }
