-- ===== src/Exam/Store.antt =====
-- internal/exam/store.go over tables. The rows of the JOIN of exam_questions and exam_options
-- stand for these two tables, in the order of the query.
mod Saving
mod Submission
pub mod RoundTrip
use marco_api.Base.{
  ℕ, suc, ◌+◌, Bool, true, false, Option, none, some, List, [], ◌∷◌, ◌++◌, ◌==◌, ◌&&◌, leb, ltb,
  length, if◌then◌else◌, Uuid, nil_uuid, Time, lookup, keep, map,
}
use marco_api.Base.Db.{
  DbError, no_rows, Result, ok, err, World, Db, statement, pure, on_error, transaction,
}
use marco_api.Exam.{
  Question, GradedAnswer, GradeResult, QuestionReview, Picks, correct_option, graded,
  pick_not_on_question, grade_attempt, question_reviews,
}
use marco_api.Exam.Questions.{Row, list_questions_internal}

pub record Attempt : Type 0 where
  pub id : Uuid
  pub user_id : Uuid
  pub score : ℕ
  pub total : ℕ
  pub passed : Bool
  pub completed_at : Time

-- A row of exam_attempt_answers.
pub record AttemptAnswer : Type 0 where
  pub attempt_id : Uuid
  pub question_id : Uuid
  pub selected_option_id : Option Uuid
  pub is_correct : Bool

pub record AttemptReview : Type 0 where
  pub attempt : Attempt
  pub questions : List QuestionReview

pub record ExamTables : Type 0 where
  pub rows : List Row
  pub attempts : List Attempt
  pub answers : List AttemptAnswer

pub data ExamError : Type 0 where
  not_on_question : Uuid → Uuid → ExamError
  no_questions out_of_range : ExamError
  db : DbError → ExamError

unfoldable pub query_questions : Bool → Db ExamTables (Result DbError (List Question))
query_questions with_correct =
    statement (λ _ _ s. (ok (list_questions_internal with_correct s.rows), s))

unfoldable pub list_questions : Db ExamTables (Result DbError (List Question))
unfolding query_questions
list_questions = query_questions false

unfoldable pub get_questions_for_review : Db ExamTables (Result DbError (List Question))
unfolding query_questions
get_questions_for_review = query_questions true

-- INSERT INTO exam_attempts … RETURNING …; completed_at defaults to NOW().
unfoldable pub insert_attempt : Uuid → GradeResult → Db ExamTables (Result DbError Attempt)
insert_attempt user_id result = statement λ now id s.
    let a : Attempt = record {
      id = id;
      user_id = user_id;
      score = result.score;
      total = result.total;
      passed = result.passed;
      completed_at = now;
    } in
    (ok a, record s { attempts = s.attempts ++ a ∷ [] })

abbrev pub answer_row : Uuid → GradedAnswer → AttemptAnswer
answer_row attempt_id ga = record {
  attempt_id = attempt_id;
  question_id = ga.question_id;
  selected_option_id = ga.selected_option_id;
  is_correct = ga.is_correct;
}

unfoldable pub insert_answer : Uuid → GradedAnswer → Db ExamTables (Result DbError (Unit {0}))
insert_answer attempt_id ga =
    statement λ _ _ s. (ok tt, record s { answers = s.answers ++ answer_row attempt_id ga ∷ [] })

-- The batch: the first answer that cannot be inserted ends it.
unfoldable pub insert_answers :
    Uuid → List GradedAnswer → Db ExamTables (Result ExamError (Unit {0}))
unfolding insert_answer
insert_answers attempt_id [] = pure (ok tt)
insert_answers attempt_id (ga ∷ answers) =
    on_error (insert_answer attempt_id ga) (λ e. pure (err (db e)))
      (λ _. insert_answers attempt_id answers)

-- The statements between Begin and Commit.
unfoldable pub save_attempt : Uuid → GradeResult → Db ExamTables (Result ExamError Attempt)
unfolding insert_attempt insert_answers
save_attempt user_id result =
    on_error (insert_attempt user_id result) (λ e. pure (err (db e)))
      (λ a. on_error (insert_answers a.id result.answers) (λ e. pure (err e)) (λ _. pure (ok a)))

unfoldable pub reviewed : Attempt → Option (List QuestionReview) → Result ExamError AttemptReview
reviewed a none = err out_of_range
reviewed a (some reviews) = ok (record { attempt = a; questions = reviews })

-- SubmitAttempt from the transaction on, and SubmitAttempt after the questions are loaded.
unfoldable pub save_and_review :
    Uuid → List Question → GradeResult → Db ExamTables (Result ExamError AttemptReview)
unfolding reviewed
save_and_review user_id questions result =
    on_error (transaction db (save_attempt user_id result)) (λ e. pure (err e))
      λ a. pure (reviewed a (question_reviews questions result.answers))

unfoldable pub grade_and_save :
    Uuid → Picks → List Question → Db ExamTables (Result ExamError AttemptReview)
unfolding save_and_review
grade_and_save user_id picks questions =
    if length questions == 0
    then pure (err no_questions)
    else elim (grade_attempt questions picks) [
      | pick_not_on_question p k ↦ pure (err (not_on_question p k))
      | graded result ↦ save_and_review user_id questions result
    ]

unfoldable pub submit_attempt : Uuid → Picks → Db ExamTables (Result ExamError AttemptReview)
unfolding get_questions_for_review
submit_attempt user_id picks =
    on_error get_questions_for_review (λ e. pure (err (db e))) (grade_and_save user_id picks)

-- ORDER BY completed_at DESC LIMIT 1, over the user's attempts: of two attempts with one instant
-- the later row counts.
unfoldable pub latest_of : Uuid → List Attempt → Option Attempt → Option Attempt
latest_of user_id [] best = best
latest_of user_id (a ∷ attempts) none =
    latest_of user_id attempts (if a.user_id == user_id then some a else none)
latest_of user_id (a ∷ attempts) (some b) =
    latest_of user_id attempts
      (if a.user_id == user_id && leb b.completed_at a.completed_at then some a else some b)

unfoldable pub latest_attempt : Uuid → Db ExamTables (Result DbError Attempt)
latest_attempt user_id = statement λ _ _ s. elim (latest_of user_id s.attempts none) [
  | none ↦ (err no_rows, s)
  | some a ↦ (ok a, s)
]

-- The local type `pick` of GetLatestAttempt, and picks[qid] = pick{…} for each row.
pub record Stored : Type 0 where
  pub selected : Option Uuid
  pub is_correct : Bool

unfoldable pub stored_picks : List AttemptAnswer → List (Uuid × Stored) → List (Uuid × Stored)
stored_picks [] picks = picks
stored_picks (r ∷ rows) picks =
    stored_picks rows (
      (r.question_id, record { selected = r.selected_option_id; is_correct = r.is_correct })
      ∷ picks)

unfoldable pub answers_of_attempt : Uuid → Db ExamTables (Result DbError (List AttemptAnswer))
answers_of_attempt id = statement λ _ _ s. (ok (keep (λ r. r.attempt_id == id) s.answers), s)

-- The zero value of `pick` where the map has no entry.
abbrev pub stored_or_zero : Option Stored → Stored
stored_or_zero none = record { selected = none; is_correct = false }
stored_or_zero (some p) = p

unfoldable pub review_stored : List (Uuid × Stored) → List Question → List QuestionReview
review_stored picks [] = []
review_stored picks (q ∷ qs) =
    let p = stored_or_zero (lookup q.id picks) in
    record {
      question = q;
      selected_option_id = p.selected;
      correct_option_id = correct_option q.options;
      is_correct = p.is_correct;
    }
    ∷ review_stored picks qs

unfoldable pub get_latest_attempt : Uuid → Db ExamTables (Result DbError AttemptReview)
unfolding latest_attempt get_questions_for_review answers_of_attempt
get_latest_attempt user_id =
    on_error (latest_attempt user_id) (λ e. pure (err e))
      λ a.
        on_error get_questions_for_review (λ e. pure (err e))
          λ questions.
            on_error (answers_of_attempt a.id) (λ e. pure (err e))
              λ rows. pure (
                ok (record {
                  attempt = a;
                  questions = review_stored (stored_picks rows []) questions;
                }))
