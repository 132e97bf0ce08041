-- ===== src/Exam/Tests.antt =====
-- Tests of internal/exam on a paper of two questions.
use marco_api.Base.{
  ℕ, ◌≡◌, ◌≢◌, ◌≤◌, ◌<◌, refl, arith, String, Bool, true, false, Option, none, some, List, [], ◌∷◌,
  All, Uuid, length, inl, inr, leb, ◌⊎◌, ◌↔◌, Reply, status, count_where, ◌==◌, if◌then◌else◌,
}
use mathlib.Core.List.{Memᴰ}
use marco_api.Base.Db.{World, Result, ok, err}
use marco_api.Exam.{
  ExamOption, Question, Picks, graded, pick_not_on_question, grade_attempt, question_reviews,
  GradeResult,
}
use marco_api.Exam.Grading.{
  IsOnQuestion, IsOffQuestion, answers_for, right_answers, reviews_for, grade_attempt_iff,
  grade_attempt_valid, grade_attempt_rejects, grade_attempt_bounds, question_reviews_of_grading,
}
use marco_api.Exam.Questions.{Row, list_questions_internal}
use marco_api.Exam.Questions.Rows.{
  options_of, row_options, HidesAnswer, options_of-list_questions, list_questions-HidesAnswer,
}
use marco_api.Exam.Questions.Listed.{is_asked, count_where-list_questions}
use marco_api.Exam.Store.{
  ExamTables, Attempt, AttemptAnswer, AttemptReview, submit_attempt, get_latest_attempt,
}
use marco_api.Exam.Store.RoundTrip.{get_latest-submit_attempt}
use marco_api.Exam.Handler.{SubmitAnswerInput, submit_attempt_handler}
use marco_api.Exam.Handler.Answers.{submit_attempt_handler_atomic}

abbrev option : Uuid → Bool → ExamOption
option id is_correct = record { id = id; order_index = 1; text = "text"; is_correct = is_correct }

abbrev question : Uuid → List ExamOption → Question
question id options = record {
  id = id;
  slug = "slug";
  order_index = 1;
  category = "serve";
  prompt = "prompt";
  explanation = some "because";
  options = options;
}

abbrev paper : List Question
paper =
    question 1 (option 11 false ∷ option 12 true ∷ [])
    ∷ question 2 (option 21 true ∷ option 22 false ∷ [])
    ∷ []

abbrev rows : List Row
rows =
    record { question = question 1 []; option = option 11 false }
    ∷ record { question = question 2 []; option = option 21 true }
    ∷ record { question = question 1 []; option = option 12 true }
    ∷ record { question = question 2 []; option = option 22 false }
    ∷ []

-- The first question right, the second left open.
abbrev picks : Picks
picks = (1, 12) ∷ []

abbrev before : World ExamTables
before = record {
  tables = record { rows = rows; attempts = []; answers = [] };
  now = 40;
  next_id = 5;
  faults = [];
}

score_one :
    grade_attempt paper picks
    ≡ graded (record { answers = answers_for picks paper; score = 1; total = 2; passed = false })
unfolding grade_attempt marco_api.Base.lookup marco_api.Exam.grade_result marco_api.Base.keep
score_one = refl

off_paper : grade_attempt paper ((1, 21) ∷ []) ≡ pick_not_on_question 21 1
unfolding grade_attempt marco_api.Base.lookup
off_paper = refl

grouped : list_questions_internal true rows ≡ paper
unfolding list_questions_internal marco_api.Base.lookup marco_api.Exam.Questions.shown_question
    marco_api.Exam.Questions.shown_option
grouped = refl

pick_on_paper : All (IsOnQuestion picks) paper
unfolding marco_api.Base.lookup
pick_on_paper = (inr (12, refl, (option 12 true, Memᴰ.tail (Memᴰ.head refl), refl)), (inl refl, tt))

abbrev result : GradeResult
result = record { answers = answers_for picks paper; score = 1; total = 2; passed = false }

abbrev review : AttemptReview
review = record {
  attempt = record { id = 7; user_id = 3; score = 1; total = 2; passed = false; completed_at = 40 };
  questions = reviews_for picks paper;
}

submitted : (submit_attempt 3 picks before).0 ≡ ok review
unfolding submit_attempt marco_api.Base.Db.on_error marco_api.Base.Db.statement
    marco_api.Exam.Store.grade_and_save list_questions_internal marco_api.Base.lookup grade_attempt
    marco_api.Exam.Questions.shown_question marco_api.Exam.Questions.shown_option
    marco_api.Base.Db.transaction marco_api.Exam.Store.save_attempt marco_api.Exam.grade_result
    marco_api.Base.Db.pure question_reviews marco_api.Base.keep
submitted = refl

abbrev no_parse : String → Option Uuid
no_parse s = none

refused :
    status
      (submit_attempt_handler no_parse
        (some 3)
        (some (record { question_id = "x"; selected_option_id = none } ∷ []))
        before).0
    ≡ 422
unfolding submit_attempt_handler marco_api.Exam.Handler.collect_picks no_parse
    marco_api.Base.Db.pure
refused = refl

not_created :
    status
      (submit_attempt_handler no_parse
        (some 3)
        (some (record { question_id = "x"; selected_option_id = none } ∷ []))
        before).0
    ≢ 201
not_created e = omega (arith, e, refused)

-- An earlier attempt of the user, a later one of another user, and an answer of each.
abbrev busy : World ExamTables
busy = record before {
  tables = record before.tables {
    attempts =
        record { id = 2; user_id = 3; score = 0; total = 2; passed = false; completed_at = 39 }
        ∷ record { id = 4; user_id = 8; score = 0; total = 2; passed = false; completed_at = 90 }
        ∷ [];
    answers =
        record { attempt_id = 2; question_id = 1; selected_option_id = some 11; is_correct = false }
        ∷ record { attempt_id = 4; question_id = 1; selected_option_id = none; is_correct = false }
        ∷ [];
  };
}

submitted_again : (submit_attempt 3 picks busy).0 ≡ ok review
unfolding submit_attempt marco_api.Base.Db.on_error marco_api.Base.Db.statement
    marco_api.Exam.Store.grade_and_save list_questions_internal marco_api.Base.lookup grade_attempt
    marco_api.Exam.Questions.shown_question marco_api.Exam.Questions.shown_option
    marco_api.Base.Db.transaction marco_api.Exam.Store.save_attempt marco_api.Exam.grade_result
    marco_api.Base.Db.pure question_reviews marco_api.Base.keep
submitted_again = refl

get_latest-submit_attempt_example :
    (get_latest_attempt 3 (record (submit_attempt 3 picks busy).1 { faults = [] })).0 ≡ ok review
get_latest-submit_attempt_example =
    get_latest-submit_attempt 3 picks busy (record (submit_attempt 3 picks busy).1 { faults = [] })
      review ((λ h. ground arith), ((λ h. ground arith), tt)) (omega arith, (omega arith, tt))
      submitted_again refl refl

grade_attempt_valid_example :
    grade_attempt paper picks
    ≡ graded (record {
      answers = answers_for picks paper;
      score = right_answers picks paper;
      total = length paper;
      passed = leb 18 (right_answers picks paper);
    })
grade_attempt_valid_example = grade_attempt_valid paper picks pick_on_paper

grade_attempt_iff_example :
    ((r : GradeResult) × (grade_attempt paper picks ≡ graded r)) ↔ All (IsOnQuestion picks) paper
grade_attempt_iff_example = grade_attempt_iff paper picks

grade_attempt_rejects_example :
    (q : Question) × Memᴰ q paper × (q.id ≡ 1) × IsOffQuestion ((1, 21) ∷ []) q 21
grade_attempt_rejects_example = grade_attempt_rejects paper ((1, 21) ∷ []) 21 1 off_paper

grade_attempt_bounds_example :
    (result.score ≤ result.total) × (result.passed ≡ true → 18 ≤ result.total)
grade_attempt_bounds_example = grade_attempt_bounds paper picks result score_one

question_reviews_of_grading_example :
    question_reviews paper result.answers ≡ some (reviews_for picks paper)
question_reviews_of_grading_example = question_reviews_of_grading paper picks result score_one

options_of-list_questions_example :
    options_of 1 (list_questions_internal true rows) ≡ row_options true 1 rows
options_of-list_questions_example = options_of-list_questions true rows 1

list_questions-HidesAnswer_example : All HidesAnswer (list_questions_internal false rows)
list_questions-HidesAnswer_example = list_questions-HidesAnswer rows

count_where-list_questions_example :
    count_where (λ (q : Question). q.id == 2) (list_questions_internal true rows)
    ≡ (if is_asked 2 rows then 1 else 0)
count_where-list_questions_example = count_where-list_questions true rows 2

submit_attempt_handler_atomic_example :
    (submit_attempt_handler no_parse
      (some 3)
      (some (record { question_id = "x"; selected_option_id = none } ∷ []))
      before).1.tables
    ≡ before.tables
submit_attempt_handler_atomic_example =
    submit_attempt_handler_atomic no_parse (some 3)
      (some (record { question_id = "x"; selected_option_id = none } ∷ [])) before not_created
