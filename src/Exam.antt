-- ===== src/Exam.antt =====
-- internal/exam/model.go and internal/exam/grade.go: the rules exam and its grading. A Go map from
-- question to option is an association list whose newest entry wins. The loops carry their
-- variables as arguments.
pub mod Grading
pub mod Questions
pub mod Store
pub mod Handler
mod Tests
use marco_api.Base.{
  ℕ, ◌+◌, String, Bool, true, false, Option, none, some, List, [], ◌∷◌, ◌++◌, ◌==◌, leb, length,
  if◌then◌else◌, Uuid, nil_uuid, lookup,
}

pub record ExamOption : Type 0 where
  pub id : Uuid
  pub order_index : ℕ
  pub text : String
  pub is_correct : Bool

pub record Question : Type 0 where
  pub id : Uuid
  pub slug : String
  pub order_index : ℕ
  pub category : String
  pub prompt : String
  pub explanation : Option String
  pub options : List ExamOption

pub record GradedAnswer : Type 0 where
  pub question_id : Uuid
  pub selected_option_id : Option Uuid
  pub correct_option_id : Uuid
  pub is_correct : Bool

pub record GradeResult : Type 0 where
  pub answers : List GradedAnswer
  pub score : ℕ
  pub total : ℕ
  pub passed : Bool

pub record QuestionReview : Type 0 where
  pub question : Question
  pub selected_option_id : Option Uuid
  pub correct_option_id : Uuid
  pub is_correct : Bool

abbrev pub passing_score : ℕ
passing_score = 18

abbrev pub Picks : Type 0
Picks = List (Uuid × Uuid)

-- The first loop over q.Options: the id of the first option marked correct, or uuid.Nil.
unfoldable pub correct_option : List ExamOption → Uuid
correct_option [] = nil_uuid
correct_option (o ∷ os) = let rest = correct_option os in if o.is_correct then o.id else rest

-- The second loop: whether an option is one of the question's.
unfoldable pub belongs : Uuid → List ExamOption → Bool
belongs p [] = false
belongs p (o ∷ os) = let rest = belongs p os in if o.id == p then true else rest

-- ErrPickNotOnQuestion carries the option and the question.
pub data Graded (A : Type 0) : Type 0 where
  graded : A → Graded A
  pick_not_on_question : Uuid → Uuid → Graded A

-- The body of the loop for one question, up to the append.
unfoldable pub grade_question : Question → Option Uuid → Graded GradedAnswer
unfolding correct_option belongs
grade_question q none = graded (record {
  question_id = q.id;
  selected_option_id = none;
  correct_option_id = correct_option q.options;
  is_correct = false;
})
grade_question q (some p) =
    if belongs p q.options
    then graded (record {
      question_id = q.id;
      selected_option_id = some p;
      correct_option_id = correct_option q.options;
      is_correct = p == correct_option q.options;
    })
    else pick_not_on_question p q.id

-- The result that is built after the loop.
unfoldable pub grade_result : ℕ → List GradedAnswer → ℕ → GradeResult
grade_result total answers score = record {
  answers = answers;
  score = score;
  total = total;
  passed = leb passing_score score;
}

unfoldable pub grade_loop : ℕ → Picks → List Question → List GradedAnswer → ℕ → Graded GradeResult
unfolding grade_question
grade_loop total picks [] answers score = graded (grade_result total answers score)
grade_loop total picks (q ∷ qs) answers score = elim (grade_question q (lookup q.id picks)) [
  | pick_not_on_question p k ↦ pick_not_on_question p k
  | graded a ↦
      grade_loop total picks qs (answers ++ a ∷ []) (if a.is_correct then score + 1 else score)
]

unfoldable pub grade_attempt : List Question → Picks → Graded GradeResult
unfolding grade_loop
grade_attempt questions picks = grade_loop (length questions) picks questions [] 0

-- answers[i] panics past the end of answers: `none`.
unfoldable pub question_reviews : List Question → List GradedAnswer → Option (List QuestionReview)
question_reviews [] answers = some []
question_reviews (q ∷ qs) [] = none
question_reviews (q ∷ qs) (a ∷ answers) = elim (question_reviews qs answers) [
  | none ↦ none
  | some rest ↦ some (
      record {
        question = q;
        selected_option_id = a.selected_option_id;
        correct_option_id = a.correct_option_id;
        is_correct = a.is_correct;
      }
      ∷ rest)
]
