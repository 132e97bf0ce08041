-- ===== src/Exam/Questions.antt =====
-- listQuestionsInternal of internal/exam/store.go: grouping the rows of the JOIN by question, and
-- stripping the answer key. Each row carries the question's columns, with no options yet, and one
-- option.
pub mod Rows
pub mod Listed
use mathlib.Core.List.{append-nil, append_assoc}
use marco_api.Base.{
  ℕ, zero, suc, ◌+◌, ◌≤◌, Bool, true, false, Option, none, some, List, [], ◌∷◌, ◌++◌, ◌≡◌, refl, ap,
  sym, ◌∙◌, arith, ◌==◌, ==_iff, length, if◌then◌else◌, All, All-append, Uuid, lookup, Option-cases,
  inl, inr, Bool-cases,
}
use marco_api.Exam.{ExamOption, Question}

pub record Row : Type 0 where
  pub question : Question
  pub option : ExamOption

-- out and indexByID
pub record Grouping : Type 0 where
  pub out : List Question
  pub index_by_id : List (Uuid × ℕ)

-- out[i].Options = append(out[i].Options, o); the index is always in range here.
unfoldable pub append_option : List Question → ℕ → ExamOption → List Question
append_option [] i o = []
append_option (q ∷ qs) zero o = record q { options = q.options ++ o ∷ [] } ∷ qs
append_option (q ∷ qs) (suc i) o = q ∷ append_option qs i o

unfoldable pub shown_option : Bool → ExamOption → ExamOption
shown_option with_correct o = if with_correct then o else record o { is_correct = false }

unfoldable pub shown_question : Bool → Question → Question
shown_question with_correct q = if with_correct then q else record q { explanation = none }

-- The body of the loop over the rows.
unfoldable pub add_row : Bool → Grouping → Row → Grouping
unfolding append_option
add_row with_correct g row =
    let o = shown_option with_correct row.option in
    let q = shown_question with_correct row.question in
    elim (lookup row.question.id g.index_by_id) [
      | some i ↦ record g { out = append_option g.out i o }
      | none ↦ record {
        out = g.out ++ record q { options = o ∷ [] } ∷ [];
        index_by_id = (row.question.id, length g.out) ∷ g.index_by_id;
      }
    ]

unfoldable pub group_rows : Bool → Grouping → List Row → Grouping
unfolding add_row
group_rows with_correct g [] = g
group_rows with_correct g (row ∷ rows) = group_rows with_correct (add_row with_correct g row) rows

unfoldable pub list_questions_internal : Bool → List Row → List Question
unfolding group_rows
list_questions_internal with_correct rows =
    (group_rows with_correct (record { out = []; index_by_id = [] }) rows).out
