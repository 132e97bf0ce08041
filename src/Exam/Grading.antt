-- ===== src/Exam/Grading.antt =====
-- What gradeAttempt of internal/exam/grade.go answers.
use marco_api.Base.{
  ℕ, ◌+◌, ◌≤◌, Bool, true, false, Option, none, some, List, [], ◌∷◌, ◌++◌, ◌≡◌, ◌↔◌, ◌≢◌, refl, ap,
  sym, arith, ==_iff, keep, nil_uuid, ◌==◌, leb, length, if◌then◌else◌, All, Uuid, lookup,
  Option-cases, Bool-cases, ◌⊎◌, inl, inr, ◌∙◌,
}
use mathlib.Core.Path.{ap₂, subst}
use mathlib.Core.List.{append_assoc, append-nil, Memᴰ}
use native.Mathlib.Nat.{add-zero, zero-add}
use marco_api.Exam.{
  ExamOption, Question, GradedAnswer, GradeResult, QuestionReview, Picks, correct_option, belongs,
  Graded, graded, pick_not_on_question, grade_question, grade_loop, grade_result, grade_attempt,
  question_reviews,
}

-- An option of the list has the id.
abbrev pub IsAmong : Uuid → List ExamOption → Type 0
IsAmong p os = (o : ExamOption) × Memᴰ o os × (o.id ≡ p)

-- The pick for a question is missing, or it is one of the question's options.
abbrev pub IsOnQuestion : Picks → Question → Type 0
IsOnQuestion picks q =
    (lookup q.id picks ≡ none) ⊎ ((p : Uuid) × (lookup q.id picks ≡ some p) × IsAmong p q.options)

abbrev pub first_id : List ExamOption → Uuid
first_id [] = nil_uuid
first_id (o ∷ os) = o.id

-- The first of the options that are marked correct, or the nil id where none is.
abbrev pub key_of : List ExamOption → Uuid
key_of os = first_id (keep (λ o. o.is_correct) os)

-- An answer is right exactly when the option that was picked is the first one marked correct.
abbrev pub is_right : Option Uuid → List ExamOption → Bool
is_right none os = false
is_right (some p) os = p == key_of os

-- What the answer to one question has to be.
abbrev pub answer_for : Picks → Question → GradedAnswer
answer_for picks q = record {
  question_id = q.id;
  selected_option_id = lookup q.id picks;
  correct_option_id = key_of q.options;
  is_correct = is_right (lookup q.id picks) q.options;
}

abbrev pub answers_for : Picks → List Question → List GradedAnswer
answers_for picks [] = []
answers_for picks (q ∷ qs) = answer_for picks q ∷ answers_for picks qs

abbrev pub review_for : Picks → Question → QuestionReview
review_for picks q = record {
  question = q;
  selected_option_id = lookup q.id picks;
  correct_option_id = key_of q.options;
  is_correct = is_right (lookup q.id picks) q.options;
}

abbrev pub reviews_for : Picks → List Question → List QuestionReview
reviews_for picks [] = []
reviews_for picks (q ∷ qs) = review_for picks q ∷ reviews_for picks qs

abbrev pub right_answers : Picks → List Question → ℕ
right_answers picks [] = 0
right_answers picks (q ∷ qs) =
    (if is_right (lookup q.id picks) q.options then 1 else 0) + right_answers picks qs

-- The pick for a question is given, and no option of the question has it as its id.
abbrev pub IsOffQuestion : Picks → Question → Uuid → Type 0
IsOffQuestion picks q p =
    (lookup q.id picks ≡ some p) × All (λ (o : ExamOption). o.id ≢ p) q.options

pub correct_option-key : (os : List ExamOption) → correct_option os ≡ key_of os
unfolding correct_option keep
correct_option-key [] = refl
correct_option-key (o ∷ os) = let rest = correct_option-key os in ground arith

belongs-IsAmong : (p : Uuid) (os : List ExamOption) → belongs p os ≡ true → IsAmong p os
unfolding belongs
belongs-IsAmong p [] h = ground arith
belongs-IsAmong p (o ∷ os) h = elim (Bool-cases (o.id == p)) [
  | inl e ↦ (o, Memᴰ.head refl, (==_iff o.id p).0 e)
  | inr e ↦ let (r, m, k) = belongs-IsAmong p os (ground arith) in (r, Memᴰ.tail m, k)
]

IsAmong-belongs :
    (p : Uuid) (os : List ExamOption) (o : ExamOption) → Memᴰ o os → o.id ≡ p → belongs p os ≡ true
unfolding belongs
IsAmong-belongs p [] o m k = elim m [ ]
IsAmong-belongs p (r ∷ os) o (Memᴰ.head e) k =
    let same : r.id ≡ p = sym (ap (λ x. x.id) e) ∙ k in ground arith
IsAmong-belongs p (r ∷ os) o (Memᴰ.tail m) k = let rest = IsAmong-belongs p os o m k in ground arith

belongs-none :
    (p : Uuid) (os : List ExamOption) → belongs p os ≡ false → All (λ (o : ExamOption). o.id ≢ p) os
unfolding belongs
belongs-none p [] h = tt
belongs-none p (o ∷ os) h = elim (Bool-cases (o.id == p)) [
  | inl e ↦ ground arith
  | inr e ↦ ((λ (same : o.id ≡ p). ground arith), belongs-none p os (ground arith))
]

All-none-belongs :
    (p : Uuid) (os : List ExamOption) → All (λ (o : ExamOption). o.id ≢ p) os → belongs p os ≡ false
unfolding belongs
All-none-belongs p [] h = refl
All-none-belongs p (o ∷ os) (h, hs) = let rest = All-none-belongs p os hs in ground arith

question_cases :
    (picks : Picks) (q : Question) → IsOnQuestion picks q ⊎ ((p : Uuid) × IsOffQuestion picks q p)
question_cases picks q = elim (Option-cases (lookup q.id picks)) [
  | inl e ↦ inl (inl e)
  | inr (p, e) ↦ elim (Bool-cases (belongs p q.options)) [
    | inl b ↦ inl (inr (p, e, belongs-IsAmong p q.options b))
    | inr b ↦ inr (p, (e, belongs-none p q.options b))
  ]
]

grade_question_valid :
    (picks : Picks) (q : Question)
    → IsOnQuestion picks q
    → grade_question q (lookup q.id picks) ≡ graded (answer_for picks q)
unfolding grade_question
grade_question_valid picks q h = elim h [
  | inl e ↦ rw (e, correct_option-key) refl
  | inr (p, e, (o, m, k)) ↦ rw (e, IsAmong-belongs p q.options o m k, correct_option-key) refl
]

grade_question_off :
    (picks : Picks) (q : Question) (p : Uuid)
    → IsOffQuestion picks q p
    → grade_question q (lookup q.id picks) ≡ pick_not_on_question p q.id
unfolding grade_question
grade_question_off picks q p (e, b) = rw (e, All-none-belongs p q.options b) refl

grade_loop_valid :
    (total : ℕ) (picks : Picks) (qs : List Question) (done : List GradedAnswer) (score : ℕ)
    → All (IsOnQuestion picks) qs
    → grade_loop total picks qs done score
      ≡ graded (grade_result total (done ++ answers_for picks qs) (score + right_answers picks qs))
unfolding grade_loop
grade_loop_valid total picks [] done score h = rw (append-nil, add-zero)
grade_loop_valid total picks (q ∷ qs) done score (h, hs) =
    rw (grade_question_valid picks q h, grade_loop)
      (grade_loop_valid total picks qs (done ++ answer_for picks q ∷ []) _ hs
        ∙ ap₂ (λ xs n. graded (grade_result total xs n))
            (append_assoc done (answer_for picks q ∷ []) (answers_for picks qs)) (ground arith))

-- Where the loop stops at a pick, some question was given a pick that is not among its options.
grade_loop_fails :
    (total : ℕ) (picks : Picks) (qs : List Question) (done : List GradedAnswer) (score : ℕ)
    (p k : Uuid)
    → grade_loop total picks qs done score ≡ pick_not_on_question p k
    → (q : Question) × Memᴰ q qs × (q.id ≡ k) × IsOffQuestion picks q p
unfolding grade_loop
grade_loop_fails total picks [] done score p k e = cc
grade_loop_fails total picks (q ∷ qs) done score p k e = elim (question_cases picks q) [
  | inl h ↦
      let (r, m, same, off) =
        grade_loop_fails total picks qs (done ++ answer_for picks q ∷ []) _ p k
          (rw (grade_question_valid picks q h, grade_loop) at e) in
      (r, Memᴰ.tail m, same, off)
  | inr (o, off) ↦
      let stop : ◌≡◌ {A = Graded GradeResult} (pick_not_on_question o q.id)
          (pick_not_on_question p k) =
        rw (grade_question_off picks q o off, grade_loop) at e in
      let same : o ≡ p = cc in (q, Memᴰ.head refl, cc, subst (IsOffQuestion picks q) same off)
]

grade_loop_accepts :
    (total : ℕ) (picks : Picks) (qs : List Question) (done : List GradedAnswer) (score : ℕ)
    (r : GradeResult)
    → grade_loop total picks qs done score ≡ graded r
    → All (IsOnQuestion picks) qs
unfolding grade_loop
grade_loop_accepts total picks [] done score r e = tt
grade_loop_accepts total picks (q ∷ qs) done score r e = elim (question_cases picks q) [
  | inl h ↦ (
    h,
    grade_loop_accepts total picks qs (done ++ answer_for picks q ∷ []) _ r
        (rw (grade_question_valid picks q h, grade_loop) at e),
  )
  | inr (o, off) ↦
      let stop : ◌≡◌ {A = Graded GradeResult} (pick_not_on_question o q.id) (graded r) =
        rw (grade_question_off picks q o off, grade_loop) at e in
      cc
]

-- A paper is graded exactly when each pick for a question of the paper is the id of one of the options of that question.
pub grade_attempt_iff :
    (qs : List Question) (picks : Picks)
    → ((r : GradeResult) × (grade_attempt qs picks ≡ graded r)) ↔ All (IsOnQuestion picks) qs
unfolding grade_attempt
grade_attempt_iff qs picks = (
  λ (r, e). grade_loop_accepts (length qs) picks qs [] 0 r e,
  λ h. (_, grade_loop_valid (length qs) picks qs [] 0 h),
)

-- If each pick for a question of the paper is the id of one of its options, the grading is this: one answer for each
-- question, in order, with what was picked, the first option marked correct (the nil id where none is) and whether
-- they agree; the score counts the right answers, the total counts the questions, and the paper passes from a
-- score of 18.
pub grade_attempt_valid :
    (qs : List Question) (picks : Picks)
    → All (IsOnQuestion picks) qs
    → grade_attempt qs picks
      ≡ graded (record {
        answers = answers_for picks qs;
        score = right_answers picks qs;
        total = length qs;
        passed = leb 18 (right_answers picks qs);
      })
unfolding grade_attempt grade_result
grade_attempt_valid qs picks h = grade_loop_valid (length qs) picks qs [] 0 h ∙ rw zero-add

-- A rejected paper names a question of the exam and the option that was picked for it, and no
-- option of that question has this id.
pub grade_attempt_rejects :
    (qs : List Question) (picks : Picks) (p k : Uuid)
    → grade_attempt qs picks ≡ pick_not_on_question p k
    → (q : Question) × Memᴰ q qs × (q.id ≡ k) × IsOffQuestion picks q p
unfolding grade_attempt
grade_attempt_rejects qs picks p k e = grade_loop_fails (length qs) picks qs [] 0 p k e

right_answers-le : (picks : Picks) (qs : List Question) → right_answers picks qs ≤ length qs
right_answers-le picks [] = omega arith
right_answers-le picks (q ∷ qs) = ground (arith, right_answers-le picks qs)

-- The score never passes the total, and a passing paper has at least 18 questions.
pub grade_attempt_bounds :
    (qs : List Question) (picks : Picks) (r : GradeResult)
    → grade_attempt qs picks ≡ graded r
    → (r.score ≤ r.total) × (r.passed ≡ true → 18 ≤ r.total)
unfolding grade_attempt grade_result
grade_attempt_bounds qs picks r e =
    let valid = grade_loop_accepts (length qs) picks qs [] 0 r e in
    let same = grade_loop_valid (length qs) picks qs [] 0 valid in
    ground (arith, same, right_answers-le picks qs)

pub question_reviews-answers_for :
    (qs : List Question) (picks : Picks)
    → question_reviews qs (answers_for picks qs) ≡ some (reviews_for picks qs)
unfolding question_reviews
question_reviews-answers_for [] picks = refl
question_reviews-answers_for (q ∷ qs) picks = rw (question_reviews-answers_for qs picks)

-- The review of a paper that gradeAttempt has graded never indexes past the end of its answers, and
-- each question comes back with what was picked, the first option marked correct and whether they agree.
pub question_reviews_of_grading :
    (qs : List Question) (picks : Picks) (r : GradeResult)
    → grade_attempt qs picks ≡ graded r
    → question_reviews qs r.answers ≡ some (reviews_for picks qs)
unfolding grade_attempt grade_result
question_reviews_of_grading qs picks r e =
    let valid = grade_loop_accepts (length qs) picks qs [] 0 r e in
    let same : r.answers ≡ answers_for picks qs =
      ground (arith, grade_loop_valid (length qs) picks qs [] 0 valid) in
    rw same (question_reviews-answers_for qs picks)
