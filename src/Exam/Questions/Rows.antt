-- ===== src/Exam/Questions/Rows.antt =====
-- What listQuestionsInternal of internal/exam/store.go makes of its rows.
use mathlib.Core.List.{append-nil, append_assoc}
use marco_api.Base.{
  ℕ, zero, suc, ◌+◌, ◌≤◌, Bool, false, Option, none, some, List, [], ◌∷◌, ◌++◌, ◌≡◌, ◌≢◌, refl, ap,
  sym, ◌∙◌, arith, ◌==◌, length, if◌then◌else◌, All, All-append, Uuid, lookup, Option-cases, inl,
  inr,
}
use marco_api.Exam.{ExamOption, Question}
use marco_api.Exam.Questions.{
  Row, Grouping, append_option, shown_option, shown_question, add_row, group_rows,
  list_questions_internal,
}

-- The options of a question, and those that the rows hold for it.
abbrev pub options_of : Uuid → List Question → List ExamOption
options_of k [] = []
options_of k (q ∷ qs) = if q.id == k then q.options else options_of k qs

abbrev pub row_options : Bool → Uuid → List Row → List ExamOption
row_options with_correct k [] = []
row_options with_correct k (row ∷ rows) =
    if row.question.id == k
    then shown_option with_correct row.option ∷ row_options with_correct k rows
    else row_options with_correct k rows

abbrev pub position : Uuid → ℕ → List Question → Option ℕ
position k n [] = none
position k n (q ∷ qs) = if q.id == k then some n else position k (suc n) qs

abbrev pub IsIndexed : Grouping → Type 0
IsIndexed g = (k : Uuid) → lookup k g.index_by_id ≡ position k 0 g.out

position-append_option :
    (qs : List Question) (n i : ℕ) (o : ExamOption) (k : Uuid)
    → position k n (append_option qs i o) ≡ position k n qs
unfolding append_option
position-append_option [] n i o k = refl
position-append_option (q ∷ qs) n zero o k = refl
position-append_option (q ∷ qs) n (suc i) o k = rw (position-append_option qs (suc n) i o k)

position-append :
    (qs : List Question) (n : ℕ) (q : Question) (k : Uuid)
    → position q.id n qs ≡ none
    → position k n (qs ++ q ∷ []) ≡ (if q.id == k then some (n + length qs) else position k n qs)
position-append [] n q k h = ground arith
position-append (r ∷ qs) n q k h = ground (arith, position-append qs (suc n) q k)

options_of-append :
    (qs : List Question) (n : ℕ) (q : Question) (k : Uuid)
    → position q.id n qs ≡ none
    → options_of k (qs ++ q ∷ []) ≡ (if q.id == k then q.options else options_of k qs)
options_of-append [] n q k h = ground arith
options_of-append (r ∷ qs) n q k h = ground (arith, options_of-append qs (suc n) q k)

position-le : (qs : List Question) (n m : ℕ) (k : Uuid) → position k n qs ≡ some m → n ≤ m
position-le [] n m k h = cc
position-le (q ∷ qs) n m k h = ground (arith, position-le qs (suc n) m k)

options_of-append_option :
    (qs : List Question) (n m i : ℕ) (o : ExamOption) (j k : Uuid)
    → m ≡ n + i
    → position j n qs ≡ some m
    → options_of k (append_option qs i o)
      ≡ (if j == k then options_of k qs ++ o ∷ [] else options_of k qs)
unfolding append_option
options_of-append_option [] n m i o j k e h = cc
options_of-append_option (q ∷ qs) n m zero o j k e h = ground (arith, position-le qs (suc n) m j)
options_of-append_option (q ∷ qs) n m (suc i) o j k e h =
    ground (arith, options_of-append_option qs (suc n) m i o j k)

options_of_unseen :
    (qs : List Question) (n : ℕ) (k : Uuid) → position k n qs ≡ none → options_of k qs ≡ []
options_of_unseen [] n k h = refl
options_of_unseen (q ∷ qs) n k h = ground (arith, options_of_unseen qs (suc n) k)

shown_question_id : (b : Bool) (q : Question) → (shown_question b q).id ≡ q.id
unfolding shown_question
shown_question_id b q = ground arith

module _ (b : Bool) (g : Grouping) (row : Row) (indexed : IsIndexed g) where
  abbrev new_question : Question
  new_question = record (shown_question b row.question) { options = shown_option b row.option ∷ [] }

  unseen : lookup row.question.id g.index_by_id ≡ none → position new_question.id 0 g.out ≡ none
  unseen new = rw shown_question_id (sym (indexed row.question.id) ∙ new)

  pub add_row-IsIndexed : IsIndexed (add_row b g row)
  unfolding add_row
  add_row-IsIndexed k = elim (Option-cases (lookup row.question.id g.index_by_id)) [
    | inl new ↦
        rw (new, add_row)
          (unfold lookup in
            ground (
              arith,
              indexed k,
              shown_question_id b row.question,
              position-append g.out 0 new_question k (unseen new),
            ))
    | inr (i, old) ↦
        rw (old, add_row)
          (indexed k ∙ sym (position-append_option g.out 0 i (shown_option b row.option) k))
  ]

  options_of-add_row :
      (k : Uuid)
      → options_of k (add_row b g row).out ≡ options_of k g.out ++ row_options b k (row ∷ [])
  unfolding add_row
  options_of-add_row k = elim (Option-cases (lookup row.question.id g.index_by_id)) [
    | inl new ↦
        rw (new, add_row)
          (ground (
            arith,
            shown_question_id b row.question,
            append-nil (options_of k g.out),
            options_of-append g.out 0 new_question k (unseen new),
            options_of_unseen g.out 0 row.question.id (sym (indexed row.question.id) ∙ new),
          ))
    | inr (i, old) ↦
        rw (old, add_row)
          (ground (
            arith,
            append-nil (options_of k g.out),
            options_of-append_option g.out 0 i i (shown_option b row.option) row.question.id k
                (omega arith) (sym (indexed row.question.id) ∙ old),
          ))
  ]

options_of-group_rows :
    (b : Bool) (g : Grouping) (rows : List Row) (k : Uuid)
    → IsIndexed g
    → options_of k (group_rows b g rows).out ≡ options_of k g.out ++ row_options b k rows
unfolding group_rows
options_of-group_rows b g [] k h = sym (append-nil (options_of k g.out))
options_of-group_rows b g (row ∷ rows) k h =
    options_of-group_rows b (add_row b g row) rows k (add_row-IsIndexed b g row h)
    ∙ ap (λ os. os ++ row_options b k rows) (options_of-add_row b g row h k)
    ∙ append_assoc (options_of k g.out) (row_options b k (row ∷ [])) (row_options b k rows)
    ∙ ap (λ os. options_of k g.out ++ os) (ground arith)

-- Whatever the order of the rows, each question gets all the options that its rows hold, in their
-- order, and no other option.
pub options_of-list_questions :
    (with_correct : Bool) (rows : List Row) (k : Uuid)
    → options_of k (list_questions_internal with_correct rows) ≡ row_options with_correct k rows
unfolding list_questions_internal lookup
options_of-list_questions b rows k =
    options_of-group_rows b (record { out = []; index_by_id = [] }) rows k (λ j. refl)

-- Nothing in a question gives its answer away.
abbrev pub HidesAnswer : Question → Type 0
HidesAnswer q = (q.explanation ≡ none) × All (λ (o : ExamOption). o.is_correct ≡ false) q.options

append_option-HidesAnswer :
    (qs : List Question) (i : ℕ) (o : ExamOption)
    → o.is_correct ≡ false
    → All HidesAnswer qs
    → All HidesAnswer (append_option qs i o)
unfolding append_option
append_option-HidesAnswer [] i o h hs = tt
append_option-HidesAnswer (q ∷ qs) zero o h ((e, os), hs) =
    ((e, All-append _ q.options (o ∷ []) os (h, tt)), hs)
append_option-HidesAnswer (q ∷ qs) (suc i) o h (hq, hs) =
    (hq, append_option-HidesAnswer qs i o h hs)

add_row-HidesAnswer :
    (g : Grouping) (row : Row) → All HidesAnswer g.out → All HidesAnswer (add_row false g row).out
unfolding add_row shown_option shown_question
add_row-HidesAnswer g row h = elim (Option-cases (lookup row.question.id g.index_by_id)) [
  | inl new ↦ rw (new, add_row) (All-append HidesAnswer g.out _ h ((refl, (refl, tt)), tt))
  | inr (i, old) ↦
      rw (old, add_row) (append_option-HidesAnswer g.out i (shown_option false row.option) refl h)
]

group_rows-HidesAnswer :
    (g : Grouping) (rows : List Row)
    → All HidesAnswer g.out
    → All HidesAnswer (group_rows false g rows).out
unfolding group_rows
group_rows-HidesAnswer g [] h = h
group_rows-HidesAnswer g (row ∷ rows) h =
    group_rows-HidesAnswer (add_row false g row) rows (add_row-HidesAnswer g row h)

-- The paper that is sent out hides every answer: no explanation, and no option marked correct.
pub list_questions-HidesAnswer :
    (rows : List Row) → All HidesAnswer (list_questions_internal false rows)
unfolding list_questions_internal
list_questions-HidesAnswer rows =
    group_rows-HidesAnswer (record { out = []; index_by_id = [] }) rows tt

-- No two questions share an id.
abbrev pub HasDistinctIds : List Question → Type 0
HasDistinctIds [] = Unit
HasDistinctIds (q ∷ qs) = All (λ (r : Question). r.id ≢ q.id) qs × HasDistinctIds qs

All-append_option :
    (P : Uuid → Type 0) (qs : List Question) (i : ℕ) (o : ExamOption)
    → All (λ (r : Question). P r.id) qs
    → All (λ (r : Question). P r.id) (append_option qs i o)
unfolding append_option
All-append_option P [] i o h = tt
All-append_option P (q ∷ qs) zero o h = h
All-append_option P (q ∷ qs) (suc i) o (h, hs) = (h, All-append_option P qs i o hs)

append_option-HasDistinctIds :
    (qs : List Question) (i : ℕ) (o : ExamOption)
    → HasDistinctIds qs
    → HasDistinctIds (append_option qs i o)
unfolding append_option
append_option-HasDistinctIds [] i o h = tt
append_option-HasDistinctIds (q ∷ qs) zero o h = h
append_option-HasDistinctIds (q ∷ qs) (suc i) o (h, hs) =
    (All-append_option (λ k. k ≢ q.id) qs i o h, append_option-HasDistinctIds qs i o hs)

append-HasDistinctIds :
    (qs : List Question) (n : ℕ) (q : Question)
    → position q.id n qs ≡ none
    → HasDistinctIds qs
    → HasDistinctIds (qs ++ q ∷ [])
append-HasDistinctIds [] n q e h = (tt, tt)
append-HasDistinctIds (r ∷ qs) n q e (h, hs) = (
  All-append _ qs (q ∷ []) h ((λ (same : q.id ≡ r.id). ground arith), tt),
  append-HasDistinctIds qs (suc n) q (ground arith) hs,
)

add_row-HasDistinctIds :
    (b : Bool) (g : Grouping) (row : Row)
    → IsIndexed g
    → HasDistinctIds g.out
    → HasDistinctIds (add_row b g row).out
unfolding add_row
add_row-HasDistinctIds b g row indexed h =
    elim (Option-cases (lookup row.question.id g.index_by_id)) [
      | inl new ↦
          rw (new, add_row)
            (append-HasDistinctIds g.out 0 (new_question b g row indexed)
              (unseen b g row indexed new) h)
      | inr (i, old) ↦
          rw (old, add_row) (append_option-HasDistinctIds g.out i (shown_option b row.option) h)
    ]

group_rows-HasDistinctIds :
    (b : Bool) (g : Grouping) (rows : List Row)
    → IsIndexed g
    → HasDistinctIds g.out
    → HasDistinctIds (group_rows b g rows).out
unfolding group_rows
group_rows-HasDistinctIds b g [] indexed h = h
group_rows-HasDistinctIds b g (row ∷ rows) indexed h =
    group_rows-HasDistinctIds b (add_row b g row) rows (add_row-IsIndexed b g row indexed)
      (add_row-HasDistinctIds b g row indexed h)

pub list_questions-HasDistinctIds :
    (b : Bool) (rows : List Row) → HasDistinctIds (list_questions_internal b rows)
unfolding list_questions_internal lookup
list_questions-HasDistinctIds b rows =
    group_rows-HasDistinctIds b (record { out = []; index_by_id = [] }) rows (λ k. refl) tt
