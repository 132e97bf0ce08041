-- ===== src/Exam/Questions/Listed.antt =====
-- Which questions listQuestionsInternal of internal/exam/store.go lists.
use marco_api.Base.{
  ℕ, suc, ◌≡◌, ◌≢◌, refl, ◌∙◌, sym, ap, arith, Bool, false, List, [], ◌∷◌, ◌==◌, ◌||◌, is_some,
  if◌then◌else◌, All, Uuid, lookup, count_where, Bool-cases, Option-cases, inl, inr,
}
use marco_api.Exam.{Question}
use marco_api.Exam.Questions.{Row, Grouping, add_row, group_rows, list_questions_internal}
use marco_api.Exam.Questions.Rows.{
  position, IsIndexed, add_row-IsIndexed, HasDistinctIds, list_questions-HasDistinctIds,
}

-- A row of the JOIN is about the question.
abbrev pub is_asked : Uuid → List Row → Bool
is_asked k [] = false
is_asked k (row ∷ rows) = row.question.id == k || is_asked k rows

lookup-add_row :
    (b : Bool) (g : Grouping) (row : Row) (k : Uuid)
    → is_some (lookup k (add_row b g row).index_by_id)
      ≡ (is_some (lookup k g.index_by_id) || row.question.id == k)
unfolding add_row lookup
lookup-add_row b g row k = elim (Option-cases (lookup row.question.id g.index_by_id)) [
  | inl new ↦ rw (new, add_row) (ground arith)
  | inr (i, old) ↦ rw (old, add_row) (ground arith)
]

lookup-group_rows :
    (b : Bool) (g : Grouping) (rows : List Row) (k : Uuid)
    → IsIndexed g
    → is_some (position k 0 (group_rows b g rows).out)
      ≡ (is_some (lookup k g.index_by_id) || is_asked k rows)
unfolding group_rows
lookup-group_rows b g [] k indexed = ap is_some (sym (indexed k)) ∙ ground arith
lookup-group_rows b g (row ∷ rows) k indexed =
    let step = lookup-add_row b g row k in
    let rest = lookup-group_rows b (add_row b g row) rows k (add_row-IsIndexed b g row indexed) in
    ground arith

count_where-absent :
    (k : Uuid) (qs : List Question)
    → All (λ (r : Question). r.id ≢ k) qs
    → count_where (λ (q : Question). q.id == k) qs ≡ 0
unfolding count_where
count_where-absent k [] h = refl
count_where-absent k (q ∷ qs) (h, hs) = let rest = count_where-absent k qs hs in ground arith

count_where-position :
    (k : Uuid) (n : ℕ) (qs : List Question)
    → HasDistinctIds qs
    → count_where (λ (q : Question). q.id == k) qs ≡ (if is_some (position k n qs) then 1 else 0)
unfolding count_where
count_where-position k n [] h = refl
count_where-position k n (q ∷ qs) (h, hs) = elim (Bool-cases (q.id == k)) [
  | inl e ↦
      let same : q.id ≡ k = ground arith in
      let gone = count_where-absent k qs (rw same at h) in ground arith
  | inr e ↦ let rest = count_where-position k (suc n) qs hs in ground arith
]

-- Whatever the order of the rows, a question that a row is about is listed exactly once, and no other is listed.
pub count_where-list_questions :
    (b : Bool) (rows : List Row) (k : Uuid)
    → count_where (λ (q : Question). q.id == k) (list_questions_internal b rows)
      ≡ (if is_asked k rows then 1 else 0)
unfolding list_questions_internal lookup
count_where-list_questions b rows k =
    count_where-position k 0 (list_questions_internal b rows) (list_questions-HasDistinctIds b rows)
    ∙ ap (λ (found : Bool). if found then 1 else 0)
        (lookup-group_rows b (record { out = []; index_by_id = [] }) rows k (λ j. refl))
