-- ===== src/Exam/Store/RoundTrip.antt =====
-- GetLatestAttempt of internal/exam/store.go gives back the review that SubmitAttempt answered.
use marco_api.Base.{
  ◌≤◌, ◌<◌, Bool, true, Option, none, some, List, [], ◌∷◌, ◌++◌, ◌≡◌, ◌≢◌, refl, ap, sym, ◌∙◌,
  arith, ◌==◌, ==_iff, Bool-cases, inl, inr, All, Uuid, Time, lookup, keep, map,
}
use marco_api.Base.Db.{ok, World, pure, on_error, statement, attempt}
use marco_api.Exam.{Question, GradedAnswer, QuestionReview, Picks}
use marco_api.Exam.Grading.{correct_option-key, answers_for, reviews_for, is_right}
use marco_api.Exam.Questions.{list_questions_internal}
use marco_api.Exam.Questions.Rows.{HasDistinctIds, list_questions-HasDistinctIds}
use marco_api.Exam.Store.{
  Attempt, AttemptAnswer, AttemptReview, ExamTables, answer_row, submit_attempt, latest_of,
  get_latest_attempt, Stored, stored_picks, review_stored,
}
use marco_api.Exam.Store.Submission.{submit_attempt-Submitted}

abbrev IsBefore : Time → Option Attempt → Type 0
IsBefore t none = Unit
IsBefore t (some b) = b.completed_at < t

latest_of-append :
    (user_id : Uuid) (attempts : List Attempt) (a : Attempt) (best : Option Attempt)
    → a.user_id ≡ user_id
    → All (λ (b : Attempt). b.user_id ≡ user_id → b.completed_at < a.completed_at) attempts
    → IsBefore a.completed_at best
    → latest_of user_id (attempts ++ a ∷ []) best ≡ some a
unfolding latest_of
latest_of-append user_id [] a none e h k = ground arith
latest_of-append user_id [] a (some b) e h k = ground arith
latest_of-append user_id (b ∷ attempts) a none e (hb, h) k =
    elim (Bool-cases (b.user_id == user_id)) [
      | inl own ↦
          rw (own, latest_of)
            (latest_of-append user_id attempts a (some b) e h
              (hb ((==_iff b.user_id user_id).0 own)))
      | inr other ↦ rw (other, latest_of) (latest_of-append user_id attempts a none e h tt)
    ]
latest_of-append user_id (b ∷ attempts) a (some c) e (hb, h) k =
    elim (Bool-cases (b.user_id == user_id)) [
      | inl own ↦
          let older = hb ((==_iff b.user_id user_id).0 own) in
          ground (
            arith,
            latest_of-append user_id attempts a (some c) e h k,
            latest_of-append user_id attempts a (some b) e h older,
          )
      | inr other ↦ rw (other, latest_of) (latest_of-append user_id attempts a (some c) e h k)
    ]

abbrev is_for : Uuid → AttemptAnswer → Bool
is_for id r = r.attempt_id == id

keep-append {ℓ} :
    {A : Type ℓ} (p : A → Bool) (xs ys : List A) → keep p (xs ++ ys) ≡ keep p xs ++ keep p ys
unfolding keep
keep-append p [] ys = refl
keep-append p (x ∷ xs) ys = ground (arith, keep-append p xs ys)

keep_old :
    (n id : Uuid) (rows : List AttemptAnswer)
    → n ≤ id
    → All (λ (r : AttemptAnswer). r.attempt_id < n) rows
    → keep (is_for id) rows ≡ []
unfolding keep
keep_old n id [] le h = refl
keep_old n id (r ∷ rows) le (h, hs) = ground (arith, keep_old n id rows le hs)

keep_new :
    (id : Uuid) (answers : List GradedAnswer)
    → keep (is_for id) (map (answer_row id) answers) ≡ map (answer_row id) answers
unfolding keep
keep_new id [] = refl
keep_new id (a ∷ answers) = ground (arith, keep_new id answers)

-- The last entry for a question that is not asked again stays.
stored_elsewhere :
    (id k : Uuid) (picks : Picks) (qs : List Question) (base : List (Uuid × Stored))
    → All (λ (q : Question). q.id ≢ k) qs
    → lookup k (stored_picks (map (answer_row id) (answers_for picks qs)) base) ≡ lookup k base
unfolding stored_picks lookup
stored_elsewhere id k picks [] base h = refl
stored_elsewhere id k picks (q ∷ qs) base (h, hs) =
    stored_elsewhere id k picks qs _ hs ∙ ground arith

abbrev stored_for : Picks → Question → Stored
stored_for picks q = record {
  selected = lookup q.id picks;
  is_correct = is_right (lookup q.id picks) q.options;
}

stored_here :
    (id : Uuid) (picks : Picks) (qs : List Question) (base : List (Uuid × Stored))
    → HasDistinctIds qs
    → All
        (λ (q : Question).
          lookup q.id (stored_picks (map (answer_row id) (answers_for picks qs)) base)
          ≡ some (stored_for picks q))
        qs
unfolding stored_picks
stored_here id picks [] base h = tt
stored_here id picks (q ∷ qs) base (h, hs) = (
  stored_elsewhere id q.id picks qs _ h ∙ (unfold lookup in ground arith),
  stored_here id picks qs _ hs,
)

review_stored_lem :
    (m : List (Uuid × Stored)) (picks : Picks) (qs : List Question)
    → All (λ (q : Question). lookup q.id m ≡ some (stored_for picks q)) qs
    → review_stored m qs ≡ reviews_for picks qs
unfolding review_stored
review_stored_lem m picks [] h = refl
review_stored_lem m picks (q ∷ qs) (h, hs) =
    rw (h, correct_option-key q.options, review_stored_lem m picks qs hs) refl

-- With no fault ahead, and an attempt on file, the review is built from the stored rows.
get_latest_attempt_runs :
    (user_id : Uuid) (v : World ExamTables) (a : Attempt)
    → v.faults ≡ []
    → latest_of user_id v.tables.attempts none ≡ some a
    → (get_latest_attempt user_id v).0
      ≡ ok (record {
        attempt = a;
        questions =
            review_stored
              (stored_picks (keep (is_for a.id) v.tables.answers) [])
              (list_questions_internal true v.tables.rows);
      })
unfolding get_latest_attempt statement attempt on_error pure
get_latest_attempt_runs user_id v a f h = ground arith

-- After a successful submission by a user whose own earlier attempts are all older than this request,
-- on tables whose answer rows, of every user, name attempts with ids that were given out before:
-- GetLatestAttempt, on the tables that the submission left and with no fault of the database, answers
-- with the very review that SubmitAttempt answered. The submission itself may have met faults before
-- it succeeded.
pub get_latest-submit_attempt :
    (user_id : Uuid) (picks : Picks) (w v : World ExamTables) (review : AttemptReview)
    → All (λ (a : Attempt). a.user_id ≡ user_id → a.completed_at < w.now) w.tables.attempts
    → All (λ (r : AttemptAnswer). r.attempt_id < w.next_id) w.tables.answers
    → (submit_attempt user_id picks w).0 ≡ ok review
    → v.tables ≡ (submit_attempt user_id picks w).1.tables
    → v.faults ≡ []
    → (get_latest_attempt user_id v).0 ≡ ok review
get_latest-submit_attempt user_id picks w v review older earlier done tables f =
    let s = submit_attempt-Submitted user_id picks w review done in
    let a = review.attempt in
    let qs = list_questions_internal true w.tables.rows in
    let attempts : v.tables.attempts ≡ w.tables.attempts ++ a ∷ [] =
      ap (λ (t : ExamTables). t.attempts) tables ∙ s.added.attempts_added in
    let rows : v.tables.rows ≡ w.tables.rows =
      ap (λ (t : ExamTables). t.rows) tables ∙ s.added.same_rows in
    let answers : v.tables.answers
        ≡ w.tables.answers ++ map (answer_row a.id) (answers_for picks qs) =
      ap (λ (t : ExamTables). t.answers) tables ∙ s.added.answers_added in
    let latest : latest_of user_id v.tables.attempts none ≡ some a =
      rw attempts
        (latest_of-append user_id w.tables.attempts a none s.owned (rw s.stamped older) tt) in
    let kept : keep (is_for a.id) v.tables.answers ≡ map (answer_row a.id) (answers_for picks qs) =
      rw (answers, keep-append, keep_old w.next_id a.id w.tables.answers s.later_id earlier)
        (keep_new a.id (answers_for picks qs)) in
    let distinct = list_questions-HasDistinctIds true w.tables.rows in
    let same : review_stored (stored_picks (map (answer_row a.id) (answers_for picks qs)) []) qs
        ≡ review.questions =
      review_stored_lem _ picks qs (stored_here a.id picks qs [] distinct) ∙ sym s.reviews in
    get_latest_attempt_runs user_id v a f latest
    ∙ ap (λ (rs : List QuestionReview). ok (record { attempt = a; questions = rs }))
        (rw (rows, kept) same)
