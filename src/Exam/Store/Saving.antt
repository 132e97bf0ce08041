-- ===== src/Exam/Store/Saving.antt =====
-- What the statements of SubmitAttempt in internal/exam/store.go leave in the tables.
use mathlib.Core.Path.{subst}
use marco_api.Base.{List, [], ◌∷◌, ◌++◌, ◌≡◌, refl, ap, sym, ◌∙◌, arith, Uuid, map}
use mathlib.Core.List.{append_assoc, append-nil}
use marco_api.Base.Db.{ok, err, World, pure, on_error}
use marco_api.Base.Db.Success.{statement-Ran, on_error_ok}
use marco_api.Exam.{GradedAnswer, GradeResult}
use marco_api.Exam.Store.{
  Attempt, AttemptAnswer, ExamTables, ExamError, db, insert_attempt, answer_row, insert_answer,
  insert_answers, save_attempt,
}

-- What is in the tables after the rows of a paper are added.
pub record Added (before after : ExamTables) (attempts : List Attempt) (rows : List AttemptAnswer)
    : Type 0 where
  pub same_rows : after.rows ≡ before.rows
  pub attempts_added : after.attempts ≡ before.attempts ++ attempts
  pub answers_added : after.answers ≡ before.answers ++ rows

insert_answers-Added :
    (id : Uuid) (answers : List GradedAnswer) (w : World ExamTables)
    → (insert_answers id answers w).0 ≡ ok tt
    → Added w.tables (insert_answers id answers w).1.tables [] (map (answer_row id) answers)
unfolding insert_answers
insert_answers-Added id [] w h =
    unfold pure in
    record {
      same_rows = refl;
      attempts_added = sym (append-nil w.tables.attempts);
      answers_added = sym (append-nil w.tables.answers);
    }
insert_answers-Added id (ga ∷ answers) w h =
    let (u, stored, same) =
      on_error_ok (insert_answer id ga) db (λ _. insert_answers id answers) w tt h in
    let ran = statement-Ran _ w u stored in
    let rest = insert_answers-Added id answers (insert_answer id ga w).1 (rw same at h) in
    record {
      same_rows = rw same (rest.same_rows ∙ ap (λ (t : ExamTables). t.rows) ran.tables);
      attempts_added =
          rw same (rest.attempts_added ∙ ap (λ (t : ExamTables). t.attempts ++ []) ran.tables);
      answers_added = rw same (
          rest.answers_added
          ∙ ap (λ (t : ExamTables). t.answers ++ map (answer_row id) answers) ran.tables
          ∙ append_assoc w.tables.answers (answer_row id ga ∷ []) (map (answer_row id) answers));
    }

pub record Saved (owner : Uuid) (w : World ExamTables) (a : Attempt) : Type 0 where
  pub fresh_id : a.id ≡ w.next_id
  pub owned : a.user_id ≡ owner
  pub stamped : a.completed_at ≡ w.now

insert_attempt-Saved :
    (user_id : Uuid) (r : GradeResult) (w : World ExamTables) (a : Attempt)
    → (insert_attempt user_id r w).0 ≡ ok a
    → Saved user_id w a × Added w.tables (insert_attempt user_id r w).1.tables (a ∷ []) []
unfolding insert_attempt
insert_attempt-Saved user_id r w a h =
    let ran = statement-Ran _ w a h in
    let value = ran.value in
    let made = ran.tables in
    (
      record { fresh_id = ground arith; owned = ground arith; stamped = ground arith },
      record {
        same_rows = ap (λ (t : ExamTables). t.rows) made;
        attempts_added =
            ap (λ (t : ExamTables). t.attempts) made
            ∙ ap (λ (b : Attempt). w.tables.attempts ++ b ∷ []) (ground arith);
        answers_added = ap (λ (t : ExamTables). t.answers) made ∙ sym (append-nil w.tables.answers);
      },
    )

Added-trans :
    {s t u : ExamTables} (a : Attempt) (rows : List AttemptAnswer)
    → Added s t (a ∷ []) []
    → Added t u [] rows
    → Added s u (a ∷ []) rows
Added-trans {s} {t} {u} a rows st tu = record {
  same_rows = tu.same_rows ∙ st.same_rows;
  attempts_added = tu.attempts_added ∙ append-nil t.attempts ∙ st.attempts_added;
  answers_added =
      tu.answers_added ∙ ap (λ xs. xs ++ rows) (st.answers_added ∙ append-nil s.answers);
}

pub save_attempt-Saved :
    (user_id : Uuid) (r : GradeResult) (w : World ExamTables) (a : Attempt)
    → (save_attempt user_id r w).0 ≡ ok a
    → Saved user_id w a
      × Added w.tables
          (save_attempt user_id r w).1.tables
          (a ∷ [])
          (map (answer_row a.id) r.answers)
unfolding save_attempt
save_attempt-Saved user_id r w a h =
    let (b, inserted, same) =
      on_error_ok (insert_attempt user_id r) db
        (λ c. on_error (insert_answers c.id r.answers) (λ e. pure (err e)) (λ _. pure (ok c))) w a
        h in
    let w' = (insert_attempt user_id r w).1 in
    let (u, stored, same') =
      on_error_ok (insert_answers b.id r.answers) (λ (e : ExamError). e) (λ _. pure (ok b)) w' a
        (rw same at h) in
    let (saved, first) = insert_attempt-Saved user_id r w b inserted in
    let rest = insert_answers-Added b.id r.answers w' stored in
    let b_is_a : b ≡ a = unfold pure in cc (h, same, same') in
    subst
      (λ c.
        Saved user_id w c
        × Added w.tables (save_attempt user_id r w).1.tables (c ∷ [])
            (map (answer_row c.id) r.answers))
      b_is_a
      (
        saved,
        rw same
            (rw same' (unfold pure in Added-trans b (map (answer_row b.id) r.answers) first rest)),
      )
