-- ===== src/Exam/Handler.antt =====
-- internal/exam/handler.go. A request carries the user id that the middleware has set, if any, and
-- the body that fiber has parsed, if it could; uuid.Parse is a parameter.
pub mod Answers
use marco_api.Base.{
  String, Option, none, some, List, [], ◌∷◌, length, Uuid, Reply, json, problem, signed_in,
}
use marco_api.Base.Db.{no_rows, failed, Result, ok, err, Db, pure, on_error}
use marco_api.Exam.{Question, Picks}
use marco_api.Exam.Store.{
  AttemptReview, ExamTables, not_on_question, list_questions, submit_attempt, get_latest_attempt,
}

pub record SubmitAnswerInput : Type 0 where
  pub question_id : String
  pub selected_option_id : Option String

unfoldable pub list_questions_handler : Option Uuid → Db ExamTables (Reply (List Question))
list_questions_handler user = elim (signed_in user) [
  | none ↦ pure (problem 401 "unauthorized")
  | some _ ↦
      on_error list_questions (λ _. pure (problem 500 "internal server error"))
        (λ qs. pure (json 200 qs))
]

module _ (parse_uuid : String → Option Uuid) where
  -- The loop over req.Answers; an error is the message of the 422.
  unfoldable pub collect_picks : List SubmitAnswerInput → Picks → Result String Picks
  collect_picks [] picks = ok picks
  collect_picks (a ∷ answers) picks = elim (parse_uuid a.question_id) [
    | none ↦ err "invalid question_id"
    | some qid ↦ elim a.selected_option_id [
      | none ↦ collect_picks answers picks
      | some text ↦ elim (parse_uuid text) [
        | none ↦ err "invalid selected_option_id"
        | some oid ↦ collect_picks answers ((qid, oid) ∷ picks)
      ]
    ]
  ]

  unfoldable pub submit_attempt_handler :
      Option Uuid → Option (List SubmitAnswerInput) → Db ExamTables (Reply AttemptReview)
  submit_attempt_handler user body = elim (signed_in user) [
    | none ↦ pure (problem 401 "unauthorized")
    | some user_id ↦ elim body [
      | none ↦ pure (problem 400 "invalid request body")
      | some answers ↦ elim (collect_picks answers []) [
        | err message ↦ pure (problem 422 message)
        | ok picks ↦
            on_error (submit_attempt user_id picks)
              (elim [
                | not_on_question _ _ ↦
                    pure (problem 422 "selected_option_id does not belong to its question")
                | _ ↦ pure (problem 500 "internal server error")
              ])
              (λ review. pure (json 201 review))
      ]
    ]
  ]

unfoldable pub get_latest_attempt_handler : Option Uuid → Db ExamTables (Reply AttemptReview)
get_latest_attempt_handler user = elim (signed_in user) [
  | none ↦ pure (problem 401 "unauthorized")
  | some user_id ↦
      on_error (get_latest_attempt user_id)
        (elim [
          | no_rows ↦ pure (problem 404 "no attempt yet")
          | failed ↦ pure (problem 500 "internal server error")
        ])
        (λ review. pure (json 200 review))
]
