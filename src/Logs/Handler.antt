-- ===== src/Logs/Handler.antt =====
-- internal/logs/handler.go. A request carries the user id that the middleware has set, if any, the path
-- parameter and the body that fiber has parsed, if it could. uuid.Parse and time.Parse are parameters. The loop over
-- the opponents is the one of cleanOpponents of internal/match_preparation, word for word.
use marco_api.Base.{
  String, len, count, Option, none, some, List, ◌||◌, ltb, str_eq, if◌then◌else◌, trim_space, Uuid,
  Time, Reply, json, problem, signed_in,
}
use marco_api.Base.Db.{no_rows, failed, DbError, Result, ok, err, and_then, Db, pure, on_error}
use marco_api.MatchPreparation.Validation.{clean_opponents}
use marco_api.Logs.{
  MatchLog, PartnerSuggestion, LogTables, CreateMatchParams, UpdateMatchParams, create_match,
  update_match, list_matches, list_partners,
}

pub record CreateMatchRequest : Type 0 where
  pub played_on : String
  pub result : Option String
  pub feeling : Option String
  pub note : Option String
  pub partner_name : Option String
  pub opponents : List String
  pub message_id : Option String

-- The results of validateMatchInput but the error, with the partner that it writes back into the request.
pub record MatchInput : Type 0 where
  pub played_on : Time
  pub partner_name : Option String
  pub opponents : List String

unfoldable pub check_result : Option String → Result String (Unit {0})
check_result none = err "result is required"
check_result (some r) =
    if str_eq r "won" || (str_eq r "lost" || str_eq r "draw")
    then ok tt
    else err "result must be won, lost, or draw"

unfoldable pub check_feeling : Option String → Result String (Unit {0})
check_feeling none = ok tt
check_feeling (some f) =
    if ltb 50 (len f) then err "feeling must be 50 characters or fewer" else ok tt

unfoldable pub check_note : Option String → Result String (Unit {0})
check_note none = ok tt
check_note (some n) =
    if ltb 2000 (count n) then err "note must be 2000 characters or fewer" else ok tt

unfoldable pub trimmed_partner : Option String → Option String
trimmed_partner none = none
trimmed_partner (some name) =
    let trimmed = trim_space name in if str_eq trimmed "" then none else some trimmed

module _ (parse_uuid : String → Option Uuid) (parse_date : String → Option Time) where
  unfoldable pub check_played_on : String → Result String Time
  check_played_on text =
      let trimmed = trim_space text in
      if str_eq trimmed ""
      then err "played_on is required"
      else elim (parse_date trimmed) [ none ↦ err "played_on must be YYYY-MM-DD" | some t ↦ ok t ]

  unfoldable pub validate_match_input : CreateMatchRequest → Result String MatchInput
  unfolding and_then check_played_on check_result check_feeling check_note clean_opponents
      trimmed_partner
  validate_match_input req = and_then (check_played_on req.played_on) λ played_on.
      and_then (check_result req.result) λ _. and_then (check_feeling req.feeling) λ _.
        and_then (check_note req.note) λ _. and_then (clean_opponents req.opponents) λ opponents.
          ok (record {
            played_on = played_on;
            partner_name = trimmed_partner req.partner_name;
            opponents = opponents;
          })

  unfoldable pub check_message : Option String → Result String (Option Uuid)
  check_message none = ok none
  check_message (some text) =
      if str_eq text ""
      then ok none
      else elim (parse_uuid text) [ none ↦ err "invalid message_id" | some id ↦ ok (some id) ]

  abbrev pub create_match_params :
      Uuid → CreateMatchRequest → MatchInput → Option Uuid → CreateMatchParams
  create_match_params user_id req input message_id = record {
    user_id = user_id;
    result = req.result;
    feeling = req.feeling;
    note = req.note;
    partner_name = input.partner_name;
    opponents = input.opponents;
    played_on = input.played_on;
    message_id = message_id;
  }

  unfoldable pub create_match_handler :
      Option Uuid → Option CreateMatchRequest → Db LogTables (Reply MatchLog)
  unfolding validate_match_input check_message
  create_match_handler user body = elim (signed_in user) [
    | none ↦ pure (problem 401 "unauthorized")
    | some user_id ↦ elim body [
      | none ↦ pure (problem 400 "invalid request body")
      | some req ↦ elim (validate_match_input req) [
        | err message ↦ pure (problem 400 message)
        | ok input ↦ elim (check_message req.message_id) [
          | err message ↦ pure (problem 400 message)
          | ok message_id ↦
              on_error (create_match (create_match_params user_id req input message_id))
                (λ _. pure (problem 500 "failed to create match log")) (λ m. pure (json 201 m))
        ]
      ]
    ]
  ]

  abbrev pub update_match_params : Uuid → Uuid → CreateMatchRequest → MatchInput → UpdateMatchParams
  update_match_params user_id match_id req input = record {
    user_id = user_id;
    match_id = match_id;
    result = req.result;
    feeling = req.feeling;
    note = req.note;
    partner_name = input.partner_name;
    opponents = input.opponents;
    played_on = input.played_on;
  }

  -- UpdateMatch of the store answers ErrMatchNotFound where no row is met.
  abbrev update_problem : DbError → Reply MatchLog
  update_problem no_rows = problem 404 "match not found"
  update_problem failed = problem 500 "failed to update match log"

  unfoldable pub update_match_handler :
      Option Uuid → String → Option CreateMatchRequest → Db LogTables (Reply MatchLog)
  unfolding validate_match_input
  update_match_handler user id_param body = elim (signed_in user) [
    | none ↦ pure (problem 401 "unauthorized")
    | some user_id ↦ elim (parse_uuid id_param) [
      | none ↦ pure (problem 400 "invalid match id")
      | some match_id ↦ elim body [
        | none ↦ pure (problem 400 "invalid request body")
        | some req ↦ elim (validate_match_input req) [
          | err message ↦ pure (problem 400 message)
          | ok input ↦
              on_error (update_match (update_match_params user_id match_id req input))
                (λ e. pure (update_problem e)) (λ m. pure (json 200 m))
        ]
      ]
    ]
  ]

unfoldable pub list_matches_handler : Option Uuid → Db LogTables (Reply (List MatchLog))
list_matches_handler user = elim (signed_in user) [
  | none ↦ pure (problem 401 "unauthorized")
  | some user_id ↦
      on_error (list_matches user_id) (λ _. pure (problem 500 "failed to list matches"))
        (λ ms. pure (json 200 ms))
]

unfoldable pub list_partners_handler : Option Uuid → Db LogTables (Reply (List PartnerSuggestion))
list_partners_handler user = elim (signed_in user) [
  | none ↦ pure (problem 401 "unauthorized")
  | some user_id ↦
      on_error (list_partners user_id) (λ _. pure (problem 500 "failed to list partners"))
        (λ ps. pure (json 200 ps))
]
