-- ===== src/MatchPreparation/Handler.antt =====
-- internal/match_preparation/handler.go. A request carries the user id that the middleware has set, if
-- any, the path parameter and the body that fiber has parsed, if it could. uuid.Parse, time.Parse, the model
-- client, the context assembler and json.Unmarshal are parameters.
pub mod Clearing
use marco_api.Base.{
  String, Bool, true, false, Option, none, some, List, ◌||◌, str_eq, if◌then◌else◌, Uuid, Time,
  Reply, json, problem, bare, signed_in,
}
use marco_api.Base.Db.{and_then, World, Result, ok, err, Db, pure, on_error, ◌>>=◌}
use marco_api.Anthropic.{StreamEvent}
use marco_api.MatchPreparation.{Drill, Preparation, PreparationTables}
use marco_api.MatchPreparation.Validation.{
  DrillRequest, DrillInput, CreateRequest, Checked, clean_opponents, validate_drills, optional_text,
  validate_create,
}
use marco_api.MatchPreparation.Suggestions.{Item, Suggestion, SuggesterError, call_suggester}
use marco_api.MatchPreparation.Store.{
  CreateParams, PreparationError, not_found, db, Prep, create, get, list,
}
use marco_api.MatchPreparation.Store.Editing.{
  UpdateParams, update, replace_drills, set_drill_completed, delete,
}

pub record UpdateRequest : Type 0 where
  pub scheduled_at : Option String
  pub opponents : Option (List String)
  pub partner_name : Option String
  pub court : Option String
  pub note : Option String
  pub match_log_id : Option String
  pub plan_grade : Option String
  pub played_at : Option String

unfoldable pub list_handler : Option Uuid → Prep (Reply (List Preparation))
list_handler user = elim (signed_in user) [
  | none ↦ pure (problem 401 "unauthorized")
  | some user_id ↦
      on_error (list user_id) (λ _. pure (problem 500 "failed to list preparation"))
        (λ items. pure (json 200 items))
]

-- ErrNotFound is a 404, and any other error of the store a 500.
abbrev pub store_problem {ℓ} : {A : Type ℓ} → String → String → PreparationError → Reply A
store_problem missing message not_found = problem 404 missing
store_problem missing message (db _) = problem 500 message

abbrev pub checked_params : Uuid → Checked → Option Uuid → CreateParams
checked_params user_id c message_id = record {
  user_id = user_id;
  scheduled_at = c.scheduled_at;
  opponents = c.opponents;
  partner_name = c.partner_name;
  court = c.court;
  note = c.note;
  drills = c.drills;
  message_id = message_id;
}

-- An optional field of the update: what its code makes of it when it is given.
abbrev pub given {ℓ κ} :
    {A : Type ℓ} {B : Type κ} → (A → Result String (Option B)) → Option A → Result String (Option B)
given f none = ok none
given f (some a) = f a

abbrev pub keep_some {ℓ} : {A : Type ℓ} → Result String A → Result String (Option A)
keep_some (err e) = err e
keep_some (ok a) = ok (some a)

abbrev pub parsed_or {ℓ} : {A : Type ℓ} → String → Option A → Result String (Option A)
parsed_or message none = err message
parsed_or message (some a) = ok (some a)

unfoldable pub check_grade : String → Result String (Option String)
check_grade g =
    if str_eq g ""
    then ok none
    else if str_eq g "worked" || (str_eq g "mixed" || str_eq g "missed")
    then ok (some g)
    else err "plan_grade must be worked, mixed, missed, or empty"

-- A field that is given and empty asks for NULL.
abbrev pub cleared : Option String → Bool
cleared none = false
cleared (some s) = str_eq s ""

-- The checks of Update, the first error of which is the answer.
unfoldable pub checked_update :
    Uuid
    → Uuid
    → UpdateRequest
    → Result String (Option Time)
    → Result String (Option (List String))
    → Result String (Option String)
    → Result String (Option String)
    → Result String (Option String)
    → Result String (Option Uuid)
    → Result String (Option String)
    → Result String (Option Time)
    → Result String UpdateParams
unfolding and_then
checked_update user_id id req r0 r1 r2 r3 r4 r5 r6 r7 = and_then r0 λ scheduled_at.
    and_then r1 λ opponents. and_then r2 λ partner_name. and_then r3 λ court. and_then r4 λ note.
      and_then r5 λ match_log_id. and_then r6 λ plan_grade. and_then r7 λ played_at. ok (record {
        user_id = user_id;
        id = id;
        scheduled_at = scheduled_at;
        opponents = opponents;
        partner_name = partner_name;
        court = court;
        note = note;
        match_log_id = match_log_id;
        clear_match = cleared req.match_log_id;
        plan_grade = plan_grade;
        clear_grade = cleared req.plan_grade;
        played_at = played_at;
        clear_played = cleared req.played_at;
      })

module _ (parse_uuid : String → Option Uuid) (parse_time : String → Option Time) where
  unfoldable pub check_message_id : Option String → Result String (Option Uuid)
  check_message_id none = ok none
  check_message_id (some text) =
      if str_eq text "" then ok none else parsed_or "invalid message_id" (parse_uuid text)

  unfoldable pub create_handler : Option Uuid → Option CreateRequest → Prep (Reply Preparation)
  unfolding check_message_id
  create_handler user body = elim (signed_in user) [
    | none ↦ pure (problem 401 "unauthorized")
    | some user_id ↦ elim body [
      | none ↦ pure (problem 400 "invalid request body")
      | some req ↦ elim (validate_create parse_time req) [
        | err message ↦ pure (problem 400 message)
        | ok c ↦ elim (check_message_id req.message_id) [
          | err message ↦ pure (problem 400 message)
          | ok message_id ↦
              on_error (create (checked_params user_id c message_id))
                (λ _. pure (problem 500 "failed to create preparation")) (λ r. pure (json 201 r))
        ]
      ]
    ]
  ]

  unfoldable pub get_handler : Option Uuid → String → Prep (Reply Preparation)
  get_handler user id_param = elim (signed_in user) [
    | none ↦ pure (problem 401 "unauthorized")
    | some user_id ↦ elim (parse_uuid id_param) [
      | none ↦ pure (problem 400 "invalid id")
      | some id ↦
          on_error (get user_id id)
            (λ e. pure (store_problem "preparation not found" "failed to load preparation" e))
            (λ r. pure (json 200 r))
    ]
  ]

  unfoldable pub check_match_log_id : String → Result String (Option Uuid)
  check_match_log_id text =
      if str_eq text "" then ok none else parsed_or "invalid match_log_id" (parse_uuid text)

  unfoldable pub check_played_at : Time → String → Result String (Option Time)
  check_played_at now text =
      if str_eq text ""
      then ok none
      else if str_eq text "now"
      then ok (some now)
      else parsed_or "played_at must be RFC3339, \"now\", or empty" (parse_time text)

  unfoldable pub update_params : Time → Uuid → Uuid → UpdateRequest → Result String UpdateParams
  unfolding checked_update clean_opponents optional_text check_match_log_id check_grade
      check_played_at
  update_params now user_id id req =
      checked_update user_id id req
        (given (λ t. parsed_or "scheduled_at must be RFC3339" (parse_time t)) req.scheduled_at)
        (given (λ o. keep_some (clean_opponents o)) req.opponents)
        (optional_text 100 "partner_name must be 100 characters or fewer" req.partner_name)
        (optional_text 50 "court must be 50 characters or fewer" req.court)
        (optional_text 200 "note must be 200 characters or fewer" req.note)
        (given check_match_log_id req.match_log_id) (given check_grade req.plan_grade)
        (given (check_played_at now) req.played_at)

  unfoldable pub update_handler :
      Option Uuid → String → Option UpdateRequest → Prep (Reply Preparation)
  unfolding update_params
  update_handler user id_param body w = elim (signed_in user) [
    | none ↦ pure (problem 401 "unauthorized") w
    | some user_id ↦ elim (parse_uuid id_param) [
      | none ↦ pure (problem 400 "invalid id") w
      | some id ↦ elim body [
        | none ↦ pure (problem 400 "invalid request body") w
        | some req ↦ elim (update_params w.now user_id id req) [
          | err message ↦ pure (problem 400 message) w
          | ok params ↦
              on_error (update params)
                (λ e. pure (store_problem "preparation not found" "failed to update preparation" e))
                (λ r. pure (json 200 r)) w
        ]
      ]
    ]
  ]

  unfoldable pub replace_drills_handler :
      Option Uuid → String → Option (List DrillRequest) → Prep (Reply Preparation)
  replace_drills_handler user id_param body = elim (signed_in user) [
    | none ↦ pure (problem 401 "unauthorized")
    | some user_id ↦ elim (parse_uuid id_param) [
      | none ↦ pure (problem 400 "invalid id")
      | some id ↦ elim body [
        | none ↦ pure (problem 400 "invalid request body")
        | some requests ↦ elim (validate_drills requests) [
          | err message ↦ pure (problem 400 message)
          | ok drills ↦
              on_error (replace_drills user_id id drills)
                (λ e. pure (store_problem "preparation not found" "failed to update drills" e))
                (λ r. pure (json 200 r))
        ]
      ]
    ]
  ]

  unfoldable pub toggle_drill_handler : Option Uuid → String → Option Bool → Prep (Reply Drill)
  toggle_drill_handler user id_param body = elim (signed_in user) [
    | none ↦ pure (problem 401 "unauthorized")
    | some user_id ↦ elim (parse_uuid id_param) [
      | none ↦ pure (problem 400 "invalid drill id")
      | some drill_id ↦ elim body [
        | none ↦ pure (problem 400 "invalid request body")
        | some completed ↦
            on_error (set_drill_completed user_id drill_id completed)
              (λ e. pure (store_problem "drill not found" "failed to toggle drill" e))
              (λ d. pure (json 200 d))
      ]
    ]
  ]

  unfoldable pub delete_handler : Option Uuid → String → Prep (Reply (Unit {0}))
  delete_handler user id_param = elim (signed_in user) [
    | none ↦ pure (problem 401 "unauthorized")
    | some user_id ↦ elim (parse_uuid id_param) [
      | none ↦ pure (problem 400 "invalid id")
      | some id ↦
          on_error (delete user_id id)
            (λ e. pure (store_problem "preparation not found" "failed to delete preparation" e))
            (λ _. pure (bare 204))
    ]
  ]

  module _ {Context : Type 0} (assemble : Uuid → Db PreparationTables (Option Context))
      (stream : Context → Preparation → List StreamEvent)
      (unmarshal : String → Option (List Item)) where
    unfoldable pub suggest_drills_handler : Option Uuid → String → Prep (Reply (List Suggestion))
    unfolding call_suggester
    suggest_drills_handler user id_param = elim (signed_in user) [
      | none ↦ pure (problem 401 "unauthorized")
      | some user_id ↦ elim (parse_uuid id_param) [
        | none ↦ pure (problem 400 "invalid id")
        | some id ↦
            on_error (get user_id id)
              (λ e. pure (store_problem "preparation not found" "failed to load preparation" e))
              λ r. assemble user_id >>= elim [
                | none ↦ pure (problem 500 "failed to load context")
                | some context ↦ elim (call_suggester unmarshal (stream context r)) [
                  | err _ ↦ pure (problem 502 "failed to fetch suggestions")
                  | ok suggestions ↦ pure (json 200 suggestions)
                ]
              ]
      ]
    ]
