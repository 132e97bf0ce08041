-- ===== src/MatchPreparation/Validation.antt =====
-- internal/match_preparation/handler.go: the checks of the request bodies.
pub mod Bounds
use marco_api.Base.{
  ℕ, suc, ◌+◌, String, len, Bool, Option, none, some, List, [], ◌∷◌, ltb, length, str_eq,
  if◌then◌else◌, trim_space, decimal, ◌<>◌, Time,
}
use marco_api.Base.Db.{Result, ok, err}
use marco_api.Base.Int.{ℤ, pos, negsuc}

pub record DrillRequest : Type 0 where
  pub title : String
  pub duration_seconds : ℤ
  pub completed : Bool

-- A duration is not negative once it is checked.
pub record DrillInput : Type 0 where
  pub title : String
  pub duration_seconds : ℕ
  pub completed : Bool

pub record CreateRequest : Type 0 where
  pub scheduled_at : String
  pub opponents : List String
  pub partner_name : Option String
  pub court : Option String
  pub note : Option String
  pub drills : List DrillRequest
  pub message_id : Option String

-- The seven results of validateCreate but the error.
pub record Checked : Type 0 where
  pub scheduled_at : Time
  pub opponents : List String
  pub partner_name : Option String
  pub court : Option String
  pub note : Option String
  pub drills : List DrillInput

-- The loop of cleanOpponents.
unfoldable pub trim_opponents : List String → Result String (List String)
trim_opponents [] = ok []
trim_opponents (name ∷ names) =
    let rest = trim_opponents names in
    let trimmed = trim_space name in
    if str_eq trimmed ""
    then rest
    else if ltb 100 (len trimmed)
    then err "opponent name must be 100 characters or fewer"
    else elim rest [ err e ↦ err e | ok out ↦ ok (trimmed ∷ out) ]

abbrev at_most_three : List String → Result String (List String)
at_most_three out = if ltb 3 (length out) then err "at most 3 opponents allowed" else ok out

unfoldable pub clean_opponents : List String → Result String (List String)
unfolding trim_opponents
clean_opponents input = elim (trim_opponents input) [ err e ↦ err e | ok out ↦ at_most_three out ]

abbrev drill_message : ℕ → String → String
drill_message i what = "drill " <> (decimal (suc i) <> (": " <> what))

-- One round of the loop of validateDrills, at index i.
unfoldable pub validate_drill : ℕ → DrillRequest → Result String DrillInput
validate_drill i d =
    let title = trim_space d.title in
    if str_eq title ""
    then err (drill_message i "title is required")
    else if ltb 200 (len title)
    then err (drill_message i "title must be 200 characters or fewer")
    else elim d.duration_seconds [
      | negsuc _ ↦ err (drill_message i "duration_seconds must be >= 0")
      | pos duration ↦
          if ltb 7200 duration
          then err (drill_message i "duration_seconds must be <= 7200")
          else ok (record { title = title; duration_seconds = duration; completed = d.completed })
    ]

unfoldable pub validate_each : ℕ → List DrillRequest → Result String (List DrillInput)
unfolding validate_drill
validate_each i [] = ok []
validate_each i (d ∷ drills) = elim (validate_drill i d) [
  | err e ↦ err e
  | ok input ↦ elim (validate_each (suc i) drills) [ err e ↦ err e | ok out ↦ ok (input ∷ out) ]
]

unfoldable pub validate_drills : List DrillRequest → Result String (List DrillInput)
unfolding validate_each
validate_drills input =
    if ltb 20 (length input) then err "at most 20 drills allowed" else validate_each 0 input

-- A text field that may be left out: blank counts as left out.
unfoldable pub optional_text : ℕ → String → Option String → Result String (Option String)
optional_text limit message none = ok none
optional_text limit message (some text) =
    let trimmed = trim_space text in
    if str_eq trimmed ""
    then ok none
    else if ltb limit (len trimmed)
    then err message
    else ok (some trimmed)

module _ (parse_time : String → Option Time) where
  unfoldable pub validate_scheduled_at : String → Result String Time
  validate_scheduled_at text =
      let trimmed = trim_space text in
      if str_eq trimmed ""
      then err "scheduled_at is required"
      else elim (parse_time trimmed) [ none ↦ err "scheduled_at must be RFC3339" | some t ↦ ok t ]

  unfoldable pub validate_create : CreateRequest → Result String Checked
  unfolding validate_scheduled_at clean_opponents optional_text validate_drills
  validate_create req = elim (validate_scheduled_at req.scheduled_at) [
    | err e ↦ err e
    | ok scheduled_at ↦ elim (clean_opponents req.opponents) [
      | err e ↦ err e
      | ok opponents ↦
          elim (optional_text 100 "partner_name must be 100 characters or fewer" req.partner_name) [
            | err e ↦ err e
            | ok partner ↦
                elim (optional_text 50 "court must be 50 characters or fewer" req.court) [
                  | err e ↦ err e
                  | ok court ↦
                      elim (optional_text 200 "note must be 200 characters or fewer" req.note) [
                        | err e ↦ err e
                        | ok note ↦ elim (validate_drills req.drills) [
                          | err e ↦ err e
                          | ok drills ↦ ok (record {
                            scheduled_at = scheduled_at;
                            opponents = opponents;
                            partner_name = partner;
                            court = court;
                            note = note;
                            drills = drills;
                          })
                        ]
                      ]
                ]
          ]
    ]
  ]
