-- ===== src/MatchPreparation/Tests.antt =====
-- Tests of the match preparations, and the theorems at concrete requests and tables.
use marco_api.Base.{
  ℕ, ◌≡◌, refl, arith, String, Bool, true, false, Option, none, some, List, [], ◌∷◌, ◌++◌, map,
  ◌==◌, ◌≤◌, ◌*◌, ◌+◌, ◌↔◌, length, count_where, All, str_eq, trim_space, Uuid, Time,
}
use marco_api.Base.Db.{ok, err}
use marco_api.Base.Db.Keeps.{Holds}
use marco_api.Base.Int.{pos, negsuc}
use marco_api.MatchPreparation.{
  Drill, Preparation, PreparationRow, DrillRow, PreparationTables, is_completed,
  compute_preparation_pct,
}
use marco_api.MatchPreparation.Percent.{
  compute_preparation_pct-nearest, compute_preparation_pct-full,
}
use marco_api.MatchPreparation.Validation.{
  DrillInput, CreateRequest, Checked, validate_create, validate_drills,
}
use marco_api.MatchPreparation.Validation.Bounds.{
  IsChecked, IsQueue, validate_create-IsChecked, validate_drills-IsQueue,
}
use marco_api.MatchPreparation.Suggestions.{Item, Suggestion, parse_suggestions, cut_bytes}
use marco_api.MatchPreparation.Suggestions.Bounds.{IsShort, parse_suggestions-bounds}
use marco_api.MatchPreparation.Store.{CreateParams, create, get}
use marco_api.MatchPreparation.Store.Editing.{UpdateParams, patched_row}
use marco_api.MatchPreparation.Store.Queue.{fair, input_of, create-get}
use marco_api.MatchPreparation.Store.Ownership.{
  Edit, replace_call, complete_call, delete_call, run_edits, Stays, run_edits-Stays,
}
use marco_api.MatchPreparation.Handler.{UpdateRequest, update_params}
use marco_api.MatchPreparation.Handler.Clearing.{blank_fields-patched_row}

abbrev drill : Uuid → ℕ → Bool → Drill
drill id i completed = record {
  id = id;
  position = i;
  title = "Bandeja";
  duration_seconds = 600;
  completed = completed;
  created_at = 5;
}

abbrev drills : List Drill
drills = drill 1 0 true ∷ drill 2 1 false ∷ drill 3 2 true ∷ []

pct_test : compute_preparation_pct drills ≡ 67
unfolding compute_preparation_pct count_where
pct_test = refl

compute_preparation_pct-nearest_example :
    (compute_preparation_pct drills ≤ 100)
    × (2 * (compute_preparation_pct drills * length drills)
        ≤ 200 * count_where is_completed drills + length drills)
    × (200 * count_where is_completed drills
        ≤ 2 * (compute_preparation_pct drills * length drills) + length drills)
compute_preparation_pct-nearest_example = compute_preparation_pct-nearest drills (omega arith)

compute_preparation_pct-full_example :
    (compute_preparation_pct drills ≡ 100) ↔ (count_where is_completed drills ≡ length drills)
compute_preparation_pct-full_example =
    compute_preparation_pct-full drills (omega arith) (omega arith)

abbrev input : String → ℕ → DrillInput
input title duration = record { title = title; duration_seconds = duration; completed = false }

abbrev request : CreateRequest
request = record {
  scheduled_at = " tomorrow ";
  opponents = " Ana " ∷ "" ∷ "Luis" ∷ [];
  partner_name = some "  ";
  court = some "4";
  note = none;
  drills = record { title = " Bandeja "; duration_seconds = pos 600; completed = false } ∷ [];
  message_id = none;
}

abbrev read_time : String → Option Time
read_time text = some 100

abbrev checked : Checked
checked = record {
  scheduled_at = 100;
  opponents = "Ana" ∷ "Luis" ∷ [];
  partner_name = none;
  court = some "4";
  note = none;
  drills = input "Bandeja" 600 ∷ [];
}

passes : validate_create read_time request ≡ ok checked
unfolding validate_create trim_space
passes = refl

validate_create-IsChecked_example : IsChecked checked
validate_create-IsChecked_example = validate_create-IsChecked read_time request checked passes

drills_pass : validate_drills request.drills ≡ ok checked.drills
unfolding validate_drills trim_space
drills_pass = refl

validate_drills-IsQueue_example : IsQueue checked.drills
validate_drills-IsQueue_example = validate_drills-IsQueue request.drills checked.drills drills_pass

negative_test :
    validate_drills (record { title = "x"; duration_seconds = negsuc 0; completed = true } ∷ [])
    ≡ err "drill 1: duration_seconds must be >= 0"
unfolding validate_drills trim_space marco_api.Base.decimal
negative_test = refl

abbrev items : String → Option (List Item)
items raw = some (
    record { title = "  "; duration_seconds = pos 90 }
    ∷ record { title = "Lobs"; duration_seconds = negsuc 4 }
    ∷ record { title = "Volleys"; duration_seconds = pos 5000 }
    ∷ [])

abbrev suggested : List Suggestion
suggested =
    record { title = "Lobs"; duration_seconds = 60 }
    ∷ record { title = "Volleys"; duration_seconds = 1800 }
    ∷ []

parses : parse_suggestions items "Here: [1, 2] ok" ≡ ok suggested
unfolding parse_suggestions trim_space
parses = refl

parse_suggestions-bounds_example :
    All IsShort suggested × (1 ≤ length suggested) × (length suggested ≤ 5)
parse_suggestions-bounds_example = parse_suggestions-bounds items "Here: [1, 2] ok" suggested parses

-- A cut inside a character leaves a broken one.
cut_test : cut_bytes 4 "ab — c" ≡ "ab �"
unfolding cut_bytes
cut_test = refl

abbrev row : Uuid → Uuid → PreparationRow
row id user_id = record {
  id = id;
  user_id = user_id;
  match_log_id = none;
  message_id = none;
  scheduled_at = 100;
  played_at = some 90;
  opponents = "Ana" ∷ [];
  partner_name = some "Luis";
  court = none;
  note = none;
  plan_grade = some "worked";
  created_at = 1;
  updated_at = 1;
}

abbrev held : Uuid → Drill → DrillRow
held id d = record { match_preparation_id = id; drill = d }

abbrev tables : PreparationTables
tables = record {
  preparations = row 1 7 ∷ row 2 8 ∷ [];
  drills = held 1 (drill 11 0 false) ∷ held 2 (drill 12 0 false) ∷ [];
  message_ids = 70 ∷ [];
  match_log_ids = [];
}

abbrev params : CreateParams
params = record {
  user_id = 7;
  scheduled_at = 200;
  opponents = [];
  partner_name = none;
  court = none;
  note = none;
  drills = input "Lobs" 60 ∷ input "Volleys" 90 ∷ [];
  message_id = some 70;
}

create-get_example :
    (r : Preparation) × ((create params (fair tables 500 30)).0 ≡ ok r)
    × ((get 7 r.id (create params (fair tables 500 30)).1).0 ≡ ok r)
    × (map input_of r.drills ≡ params.drills)
unfolding marco_api.Base.find_first
create-get_example = create-get params tables 500 30 refl (record {
  preparations = (omega arith, (omega arith, tt));
  drills = (omega arith, (omega arith, tt));
})

abbrev edits : List Edit
edits = delete_call 2 ∷ replace_call 2 [] ∷ complete_call 12 true ∷ delete_call 1 ∷ []

stays : Holds (Stays 2 (row 2 8) (held 2 (drill 12 0 false) ∷ [])) (fair tables 500 30)
unfolding marco_api.Base.keep
stays = (refl, refl)

run_edits-Stays_example :
    Holds
      (Stays 2 (row 2 8) (held 2 (drill 12 0 false) ∷ []))
      (run_edits 7 edits (fair tables 500 30))
run_edits-Stays_example =
    run_edits-Stays 2 7 (row 2 8) (held 2 (drill 12 0 false) ∷ []) refl edits (fair tables 500 30)
      stays

abbrev update_request : UpdateRequest
update_request = record {
  scheduled_at = none;
  opponents = none;
  partner_name = some " ";
  court = none;
  note = none;
  match_log_id = none;
  plan_grade = some "";
  played_at = some "";
}

abbrev update_asked : UpdateParams
update_asked = record {
  user_id = 7;
  id = 1;
  scheduled_at = none;
  opponents = none;
  partner_name = none;
  court = none;
  note = none;
  match_log_id = none;
  clear_match = false;
  plan_grade = none;
  clear_grade = true;
  played_at = none;
  clear_played = true;
}

abbrev read_uuid : String → Option Uuid
read_uuid text = none

asks : update_params read_uuid read_time 500 7 1 update_request ≡ ok update_asked
unfolding update_params trim_space
asks = refl

blank : str_eq (trim_space " ") "" ≡ true
unfolding trim_space
blank = refl

blank_fields-patched_row_example :
    ((patched_row update_asked 600 (row 1 7)).plan_grade ≡ none)
    × ((patched_row update_asked 600 (row 1 7)).played_at ≡ none)
    × ((patched_row update_asked 600 (row 1 7)).partner_name ≡ some "Luis")
blank_fields-patched_row_example =
    blank_fields-patched_row read_uuid read_time 500 600 7 1 update_request update_asked (row 1 7)
      " " asks refl blank refl refl
