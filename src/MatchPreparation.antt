-- ===== src/MatchPreparation.antt =====
-- internal/match_preparation: preparation diaries of matches, with their drill queues. This file is
-- model.go and the rows of the two tables.
pub mod Percent
pub mod Validation
pub mod Suggestions
pub mod Store
pub mod Handler
mod Tests
use marco_api.Base.{
  ℕ, ◌+◌, ◌*◌, ◌/◌, String, Bool, Option, List, ◌==◌, length, count_where, if◌then◌else◌, Uuid,
  Time,
}

pub record Drill : Type 0 where
  pub id : Uuid
  pub position : ℕ
  pub title : String
  pub duration_seconds : ℕ
  pub completed : Bool
  pub created_at : Time

pub record Preparation : Type 0 where
  pub id : Uuid
  pub user_id : Uuid
  pub match_log_id : Option Uuid
  pub message_id : Option Uuid
  pub scheduled_at : Time
  pub played_at : Option Time
  pub opponents : List String
  pub partner_name : Option String
  pub court : Option String
  pub note : Option String
  pub plan_grade : Option String
  pub preparation_pct : ℕ
  pub drills : List Drill
  pub created_at : Time
  pub updated_at : Time

-- A row of match_preparation.
pub record PreparationRow : Type 0 where
  pub id : Uuid
  pub user_id : Uuid
  pub match_log_id : Option Uuid
  pub message_id : Option Uuid
  pub scheduled_at : Time
  pub played_at : Option Time
  pub opponents : List String
  pub partner_name : Option String
  pub court : Option String
  pub note : Option String
  pub plan_grade : Option String
  pub created_at : Time
  pub updated_at : Time

-- A row of match_preparation_drills.
pub record DrillRow : Type 0 where
  pub match_preparation_id : Uuid
  pub drill : Drill

-- The ids of the tables messages and match_logs are what the foreign keys meet.
pub record PreparationTables : Type 0 where
  pub preparations : List PreparationRow
  pub drills : List DrillRow
  pub message_ids : List Uuid
  pub match_log_ids : List Uuid

abbrev pub is_completed : Drill → Bool
is_completed d = d.completed

unfoldable pub compute_preparation_pct : List Drill → ℕ
compute_preparation_pct drills =
    if length drills == 0
    then 0
    else (count_where is_completed drills * 100 + length drills / 2) / length drills
