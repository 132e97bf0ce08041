-- ===== src/Marco.antt =====
-- internal/marco: the tokens that Marco writes into a reply, and the text without them. A Go string is
-- a text of characters here: every byte that the scans look for is ASCII, and no part of a longer
-- character.
pub mod Braces
pub mod Tokens
mod Tests
use marco_api.Base.{ℕ, String, Option, List}

pub record LessonRef : Type 0 where
  pub id : String
  pub title : String

pub record MatchLogToken : Type 0 where
  pub result : String
  pub played_on : String
  pub note : String
  pub feeling : String
  pub partner_name : String
  pub opponents : List String

pub record MatchPrepDrill : Type 0 where
  pub title : String
  pub duration_seconds : ℕ

pub record MatchPrepToken : Type 0 where
  pub mode : String
  pub id : String
  pub scheduled_at : String
  pub opponents : List String
  pub partner_name : String
  pub court : String
  pub note : String
  pub drills : List MatchPrepDrill
