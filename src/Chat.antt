-- ===== src/Chat.antt =====
-- internal/chat: the messages between a user and Marco. This file is model.go, the rows of the table and the
-- page of a history.
pub mod Store
pub mod Paging
pub mod Handler
pub mod Scrolling
mod Tests
use marco_api.Base.{
  ℕ, suc, String, Bool, true, false, Option, none, some, List, [], ◌∷◌, reverse, ◌==◌, ◌&&◌, ltb,
  length, take, drop, if◌then◌else◌, Uuid, Time,
}
use marco_api.Base.Int.{ℤ}
use marco_api.Marco.{LessonRef, MatchLogToken, MatchPrepToken}

-- A row of messages. The column lesson_refs holds the JSON of the refs, which encoding/json reads back.
pub record MessageRow : Type 0 where
  pub id : Uuid
  pub user_id : Uuid
  pub role : String
  pub content : String
  pub lesson_refs : List LessonRef
  pub feedback_score : ℤ
  pub created_at : Time
  pub deleted_at : Option Time

pub record Message : Type 0 where
  pub id : Uuid
  pub role : String
  pub content : String
  pub lesson_refs : List LessonRef
  pub feedback_score : ℤ
  pub created_at : Time
  pub match_log_prefill : Option MatchLogToken
  pub match_logged : Bool
  pub match_prep_prefill : Option MatchPrepToken
  pub match_preparation_id : Option Uuid

-- A row of match_preparation that was made from a message.
pub record Spawned : Type 0 where
  pub preparation_id : Uuid
  pub message_id : Uuid

-- logged_messages are the message_id columns of match_logs.
pub record ChatTables : Type 0 where
  pub messages : List MessageRow
  pub logged_messages : List Uuid
  pub spawned : List Spawned

abbrev is_nil {ℓ} : {A : Type ℓ} → List A → Bool
is_nil [] = true
is_nil (_ ∷ _) = false

module _ {ℓ} {A : Type ℓ} (created_at : A → Time) where
  -- The messages up to the last one that is not of an instant.
  unfoldable pub drop_trailing : Time → List A → List A
  drop_trailing t [] = []
  drop_trailing t (m ∷ ms) =
      let rest = drop_trailing t ms in if is_nil rest && created_at m == t then [] else m ∷ rest

  abbrev pub unless_empty : List A → List A → List A
  unless_empty page [] = page
  unless_empty page (m ∷ ms) = m ∷ ms

  abbrev pub cut_before : List A → List A → List A
  cut_before page [] = page
  cut_before page (next ∷ _) = unless_empty page (drop_trailing (created_at next) page)

  -- The end of GetHistory, from the newest message to the oldest: the page, and whether older messages exist.
  unfoldable pub cut_page : ℕ → List A → List A × Bool
  unfolding take drop drop_trailing
  cut_page limit ms =
      if ltb limit (length ms)
      then (cut_before (take limit ms) (drop limit ms), true)
      else (ms, false)
