-- ===== src/Anthropic.antt =====
-- internal/anthropic/types.go: what a model reply arrives as. The two channels of a stream are read by one
-- select, so a reader sees one sequence of events; both channels closed is the end of the
-- sequence. A request that is cancelled is a failure too.
use marco_api.Base.{String, Bool}

pub record StreamChunk : Type 0 where
  pub text : String
  pub is_done : Bool
  pub final_text : String

pub data StreamEvent : Type 0 where
  chunk : StreamChunk → StreamEvent
  failure : StreamEvent

pub data Role : Type 0 where
  role_user role_assistant : Role

-- Message: what was said, and by whom.
pub record Said : Type 0 where
  pub role : Role
  pub content : String
