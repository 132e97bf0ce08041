-- ===== src/Chat/Handler.antt =====
-- internal/chat/handler.go. A request carries the user id that the middleware has set, if any, its parameters
-- and the body that fiber has parsed, if it could. strconv.Atoi, time.Parse, uuid.Parse, json.Unmarshal, the context
-- assembler and the model client are parameters. A write to the client that fails is a fault of the writer.
pub mod Saving
use marco_api.Base.{
  ℕ, String, count, Bool, true, false, Option, none, some, List, [], ◌∷◌, ◌++◌, ◌==◌, ◌||◌, ltb,
  str_eq, if◌then◌else◌, trim_space, Uuid, nil_uuid, Time, Reply, json, problem, bare, signed_in,
}
use marco_api.Base.Db.{DbError, no_rows, failed, Result, ok, err, Db, pure, on_error, ◌>>=◌}
use marco_api.Base.Int.{ℤ, pos, negsuc}
use marco_api.Anthropic.{StreamChunk, StreamEvent, chunk, failure, Said, role_user}
use marco_api.Marco.{MatchLogToken, MatchPrepToken}
use marco_api.Marco.Tokens.{parse_lesson_refs, parse_match_log_token, parse_match_prep_token}
use marco_api.Chat.{Message, ChatTables}
use marco_api.Chat.Store.{save_turn, get_history, set_feedback, soft_delete}

-- The JSON of a page.
pub record History : Type 0 where
  pub messages : List Message
  pub has_more : Bool

module _ (atoi : String → Option ℤ) (parse_time : String → Option Time) where
  abbrev positive : ℤ → Option ℤ
  positive (negsuc _) = none
  positive (pos n) = if n == 0 then none else some (pos n)

  -- `limit` of the query: absent is 0, which the store reads as its default.
  unfoldable pub parse_limit : String → Option ℤ
  parse_limit raw =
      if str_eq raw "" then some (pos 0) else elim (atoi raw) [ none ↦ none | some n ↦ positive n ]

  unfoldable pub parse_before : String → Option (Option Time)
  parse_before raw =
      if str_eq raw ""
      then some none
      else elim (parse_time raw) [ none ↦ none | some t ↦ some (some t) ]

  module _ (unmarshal_log : String → Option MatchLogToken)
      (unmarshal_prep : String → Option MatchPrepToken) where
    unfoldable pub get_handler : Option Uuid → String → String → Db ChatTables (Reply History)
    unfolding parse_limit parse_before
    get_handler user limit_query before_query = elim (signed_in user) [
      | none ↦ pure (problem 401 "unauthorized")
      | some user_id ↦ elim (parse_limit limit_query) [
        | none ↦ pure (problem 400 "invalid limit")
        | some limit ↦ elim (parse_before before_query) [
          | none ↦ pure (problem 400 "invalid before timestamp")
          | some before ↦
              on_error (get_history unmarshal_log unmarshal_prep user_id limit before)
                (λ _. pure (problem 500 "failed to load messages"))
                λ page. pure (json 200 (record { messages = page.0; has_more = page.1 }))
        ]
      ]
    ]

-- An SSE frame. A nil id is left out of the done frame.
pub data Frame : Type 0 where
  text_frame error_frame : String → Frame
  match_log_frame : MatchLogToken → Frame
  match_prep_frame : MatchPrepToken → Frame
  done_frame : Uuid → Uuid → Frame

-- The writer: the frames that reached the client, and which of the next writes fail.
pub record Writer : Type 0 where
  pub frames : List Frame
  pub faults : List Bool

-- A write and its flush: whether they succeeded.
unfoldable pub write_frame : Frame → Writer → Bool × Writer
write_frame f w = elim w.faults [
  | [] ↦ (true, record w { frames = w.frames ++ f ∷ [] })
  | true ∷ rest ↦ (false, record w { faults = rest })
  | false ∷ rest ↦ (true, record { frames = w.frames ++ f ∷ []; faults = rest })
]

abbrev unavailable : String
unavailable = "Marco is unavailable right now — please try again in a moment"

-- streamChunks: the final text, or none where ok is false.
unfoldable pub stream_chunks : String → List StreamEvent → Writer → Option String × Writer
unfolding write_frame
stream_chunks final [] w = (some final, w)
stream_chunks final (failure ∷ events) w =
    let (_, w') = write_frame (error_frame unavailable) w in (none, w')
stream_chunks final (chunk c ∷ events) w = elim c.is_done [
  | true ↦ stream_chunks c.final_text events w
  | false ↦
      let (sent, w') = write_frame (text_frame c.text) w in
      elim sent [ true ↦ stream_chunks final events w' | false ↦ (none, w') ]
]

abbrev write_token {ℓ} : {A : Type ℓ} → (A → Frame) → Option A → Writer → Writer
write_token f none w = w
write_token f (some token) w = (write_frame (f token) w).1

module _ (unmarshal_log : String → Option MatchLogToken)
    (unmarshal_prep : String → Option MatchPrepToken) where
  unfoldable pub finish_stream : Uuid → Uuid → String → Writer → Writer
  unfolding write_frame
  finish_stream user_msg_id assistant_msg_id final w =
      let log_token = if str_eq final "" then none else parse_match_log_token unmarshal_log final in
      let prep_token =
        if str_eq final "" then none else parse_match_prep_token unmarshal_prep final in
      let logged = write_token match_log_frame log_token w in
      let prepared = write_token match_prep_frame prep_token logged in
      (write_frame (done_frame user_msg_id assistant_msg_id) prepared).1

  -- The body stream writer of Post, after the chunks.
  unfoldable pub save_and_finish : Uuid → String → Option String × Writer → Db ChatTables Writer
  unfolding finish_stream
  save_and_finish user_id user_message (none, w) = pure w
  save_and_finish user_id user_message (some final, w) =
      if str_eq final ""
      then pure (finish_stream nil_uuid nil_uuid "" w)
      else on_error (save_turn user_id user_message final (parse_lesson_refs final))
          (λ _. pure (finish_stream nil_uuid nil_uuid final w))
          λ ids. pure (finish_stream ids.0 ids.1 final w)

  -- An answer of Post: a refusal, or the event stream.
  pub data Posted : Type 0 where
    refused : Reply (Unit {0}) → Posted
    streamed : Writer → Posted

  module _ {Context : Type 0} (assemble : Uuid → Db ChatTables (Option (Context × List Said)))
      (system_prompt : Context → String) (stream : String → List Said → List StreamEvent) where
    unfoldable pub post_handler : Option Uuid → Option String → List Bool → Db ChatTables Posted
    unfolding stream_chunks save_and_finish
    post_handler user body writer_faults = elim (signed_in user) [
      | none ↦ pure (refused (problem 401 "unauthorized"))
      | some user_id ↦ elim body [
        | none ↦ pure (refused (problem 400 "invalid request body"))
        | some raw ↦
            let message = trim_space raw in
            if str_eq message ""
            then pure (refused (problem 400 "message is required"))
            else if ltb 4000 (count message)
            then pure (refused (problem 400 "message must be 4000 characters or fewer"))
            else assemble user_id >>= elim [
              | none ↦ pure (refused (problem 500 "failed to load context"))
              | some (context, history) ↦
                  let events =
                    stream (system_prompt context)
                      (history ++ record { role = role_user; content = message } ∷ []) in
                  save_and_finish user_id message
                    (stream_chunks "" events (record { frames = []; faults = writer_faults }))
                  >>= λ w. pure (streamed w)
            ]
      ]
    ]

abbrev row_problem {ℓ} : {A : Type ℓ} → String → DbError → Reply A
row_problem message no_rows = problem 404 "message not found"
row_problem message failed = problem 500 message

module _ (parse_uuid : String → Option Uuid) where
  unfoldable pub delete_handler : Option Uuid → String → Db ChatTables (Reply (Unit {0}))
  delete_handler user id_param = elim (signed_in user) [
    | none ↦ pure (problem 401 "unauthorized")
    | some user_id ↦ elim (parse_uuid id_param) [
      | none ↦ pure (problem 400 "invalid message id")
      | some message_id ↦
          on_error (soft_delete message_id user_id)
            (λ e. pure (row_problem "failed to delete message" e)) (λ _. pure (bare 204))
    ]
  ]

  abbrev is_score : ℤ → Bool
  is_score (pos n) = n == 1
  is_score (negsuc n) = n == 0

  unfoldable pub patch_feedback_handler :
      Option Uuid → String → Option ℤ → Db ChatTables (Reply (Unit {0}))
  patch_feedback_handler user id_param body = elim (signed_in user) [
    | none ↦ pure (problem 401 "unauthorized")
    | some user_id ↦ elim (parse_uuid id_param) [
      | none ↦ pure (problem 400 "invalid message id")
      | some message_id ↦ elim body [
        | none ↦ pure (problem 400 "invalid request body")
        | some score ↦
            if is_score score
            then on_error (set_feedback message_id user_id score)
                (λ e. pure (row_problem "failed to set feedback" e)) (λ _. pure (bare 204))
            else pure (problem 400 "score must be 1 or -1")
      ]
    ]
  ]
