-- ===== src/Chat/Store.antt =====
-- internal/chat/store.go over tables.
use marco_api.Base.{
  ℕ, suc, String, Bool, true, Option, none, some, List, [], ◌∷◌, ◌++◌, map, reverse, ◌==◌, ◌&&◌,
  ◌||◌, not, leb, ltb, take, str_eq, is_some, if◌then◌else◌, Uuid, Time, keep, find_first,
  update_where, count_where, order_by,
}
use marco_api.Base.Db.{
  DbError, no_rows, Result, ok, err, Db, statement, pure, on_error, transaction,
}
use marco_api.Base.Int.{ℤ, pos, negsuc}
use marco_api.Marco.{LessonRef, MatchLogToken, MatchPrepToken}
use marco_api.Marco.Tokens.{parse_match_log_token, parse_match_prep_token, clean_content}
use marco_api.Chat.{MessageRow, Message, Spawned, ChatTables, cut_page}

pub data SaveError : Type 0 where
  empty_response : SaveError
  db : DbError → SaveError

abbrev pub new_message : Uuid → String → String → List LessonRef → Time → Uuid → MessageRow
new_message user_id role content refs now id = record {
  id = id;
  user_id = user_id;
  role = role;
  content = content;
  lesson_refs = refs;
  feedback_score = pos 0;
  created_at = now;
  deleted_at = none;
}

unfoldable pub insert_message :
    Uuid → String → String → List LessonRef → Db ChatTables (Result DbError Uuid)
insert_message user_id role content refs = statement λ now id s.
    (ok id, record s { messages = s.messages ++ new_message user_id role content refs now id ∷ [] })

unfoldable pub save_both :
    Uuid → String → String → List LessonRef → Db ChatTables (Result SaveError (Uuid × Uuid))
unfolding insert_message
save_both user_id user_message assistant_message refs =
    on_error (insert_message user_id "user" user_message []) (λ e. pure (err (db e)))
      λ user_msg_id.
        on_error (insert_message user_id "assistant" assistant_message refs)
          (λ e. pure (err (db e))) λ assistant_id. pure (ok (user_msg_id, assistant_id))

unfoldable pub save_turn :
    Uuid → String → String → List LessonRef → Db ChatTables (Result SaveError (Uuid × Uuid))
unfolding save_both
save_turn user_id user_message assistant_message refs =
    if str_eq assistant_message ""
    then pure (err empty_response)
    else transaction db (save_both user_id user_message assistant_message refs)

abbrev pub is_visible : Uuid → MessageRow → Bool
is_visible user_id m = m.user_id == user_id && not (is_some m.deleted_at)

abbrev pub is_before : Option Time → Time → Bool
is_before none t = true
is_before (some b) t = ltb t b

abbrev pub role_rank : String → ℕ
role_rank role = if str_eq role "assistant" then 0 else 1

-- ORDER BY created_at DESC, assistant first.
abbrev pub before_message : MessageRow → MessageRow → Bool
before_message a b =
    ltb b.created_at a.created_at
    || (a.created_at == b.created_at && leb (role_rank a.role) (role_rank b.role))

abbrev preparation_of : Option Spawned → Option Uuid
preparation_of none = none
preparation_of (some p) = some p.preparation_id

abbrev pub clamp_limit : ℤ → ℕ
clamp_limit (negsuc _) = 30
clamp_limit (pos limit) = if limit == 0 then 30 else if ltb 100 limit then 100 else limit

module _ (unmarshal_log : String → Option MatchLogToken)
    (unmarshal_prep : String → Option MatchPrepToken) where
  -- The scan of a row: the prefills are read before the content is cleaned.
  unfoldable pub scan_message : List Uuid → List Spawned → MessageRow → Message
  scan_message logged spawned m =
      let from_assistant = str_eq m.role "assistant" in
      record {
        id = m.id;
        role = m.role;
        content = if from_assistant then clean_content m.content else m.content;
        lesson_refs = m.lesson_refs;
        feedback_score = m.feedback_score;
        created_at = m.created_at;
        match_log_prefill =
            if from_assistant then parse_match_log_token unmarshal_log m.content else none;
        match_logged = is_some (find_first (λ i. i == m.id) logged);
        match_prep_prefill =
            if from_assistant then parse_match_prep_token unmarshal_prep m.content else none;
        match_preparation_id =
            preparation_of (find_first (λ (p : Spawned). p.message_id == m.id) spawned);
      }

  unfoldable pub select_messages :
      Uuid → Option Time → ℕ → Db ChatTables (Result DbError (List Message))
  unfolding scan_message
  select_messages user_id before fetch = statement λ _ _ s. (
    ok (
        map (scan_message s.logged_messages s.spawned) (
          take fetch (
            order_by before_message
              (keep (λ m. is_visible user_id m && is_before before m.created_at) s.messages)))),
    s,
  )

  unfoldable pub get_history :
      Uuid → ℤ → Option Time → Db ChatTables (Result DbError (List Message × Bool))
  unfolding select_messages cut_page
  get_history user_id limit before =
      on_error (select_messages user_id before (suc (clamp_limit limit))) (λ e. pure (err e))
        λ msgs.
          let (page, has_more) =
            cut_page (λ (m : Message). m.created_at) (clamp_limit limit) msgs in
          pure (ok (reverse page, has_more))

-- UPDATE … and the rows that it met.
unfoldable pub update_messages :
    (MessageRow → Bool) → (Time → MessageRow → MessageRow) → Db ChatTables (Result DbError ℕ)
update_messages hit f = statement λ now _ s.
    (ok (count_where hit s.messages), record s { messages = update_where hit (f now) s.messages })

abbrev met_or_no_rows : ℕ → Result DbError (Unit {0})
met_or_no_rows met = if met == 0 then err no_rows else ok tt

unfoldable pub set_feedback : Uuid → Uuid → ℤ → Db ChatTables (Result DbError (Unit {0}))
unfolding update_messages
set_feedback message_id user_id score =
    on_error
      (update_messages
        (λ m. m.id == message_id && (is_visible user_id m && str_eq m.role "assistant"))
        (λ _ m. record m { feedback_score = score }))
      (λ e. pure (err e)) (λ met. pure (met_or_no_rows met))

unfoldable pub soft_delete : Uuid → Uuid → Db ChatTables (Result DbError (Unit {0}))
unfolding update_messages
soft_delete message_id user_id =
    on_error
      (update_messages (λ m. m.id == message_id && is_visible user_id m)
        (λ now m. record m { deleted_at = some now }))
      (λ e. pure (err e)) (λ met. pure (met_or_no_rows met))
