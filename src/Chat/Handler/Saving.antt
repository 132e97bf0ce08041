-- ===== src/Chat/Handler/Saving.antt =====
-- What a chat turn and a deletion of internal/chat do to the table of messages.
use marco_api.Base.{
  suc, ◌≡◌, ◌⊎◌, inl, inr, refl, ap, ◌∙◌, arith, String, true, false, Option, none, some, List, [],
  ◌∷◌, ◌++◌, ◌==◌, ◌&&◌, not, str_eq, if◌then◌else◌, Uuid, Time, keep, update_where, count_where,
  Bool-cases,
}
use mathlib.Core.Path.{subst⁻¹}
use marco_api.Base.Db.{
  no_rows, Result, ok, err, World, attempt, statement, pure, on_error, transaction,
}
use marco_api.Base.Db.Success.{transaction_ok}
use marco_api.Base.Db.Keeps.{transaction_atomic}
use marco_api.Marco.{LessonRef, MatchLogToken, MatchPrepToken}
use marco_api.Marco.Tokens.{parse_lesson_refs}
use marco_api.Chat.{MessageRow, ChatTables}
use marco_api.Chat.Store.{
  SaveError, db, new_message, insert_message, save_both, save_turn, is_visible, soft_delete,
  update_messages,
}
use marco_api.Chat.Handler.{Writer, save_and_finish}

-- Both messages of a turn, of one instant, after the rows that were there.
pub record Turn (user_id : Uuid) (user_message assistant_message : String)
    (before after : List MessageRow) : Type 0 where
  pub now : Time
  pub user_msg_id : Uuid
  pub assistant_msg_id : Uuid
  pub refs : List LessonRef
  pub rows :
      after
      ≡ before
        ++ new_message user_id "user" user_message [] now user_msg_id ∷ []
        ++ new_message user_id "assistant" assistant_message refs now assistant_msg_id ∷ []

save_both-Turn :
    (user_id : Uuid) (m a : String) (refs : List LessonRef) (w : World ChatTables)
    (ids : Uuid × Uuid)
    → (save_both user_id m a refs w).0 ≡ ok ids
    → Turn user_id m a w.tables.messages (save_both user_id m a refs w).1.tables.messages
unfolding save_both insert_message pure on_error statement attempt
save_both-Turn user_id m a refs w ids h = record {
  now = w.now;
  user_msg_id = w.next_id;
  assistant_msg_id = suc w.next_id;
  refs = refs;
  rows = ground arith;
}

-- Nothing changed, or the turn is there.
abbrev pub IsSaved : Uuid → String → String → List MessageRow → List MessageRow → Type 0
IsSaved user_id m a before after = (after ≡ before) ⊎ Turn user_id m a before after

save_turn-IsSaved :
    (user_id : Uuid) (m a : String) (refs : List LessonRef) (w : World ChatTables)
    → IsSaved user_id m a w.tables.messages (save_turn user_id m a refs w).1.tables.messages
unfolding save_turn pure
save_turn-IsSaved user_id m a refs w = elim (Bool-cases (str_eq a "")) [
  | inl e ↦ rw e (inl refl)
  | inr e ↦ rw e (settled (transaction db (save_both user_id m a refs) w).0 refl)
]
  where
    settled :
        (r : Result SaveError (Uuid × Uuid))
        → (transaction db (save_both user_id m a refs) w).0 ≡ r
        → IsSaved user_id m a w.tables.messages
            (transaction db (save_both user_id m a refs) w).1.tables.messages
    settled (err x) h = inl (
        ap (λ (s : ChatTables). s.messages)
          (transaction_atomic db (save_both user_id m a refs) w h))
    settled (ok ids) h =
        let (v, same, _, _, answered, tables) =
          transaction_ok db (save_both user_id m a refs) w ids h in
        let turn = save_both-Turn user_id m a refs v ids answered in
        inr (record {
          now = turn.now;
          user_msg_id = turn.user_msg_id;
          assistant_msg_id = turn.assistant_msg_id;
          refs = turn.refs;
          rows =
              ap (λ (s : ChatTables). s.messages) tables
              ∙ turn.rows
              ∙ ap
                  (λ (s : ChatTables).
                    s.messages
                    ++ new_message user_id "user" m [] turn.now turn.user_msg_id ∷ []
                    ++ new_message user_id "assistant" a turn.refs turn.now turn.assistant_msg_id
                      ∷ [])
                  same;
        })

counted :
    (id user_id : Uuid) (rows : List MessageRow)
    → count_where (λ m. m.id == id && is_visible user_id m) rows
      ≡ count_where (λ m. m.id == id) (keep (is_visible user_id) rows)
unfolding keep count_where
counted id user_id [] = refl
counted id user_id (m ∷ rows) = let rest = counted id user_id rows in ground arith

hidden :
    (id user_id : Uuid) (now : Time) (rows : List MessageRow)
    → keep (is_visible user_id) (
        update_where
          (λ m. m.id == id && is_visible user_id m)
          (λ m. record m { deleted_at = some now })
          rows)
      ≡ keep (λ m. not (m.id == id)) (keep (is_visible user_id) rows)
unfolding keep update_where
hidden id user_id now [] = refl
hidden id user_id now (m ∷ rows) = let rest = hidden id user_id now rows in ground arith

-- The final text is there and not empty, and the turn is saved or nothing changed.
abbrev pub IsDone : Uuid → String → Option String → List MessageRow → List MessageRow → Type 0
IsDone user_id m none before after = after ≡ before
IsDone user_id m (some final) before after =
    (after ≡ before) ⊎ ((str_eq final "" ≡ false) × Turn user_id m final before after)

module _ (unmarshal_log : String → Option MatchLogToken)
    (unmarshal_prep : String → Option MatchPrepToken) where
  save_and_finish-tables :
      (user_id : Uuid) (m final : String) (out : Writer) (w : World ChatTables)
      → str_eq final "" ≡ false
      → (save_and_finish unmarshal_log unmarshal_prep user_id m (some final, out) w).1.tables
        ≡ (save_turn user_id m final (parse_lesson_refs final) w).1.tables
  unfolding save_and_finish pure on_error
  save_and_finish-tables user_id m final out w e = ground arith

  save_and_finish-empty :
      (user_id : Uuid) (m final : String) (out : Writer) (w : World ChatTables)
      → str_eq final "" ≡ true
      → (save_and_finish unmarshal_log unmarshal_prep user_id m (some final, out) w).1.tables
        ≡ w.tables
  unfolding save_and_finish pure
  save_and_finish-empty user_id m final out w e = ground arith

  filled :
      {user_id : Uuid} {m final : String} {before after : List MessageRow}
      → str_eq final "" ≡ false
      → IsSaved user_id m final before after
      → IsDone user_id m (some final) before after
  filled e (inl same) = inl same
  filled e (inr turn) = inr (e, turn)

  messages_of : ChatTables → List MessageRow
  messages_of s = s.messages

  -- The body stream writer of Post, after the chunks: nothing is added to the messages, or both messages of the
  -- turn are, at one instant and with the whole final text, which is not empty. This holds whichever statements
  -- fail and whatever the stream brought.
  pub save_and_finish-IsDone :
      (user_id : Uuid) (m : String) (final : Option String) (out : Writer) (w : World ChatTables)
      → IsDone user_id m final w.tables.messages
          (save_and_finish unmarshal_log unmarshal_prep user_id m (final, out) w).1.tables.messages
  unfolding save_and_finish pure messages_of
  save_and_finish-IsDone user_id m none out w = refl
  save_and_finish-IsDone user_id m (some final) out w = elim (Bool-cases (str_eq final "")) [
    | inl e ↦ inl (ap messages_of (save_and_finish-empty user_id m final out w e))
    | inr e ↦
        let tables = ap messages_of (save_and_finish-tables user_id m final out w e) in
        subst⁻¹ (IsDone user_id m (some final) w.tables.messages) tables
          (filled e (save_turn-IsSaved user_id m final (parse_lesson_refs final) w))
  ]

-- The messages that a user can see after SoftDelete, where no statement fails: all but the one with that id. The
-- call succeeds exactly where the user could see one with that id.
pub soft_delete-hides :
    (id user_id : Uuid) (s : ChatTables) (t : Time) (n : Uuid)
    → let after =
        soft_delete id user_id (record { tables = s; now = t; next_id = n; faults = [] }) in
      (keep (is_visible user_id) after.1.tables.messages
        ≡ keep (λ m. not (m.id == id)) (keep (is_visible user_id) s.messages))
      × (after.0 ≡ (
          if count_where (λ m. m.id == id) (keep (is_visible user_id) s.messages) == 0
          then err no_rows
          else ok tt))
unfolding soft_delete update_messages on_error pure statement attempt
soft_delete-hides id user_id s t n = (
  hidden id user_id t s.messages,
  ap (λ c. if c == 0 then err no_rows else ok tt) (counted id user_id s.messages),
)
