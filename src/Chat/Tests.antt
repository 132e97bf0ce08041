-- ===== src/Chat/Tests.antt =====
-- Tests of the chat, and the theorems at a table of three turns.
use marco_api.Base.{
  ℕ, ◌≡◌, refl, arith, String, Bool, Option, none, some, List, [], ◌∷◌, reverse, not, ◌==◌, keep,
  length, true, if◌then◌else◌, count_where, Uuid, Time, map, ◌≤◌,
}
use marco_api.Base.Db.{Result, ok, err, World, Db, no_rows}
use marco_api.Base.Int.{pos}
use marco_api.Marco.{MatchLogToken, MatchPrepToken}
use marco_api.Chat.{MessageRow, Message, ChatTables}
use marco_api.Chat.Store.{is_visible, clamp_limit, soft_delete, save_turn, get_history}
use marco_api.Chat.Scrolling.{scroll, visible, steady, sent_at, scroll-visible}
use marco_api.Chat.Handler.{save_and_finish, Writer}
use marco_api.Chat.Handler.Saving.{IsDone, save_and_finish-IsDone, soft_delete-hides}

abbrev no_log : String → Option MatchLogToken
no_log raw = none

abbrev no_prep : String → Option MatchPrepToken
no_prep raw = none

abbrev message : Uuid → String → Time → Option Time → MessageRow
message id role at deleted = record {
  id = id;
  user_id = 7;
  role = role;
  content = "hi";
  lesson_refs = [];
  feedback_score = pos 0;
  created_at = at;
  deleted_at = deleted;
}

-- The reply of the second turn is deleted.
abbrev table : ChatTables
table = record {
  messages =
      message 1 "user" 10 none
      ∷ message 2 "assistant" 10 none
      ∷ message 3 "user" 20 none
      ∷ message 4 "assistant" 20 (some 25)
      ∷ message 5 "user" 30 none
      ∷ message 6 "assistant" 30 none
      ∷ [];
  logged_messages = [];
  spawned = [];
}

abbrev id_of : Message → Uuid
id_of m = m.id

abbrev ids : Result marco_api.Base.Db.DbError (List Message) → List Uuid
ids (ok ms) = map id_of ms
ids (err _) = []

scroll_test :
    ids (scroll no_log no_prep 6 7 (pos 2) none (steady table 100 50)).0 ≡ 1 ∷ 2 ∷ 3 ∷ 5 ∷ 6 ∷ []
unfolding scroll marco_api.Base.Db.on_error marco_api.Base.Db.statement marco_api.Base.Db.pure
    marco_api.Base.order_by keep
scroll_test = refl

-- With one message to a page, the user's half of a turn is never answered.
scroll_one_test :
    ids (scroll no_log no_prep 9 7 (pos 1) none (steady table 100 50)).0 ≡ 2 ∷ 3 ∷ 6 ∷ []
unfolding scroll marco_api.Base.Db.on_error marco_api.Base.Db.statement marco_api.Base.Db.pure
    marco_api.Base.order_by keep
scroll_one_test = refl

size : length (visible no_log no_prep 7 table) ≡ 5
unfolding visible marco_api.Base.order_by keep
size = refl

few :
    (at : Time)
    → count_where (λ m. sent_at m == at) (visible no_log no_prep 7 table) ≤ clamp_limit (pos 2)
unfolding visible count_where marco_api.Base.order_by keep marco_api.Chat.Store.scan_message
few at = ground arith

scroll-visible_example :
    (scroll no_log no_prep 6 7 (pos 2) none (steady table 100 50)).0
    ≡ ok (reverse (visible no_log no_prep 7 table))
scroll-visible_example =
    scroll-visible no_log no_prep 6 7 (pos 2) table 100 50 (omega (arith, size)) few

abbrev written : Writer
written = record { frames = []; faults = [] }

save_and_finish-IsDone_example :
    IsDone 7 "hello"
      (some "hi there")
      table.messages
      (save_and_finish no_log no_prep 7 "hello"
        (some "hi there", written)
        (steady table 100 50)).1.tables.messages
save_and_finish-IsDone_example =
    save_and_finish-IsDone no_log no_prep 7 "hello" (some "hi there") written (steady table 100 50)

soft_delete-hides_example :
    (keep (is_visible 7) (soft_delete 3 7 (steady table 100 50)).1.tables.messages
      ≡ keep (λ m. not (m.id == 3)) (keep (is_visible 7) table.messages))
    × ((soft_delete 3 7 (steady table 100 50)).0 ≡ ok tt)
unfolding count_where keep
soft_delete-hides_example = soft_delete-hides 3 7 table 100 50
