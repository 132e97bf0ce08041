-- ===== src/Auth/Tokens.antt =====
-- internal/auth/store.go: refresh tokens and password reset codes.
use marco_api.Base.{
  ℕ, ◌+◌, String, Bool, Option, none, some, List, [], ◌∷◌, ◌++◌, ◌&&◌, ◌==◌, leb, ltb, not, str_eq,
  if◌then◌else◌, Uuid, Time, day, find_first, update_where, keep, count_where, is_some,
}
use marco_api.Base.Db.{no_rows, failed, Result, ok, err, DbError}
use marco_api.Auth.{Session, RefreshToken, PasswordResetToken, AuthQuery}

-- An INSERT must meet the foreign key on session_id and the UNIQUE token_hash; where it does not,
-- the purge of the same statement is undone too.
unfoldable pub save_refresh_token : Uuid → Uuid → String → Time → AuthQuery (Unit {0})
save_refresh_token user_id session_id token_hash expires_at now id s =
    if is_some (find_first (λ (x : Session). x.id == session_id) s.sessions)
      && not (
          is_some
            (find_first (λ (t : RefreshToken). str_eq t.token_hash token_hash) s.refresh_tokens))
    then (
      ok tt,
      record s {
        refresh_tokens =
            keep (λ t. not (t.user_id == user_id && ltb t.expires_at now)) s.refresh_tokens
            ++ record {
              id = id;
              user_id = user_id;
              session_id = session_id;
              token_hash = token_hash;
              expires_at = expires_at;
            }
              ∷ [];
      },
    )
    else (err failed, s)

abbrev token_or_none : Option RefreshToken → Result DbError RefreshToken
token_or_none none = err no_rows
token_or_none (some t) = ok t

unfoldable pub get_refresh_token : String → AuthQuery RefreshToken
get_refresh_token hash now id s =
    (token_or_none (find_first (λ t. str_eq t.token_hash hash) s.refresh_tokens), s)

unfoldable pub delete_refresh_token : String → AuthQuery (Unit {0})
delete_refresh_token hash now id s = (
  ok tt,
  record s { refresh_tokens = keep (λ t. not (str_eq t.token_hash hash)) s.refresh_tokens },
)

unfoldable pub delete_all_user_refresh_tokens : Uuid → AuthQuery (Unit {0})
delete_all_user_refresh_tokens user_id now id s =
    (ok tt, record s { refresh_tokens = keep (λ t. not (t.user_id == user_id)) s.refresh_tokens })

abbrev pub is_open : PasswordResetToken → Bool
is_open t = not (is_some t.consumed_at)

abbrev pub consume : Time → PasswordResetToken → PasswordResetToken
consume now t = record t { consumed_at = some now }

-- created_at < NOW() - INTERVAL '1 day'.
abbrev is_stale : Time → PasswordResetToken → Bool
is_stale now t = ltb (t.created_at + day) now

-- The three parts see the rows as they were: a stale row is deleted, any other open row of the
-- user is consumed, and the new row is added.
unfoldable pub create_password_reset_token : Uuid → String → Time → AuthQuery (Unit {0})
create_password_reset_token user_id code_hash expires_at now id s = (
  ok tt,
  record s {
    reset_tokens =
        update_where (λ (t : PasswordResetToken). t.user_id == user_id && is_open t) (consume now)
          (keep (λ t. not (t.user_id == user_id && is_stale now t)) s.reset_tokens)
        ++ record {
          id = id;
          user_id = user_id;
          code_hash = code_hash;
          expires_at = expires_at;
          consumed_at = none;
          attempts = 0;
          created_at = now;
        }
          ∷ [];
  },
)

-- ORDER BY created_at DESC LIMIT 1: the first of the newest rows that pass a test.
unfoldable pub newest :
    (PasswordResetToken → Bool) → List PasswordResetToken → Option PasswordResetToken
newest p [] = none
newest p (t ∷ ts) = elim (newest p ts) [
  | none ↦ if p t then some t else none
  | some u ↦ if p t && leb u.created_at t.created_at then some t else some u
]

abbrev reset_or_none : Option PasswordResetToken → Result DbError PasswordResetToken
reset_or_none none = err no_rows
reset_or_none (some t) = ok t

abbrev pub is_usable : Uuid → Time → PasswordResetToken → Bool
is_usable user_id now t = t.user_id == user_id && is_open t && ltb now t.expires_at

unfoldable pub get_live_password_reset_token : Uuid → AuthQuery PasswordResetToken
get_live_password_reset_token user_id now id s =
    (reset_or_none (newest (is_usable user_id now) s.reset_tokens), s)

-- time.Time{} where the user was never sent a code.
abbrev sent_or_zero : Option PasswordResetToken → Time
sent_or_zero none = 0
sent_or_zero (some t) = t.created_at

unfoldable pub last_password_reset_sent_at : Uuid → AuthQuery Time
last_password_reset_sent_at user_id now id s =
    (ok (sent_or_zero (newest (λ t. t.user_id == user_id) s.reset_tokens)), s)

abbrev pub count_attempt : PasswordResetToken → PasswordResetToken
count_attempt t = record t { attempts = t.attempts + 1 }

abbrev attempts_or_none : Option PasswordResetToken → Result DbError ℕ
attempts_or_none none = err no_rows
attempts_or_none (some t) = ok t.attempts

unfoldable pub increment_password_reset_attempts : Uuid → AuthQuery ℕ
increment_password_reset_attempts token_id now id s =
    let hit = λ (t : PasswordResetToken). t.id == token_id in
    let counted = update_where hit count_attempt s.reset_tokens in
    (attempts_or_none (find_first hit counted), record s { reset_tokens = counted })

unfoldable pub consume_password_reset_token : Uuid → AuthQuery Bool
consume_password_reset_token token_id now id s =
    let hit = λ (t : PasswordResetToken). t.id == token_id && is_open t in
    (
      ok (count_where hit s.reset_tokens == 1),
      record s { reset_tokens = update_where hit (consume now) s.reset_tokens },
    )

unfoldable pub expire_password_reset_tokens : Uuid → AuthQuery (Unit {0})
expire_password_reset_tokens user_id now id s = (
  ok tt,
  record s {
    reset_tokens =
        update_where (λ (t : PasswordResetToken). t.user_id == user_id && is_open t) (consume now)
          s.reset_tokens;
  },
)
