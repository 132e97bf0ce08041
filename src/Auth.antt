-- ===== src/Auth.antt =====
-- internal/auth: the tables of accounts, device sessions, refresh tokens and password reset codes,
-- and what the package takes from elsewhere. Each statement of sessions_store.go is a function of
-- NOW(), a fresh UUID and the tables.
pub mod Tokens
pub mod Issue
pub mod Handler
pub mod PasswordReset
pub mod Devices
pub mod Middleware
pub mod Enumeration
pub mod Revocation
pub mod Codes
mod Tests
use Prim.Native.Char.{Char}
use marco_api.Base.{
  ℕ, suc, ◌+◌, String, Bool, true, false, Option, none, some, List, [], ◌∷◌, ◌++◌, ◌&&◌, ◌||◌, ◌==◌,
  leb, ltb, not, str_eq, if◌then◌else◌, or_else, Uuid, Time, find_first, update_where, keep,
  count_where, is_some, length,
}
use marco_api.Base.Db.{
  DbError, no_rows, failed, Result, ok, err, World, Db, statement, pure, on_error,
}
use marco_api.Users.{User, Query}

pub record Session : Type 0 where
  pub id : Uuid
  pub user_id : Uuid
  pub device_name : Option String
  pub platform : Option String
  pub app_version : Option String
  pub created_at : Time
  pub last_seen_at : Time
  pub revoked_at : Option Time

pub record DeviceInfo : Type 0 where
  pub device_name : String
  pub platform : String
  pub app_version : String

pub record RefreshToken : Type 0 where
  pub id : Uuid
  pub user_id : Uuid
  pub session_id : Uuid
  pub token_hash : String
  pub expires_at : Time

pub record PasswordResetToken : Type 0 where
  pub id : Uuid
  pub user_id : Uuid
  pub code_hash : String
  pub expires_at : Time
  pub consumed_at : Option Time
  pub attempts : ℕ
  pub created_at : Time

-- The two messages of internal/email/messages.go: their receiver and, in the first, the code.
pub data Mail : Type 0 where
  password_reset : String → String → Mail
  google_account : String → Mail

-- The tables, with the mails sent and the number of bcrypt rounds that were paid for.
pub record Server : Type 0 where
  pub users : List User
  pub sessions : List Session
  pub refresh_tokens : List RefreshToken
  pub reset_tokens : List PasswordResetToken
  pub outbox : List Mail
  pub bcrypt_runs : ℕ

-- The payload of a Google id token; a claim that is missing, or is no string, is "".
pub record GooglePayload : Type 0 where
  pub subject : String
  pub email : String
  pub name : String
  pub picture : String

-- What the package takes from bcrypt, jwt, crypto/rand, crypto/sha256, idtoken, uuid, the tables of
-- unicode and its configuration. A random value is drawn from a seed that no other draw has; `none`
-- is an error of the library.
pub record Crypto : Type 0 where
  pub validate_google : String → Option GooglePayload
  pub parse_uuid : String → Option Uuid
  pub lower : Char → Char
  pub is_digit : Char → Bool
  pub bcrypt_hash : Uuid → String → Option String
  pub bcrypt_matches : String → String → Bool
  pub random_token : Uuid → Option String
  pub hash_token : String → String
  pub random_code : Uuid → Option String
  pub sign_access : Uuid → String → Uuid → Time → Option String
  pub access_ttl : Time
  pub refresh_ttl : Time

abbrev pub AuthQuery : Type 0 → Type 0
AuthQuery A = Time → Uuid → Server → Result DbError A × Server

-- A statement on `users`.
unfoldable pub on_users : {A : Type 0} → Query A → AuthQuery A
on_users f now id s = let (r, users) = f now id s.users in (r, record s { users = users })

abbrev pub nil_if_blank : String → Option String
nil_if_blank s = if str_eq s "" then none else some s

abbrev pub is_live : Session → Bool
is_live s = not (is_some s.revoked_at)

unfoldable pub create_session : Uuid → DeviceInfo → AuthQuery Session
create_session user_id info now id s =
    let session : Session = record {
      id = id;
      user_id = user_id;
      device_name = nil_if_blank info.device_name;
      platform = nil_if_blank info.platform;
      app_version = nil_if_blank info.app_version;
      created_at = now;
      last_seen_at = now;
      revoked_at = none;
    } in
    (ok session, record s { sessions = s.sessions ++ session ∷ [] })

abbrev live_of : Option Session → Bool
live_of none = false
live_of (some session) = is_live session

unfoldable pub is_session_live : Uuid → AuthQuery Bool
is_session_live session_id now id s =
    (ok (live_of (find_first (λ x. x.id == session_id) s.sessions)), s)

-- ORDER BY last_seen_at DESC.
unfoldable pub insert_recent : Session → List Session → List Session
insert_recent x [] = x ∷ []
insert_recent x (y ∷ ys) =
    if ltb y.last_seen_at x.last_seen_at then x ∷ y ∷ ys else y ∷ insert_recent x ys

unfoldable pub most_recent_first : List Session → List Session
unfolding insert_recent
most_recent_first [] = []
most_recent_first (x ∷ xs) = insert_recent x (most_recent_first xs)

unfoldable pub list_sessions : Uuid → AuthQuery (List Session)
unfolding most_recent_first
list_sessions user_id now id s =
    (ok (most_recent_first (keep (λ x. x.user_id == user_id && is_live x) s.sessions)), s)

abbrev coalesce : Option String → Option String → Option String
coalesce none old = old
coalesce (some v) old = some v

unfoldable pub touched : DeviceInfo → Time → Session → Session
touched info now x = record x {
  last_seen_at = now;
  device_name = coalesce (nil_if_blank info.device_name) x.device_name;
  platform = coalesce (nil_if_blank info.platform) x.platform;
  app_version = coalesce (nil_if_blank info.app_version) x.app_version;
}

unfoldable pub touch_session : Uuid → DeviceInfo → AuthQuery Bool
unfolding touched
touch_session session_id info now id s =
    let hit = λ (x : Session). x.id == session_id && is_live x in
    (
      ok (count_where hit s.sessions == 1),
      record s { sessions = update_where hit (touched info now) s.sessions },
    )

abbrev pub revoke : Time → Session → Session
revoke now x = record x { revoked_at = some now }

-- The WITH … DELETE of RevokeSession: the answer is RowsAffected, the number of tokens deleted.
unfoldable pub revoke_session_tokens : Uuid → Uuid → AuthQuery ℕ
revoke_session_tokens user_id session_id now id s =
    let hit = λ (x : Session). x.id == session_id && x.user_id == user_id && is_live x in
    let doomed =
      λ (t : RefreshToken). t.session_id == session_id && is_some (find_first hit s.sessions) in
    (
      ok (count_where doomed s.refresh_tokens),
      record s {
        sessions = update_where hit (revoke now) s.sessions;
        refresh_tokens = keep (λ t. not (doomed t)) s.refresh_tokens;
      },
    )

abbrev revoked_or_no_rows : Option Session → Result DbError Bool
revoked_or_no_rows none = err no_rows
revoked_or_no_rows (some x) = ok (is_some x.revoked_at)

-- The second statement of RevokeSession.
unfoldable pub was_revoked : Uuid → Uuid → AuthQuery Bool
was_revoked user_id session_id now id s = (
  revoked_or_no_rows (find_first (λ x. x.id == session_id && x.user_id == user_id) s.sessions),
  s,
)

-- RevokeSession after its first statement. Any error of the second one reads as "no such session".
unfoldable pub answer_revoked : Uuid → Uuid → ℕ → Db Server (Result DbError Bool)
unfolding was_revoked
answer_revoked user_id session_id deleted =
    if ltb 0 deleted
    then pure (ok true)
    else on_error (statement (was_revoked user_id session_id)) (λ _. pure (ok false))
        (λ b. pure (ok b))

unfoldable pub revoke_session : Uuid → Uuid → Db Server (Result DbError Bool)
unfolding revoke_session_tokens answer_revoked
revoke_session user_id session_id =
    on_error (statement (revoke_session_tokens user_id session_id)) (λ e. pure (err e))
      (answer_revoked user_id session_id)

unfoldable pub revoke_other_sessions : Uuid → Uuid → AuthQuery ℕ
revoke_other_sessions user_id keep_id now id s =
    let hit = λ (x : Session). x.user_id == user_id && not (x.id == keep_id) && is_live x in
    (
      ok (count_where hit s.sessions),
      record s {
        sessions = update_where hit (revoke now) s.sessions;
        refresh_tokens =
            keep (λ t. not (t.user_id == user_id && not (t.session_id == keep_id)))
              s.refresh_tokens;
      },
    )

unfoldable pub revoke_all_sessions : Uuid → AuthQuery (Unit {0})
revoke_all_sessions user_id now id s = (
  ok tt,
  record s {
    sessions =
        update_where (λ (x : Session). x.user_id == user_id && is_live x) (revoke now) s.sessions;
    refresh_tokens = keep (λ t. not (t.user_id == user_id)) s.refresh_tokens;
  },
)
