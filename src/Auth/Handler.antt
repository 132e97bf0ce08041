-- ===== src/Auth/Handler.antt =====
-- internal/auth/handler.go: sign-up, sign-in with a password or with Google, refresh and sign-out.
-- The fiber context gives the parsed body, if it could be parsed, the device headers, and the user
-- and session ids that the middleware has set.
pub mod Text
use marco_api.Base.{
  ℕ, suc, ◌+◌, String, count, Bool, true, false, Option, none, some, ◌&&◌, ◌||◌, ◌==◌, leb, ltb,
  not, str_eq, if◌then◌else◌, Uuid, nil_uuid, Time, Reply, json, problem, signed_in, trim_space,
  is_some,
}
use marco_api.Base.Db.{
  DbError, no_rows, failed, Result, ok, err, World, Db, statement, pure, on_error, ◌>>=◌,
}
use marco_api.Users.{
  User, CreateUserParams, UpdateUserParams, create_user, get_user_by_google_id, get_user_by_email,
  get_user_by_id, update_user, same_text,
}
use marco_api.Auth.{
  RefreshToken, DeviceInfo, Server, Crypto, GooglePayload, on_users, nil_if_blank, touch_session,
  revoke_session, revoke_all_sessions,
}
use marco_api.Auth.Tokens.{get_refresh_token, delete_refresh_token}
use marco_api.Auth.Issue.{
  AuthResponse, time_now, generate_from_password, compare_hash, issue_tokens, start_session,
}
use marco_api.Auth.Handler.Text.{
  RequestHeaders, device_info_from, normalize_email, is_email, validate_password,
}

pub record SignUpRequest : Type 0 where
  pub name : String
  pub email : String
  pub password : String

pub record SignInRequest : Type 0 where
  pub email : String
  pub password : String

pub record Message : Type 0 where
  pub message : String

abbrev pub internal_error : {A : Type 0} → Db Server (Reply A)
internal_error = pure (problem 500 "internal server error")

-- `errors.Is(err, pgx.ErrNoRows)` has an answer of its own, any other error is a 500.
abbrev pub unless_missing : {A : Type 0} → Db Server (Reply A) → DbError → Db Server (Reply A)
unless_missing missing no_rows = missing
unless_missing missing failed = internal_error

abbrev pub invalid_credentials_message : String
invalid_credentials_message = "These credentials do not match our records."

abbrev dummy_password_hash : String
dummy_password_hash = "$2a$10$Ov3kxx6/JOMgts6msQ.5TeZtl2YlSBftA.ZIxP4rJ89J06WwvW24e"

module _ (c : Crypto) where
  -- A burnt bcrypt round where a text is given, none where it is "".
  unfoldable pub rejected : {A : Type 0} → ℕ → String → String → Db Server (Reply A)
  unfolding compare_hash
  rejected code message unverified =
      if str_eq unverified ""
      then pure (problem code message)
      else (compare_hash c dummy_password_hash unverified >>= λ _. pure (problem code message))

  unfoldable pub credentials_rejected : String → Db Server (Reply AuthResponse)
  unfolding rejected
  credentials_rejected unverified = rejected 401 invalid_credentials_message unverified

  -- The default case of GoogleSignIn's switch: a changed picture is stored, if that succeeds.
  unfoldable pub refresh_avatar : User → String → Db Server User
  refresh_avatar user picture =
      if not (str_eq picture "") && not (same_text user.avatar_url picture)
      then on_error
          (statement (
            on_users (
              update_user user.id (record {
                display_name = none;
                avatar_url = some picture;
                skill_level = none;
                dominant_hand = none;
                court_side = none;
                play_frequency = none;
                goal = none;
                plan = none;
              }))))
          (λ _. pure user) (λ updated. pure updated)
      else pure user

  unfoldable pub new_user :
      Option String → Option String → String → Option String → Option String → CreateUserParams
  new_user google_id password_hash email display_name avatar_url = record {
    google_id = google_id;
    password_hash = password_hash;
    email = email;
    display_name = display_name;
    avatar_url = avatar_url;
    skill_level = none;
    dominant_hand = none;
    court_side = none;
    play_frequency = none;
    goal = none;
    plan = none;
  }

  -- GoogleSignIn once the id token is validated.
  unfoldable pub google_account :
      GooglePayload → String → DeviceInfo → Db Server (Reply AuthResponse)
  unfolding refresh_avatar
  google_account payload email info =
      on_error (statement (on_users (get_user_by_google_id payload.subject)))
        (unless_missing (
          on_error
            (statement (
              on_users (
                create_user (
                  new_user (some payload.subject) none email (nil_if_blank payload.name)
                    (nil_if_blank payload.picture)))))
            (λ _. pure (problem 500 "failed to create user"))
            (λ user. start_session c user true info)))
        (λ user. refresh_avatar user payload.picture >>= λ u. start_session c u true info)

  unfoldable pub google_sign_in : RequestHeaders → Option String → Db Server (Reply AuthResponse)
  unfolding google_account
  google_sign_in headers none = pure (problem 400 "invalid request body")
  google_sign_in headers (some id_token) =
      if str_eq id_token ""
      then pure (problem 400 "id_token is required")
      else elim (c.validate_google id_token) [
        | none ↦ pure (problem 401 "invalid id token")
        | some payload ↦
            let email = normalize_email c payload.email in
            if str_eq payload.subject "" || str_eq email ""
            then pure (problem 502 "incomplete google user info")
            else google_account payload email (device_info_from headers)
      ]

  abbrev pub invalid_refresh_token : Db Server (Reply AuthResponse)
  invalid_refresh_token = pure (problem 401 "invalid_refresh_token")

  -- Refresh from the deletion of the presented token on.
  unfoldable pub rotate : String → Uuid → Uuid → DeviceInfo → Db Server (Reply AuthResponse)
  rotate hash user_id session_id info =
      on_error (statement (delete_refresh_token hash)) (λ _. internal_error)
        λ _.
          on_error (statement (on_users (get_user_by_id user_id)))
            (unless_missing invalid_refresh_token)
            λ user.
              on_error (statement (touch_session session_id info)) (λ _. internal_error)
                λ alive.
                  if alive then issue_tokens c user false session_id else invalid_refresh_token

  -- Refresh once the token is found.
  unfoldable pub refresh_stored :
      String → RefreshToken → DeviceInfo → Db Server (Reply AuthResponse)
  unfolding rotate time_now
  refresh_stored hash stored info = time_now >>= λ now.
      if ltb stored.expires_at now
      then on_error (statement (delete_refresh_token hash)) (λ _. invalid_refresh_token)
          (λ _. invalid_refresh_token)
      else rotate hash stored.user_id stored.session_id info

  unfoldable pub refresh : RequestHeaders → Option String → Db Server (Reply AuthResponse)
  unfolding refresh_stored
  refresh headers none = pure (problem 400 "invalid request body")
  refresh headers (some token) =
      if str_eq token ""
      then pure (problem 400 "invalid request body")
      else let hash = c.hash_token token in
        on_error (statement (get_refresh_token hash)) (unless_missing invalid_refresh_token)
          (λ stored. refresh_stored hash stored (device_info_from headers))

  unfoldable pub sign_out : Option Uuid → Uuid → Db Server (Reply Message)
  sign_out user session_id = elim (signed_in user) [
    | none ↦ pure (problem 401 "unauthorized")
    | some user_id ↦
        let signed_out : Reply Message = json 200 (record { message = "signed out" }) in
        if session_id == nil_uuid
        then on_error (statement (revoke_all_sessions user_id)) (λ _. internal_error)
            (λ _. pure signed_out)
        else on_error (revoke_session user_id session_id) (λ _. internal_error)
            (λ _. pure signed_out)
  ]

  -- EmailSignUp once the fields are checked.
  unfoldable pub create_account :
      String → String → String → DeviceInfo → Db Server (Reply AuthResponse)
  unfolding generate_from_password
  create_account name email password info =
      on_error (statement (on_users (get_user_by_email email)))
        (unless_missing (
          on_error (generate_from_password c password) (λ _. internal_error)
            λ hash.
              on_error
                (statement
                  (on_users (create_user (new_user none (some hash) email (some name) none))))
                (λ _. pure (problem 500 "failed to create user"))
                (λ user. start_session c user true info)))
        (λ _. pure (problem 409 "an account with this email already exists"))

  unfoldable pub email_sign_up :
      RequestHeaders → Option SignUpRequest → Db Server (Reply AuthResponse)
  unfolding create_account
  email_sign_up headers none = pure (problem 400 "invalid request body")
  email_sign_up headers (some req) =
      let name = trim_space req.name in
      let email = normalize_email c req.email in
      if str_eq name ""
      then pure (problem 400 "name is required")
      else if ltb 255 (count name)
      then pure (problem 400 "name must be 255 characters or fewer")
      else if not (is_email email) || ltb 255 (count email)
      then pure (problem 400 "invalid email")
      else elim (validate_password c req.password) [
        | err message ↦ pure (problem 400 message)
        | ok _ ↦ create_account name email req.password (device_info_from headers)
      ]

  -- EmailSignIn once the account is found.
  unfoldable pub check_password : User → String → DeviceInfo → Db Server (Reply AuthResponse)
  unfolding credentials_rejected compare_hash
  check_password user password info = elim user.password_hash [
    | none ↦ credentials_rejected password
    | some hash ↦ compare_hash c hash password >>= λ matches.
        if matches then start_session c user true info else credentials_rejected ""
  ]

  unfoldable pub email_sign_in :
      RequestHeaders → Option SignInRequest → Db Server (Reply AuthResponse)
  unfolding check_password
  email_sign_in headers none = pure (problem 400 "invalid request body")
  email_sign_in headers (some req) =
      let email = normalize_email c req.email in
      if str_eq email "" || str_eq req.password ""
      then pure (problem 400 "email and password are required")
      else on_error (statement (on_users (get_user_by_email email)))
          (unless_missing (credentials_rejected req.password))
          (λ user. check_password user req.password (device_info_from headers))
