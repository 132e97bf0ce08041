-- ===== src/Auth/Revocation/Handlers.antt =====
-- The handlers of internal/auth keep a revoked session revoked, whichever of their statements fail.
use marco_api.Base.{
  ℕ, ◌+◌, ◌≡◌, refl, String, Bool, Option, none, some, arith, Uuid, Time, Reply, inl, inr,
  Option-cases, Bool-cases, str_eq, signed_in,
}
use marco_api.Base.Db.{DbError, no_rows, failed, ok, err, Db, statement}
use marco_api.Base.Db.Keeps.{Keeps, Keeps-pure, Keeps-if, Keeps-on_error, Keeps-bind, keeps_rules}
use marco_api.Users.{User}
use marco_api.Auth.{DeviceInfo, Server, Crypto, GooglePayload, AuthQuery}
use marco_api.Auth.Tokens.{save_refresh_token, get_refresh_token, delete_refresh_token}
use marco_api.Auth.Issue.{
  time_now, generate_from_password, compare_hash, generate_refresh_token, generate_access_token,
  issue_tokens, start_session,
}
use marco_api.Auth.Handler.{
  rejected, credentials_rejected, refresh_avatar, google_account, google_sign_in, rotate,
  refresh_stored, refresh, unless_missing, sign_out, create_account, email_sign_up, check_password,
  email_sign_in, SignUpRequest, SignInRequest,
}
use marco_api.Auth.Handler.Text.{RequestHeaders, validate_password}
use marco_api.Auth.Revocation.{
  IsRevoked, Keeps-other, Keeps-on_users, Keeps-create_session, Keeps-touch_session,
  Keeps-revoke_all_sessions, Keeps-revoke_session,
}

module _ (sid : Uuid) (c : Crypto) where
  abbrev Safe : {A : Type 0} → Db Server A → Type 0
  Safe m = Keeps (IsRevoked sid) m

  pub Keeps-generate_from_password : (p : String) → Safe (generate_from_password c p)
  unfolding IsRevoked generate_from_password
  Keeps-generate_from_password p = record { after = λ w (fresh, h). (omega arith, h) }

  pub Keeps-compare_hash : (hash p : String) → Safe (compare_hash c hash p)
  unfolding IsRevoked compare_hash
  Keeps-compare_hash hash p = record { after = λ w h. h }

  pub Keeps-time_now : Safe time_now
  unfolding time_now
  Keeps-time_now = record { after = λ w h. h }

  Keeps-generate_access_token :
      (user : User) (session_id : Uuid) → Safe (generate_access_token c user session_id)
  unfolding generate_access_token
  Keeps-generate_access_token user session_id = record { after = λ w h. h }

  Keeps-generate_refresh_token : Safe (generate_refresh_token c)
  unfolding IsRevoked generate_refresh_token
  Keeps-generate_refresh_token = record { after = λ w (fresh, h). (omega arith, h) }

  abbrev SessionsSame : {A : Type 0} → AuthQuery A → Type 0
  SessionsSame f = (now : Time) (id : Uuid) (s : Server) → (f now id s).1.sessions ≡ s.sessions

  save_refresh_token_same :
      (user_id session_id : Uuid) (hash : String) (t : Time)
      → SessionsSame (save_refresh_token user_id session_id hash t)
  unfolding save_refresh_token
  save_refresh_token_same user_id session_id hash t now id s = ground arith

  pub Keeps-issue_tokens :
      (user : User) (with_user : Bool) (session_id : Uuid)
      → Safe (issue_tokens c user with_user session_id)
  unfolding issue_tokens
  Keeps-issue_tokens user with_user session_id =
      Keeps-on_error _ _ _ (Keeps-generate_access_token user session_id) (λ _. Keeps-pure _)
        λ access.
          Keeps-on_error _ _ _ Keeps-generate_refresh_token (λ _. Keeps-pure _)
            λ raw. Keeps-bind _ _ Keeps-time_now λ now.
              Keeps-on_error _ _ _
                (Keeps-other sid _ (
                  save_refresh_token_same user.id session_id (c.hash_token raw)
                    (now + c.refresh_ttl)))
                (λ _. Keeps-pure _) (λ _. Keeps-pure _)

  pub Keeps-start_session :
      (user : User) (with_user : Bool) (info : DeviceInfo)
      → Safe (start_session c user with_user info)
  unfolding start_session
  Keeps-start_session user with_user info =
      Keeps-on_error _ _ _ (Keeps-create_session sid user.id info) (λ _. Keeps-pure _)
        (λ session. Keeps-issue_tokens user with_user session.id)

  pub Keeps-rejected :
      {A : Type 0} (code : ℕ) (message unverified : String)
      → Safe (rejected c {A = A} code message unverified)
  unfolding rejected
  Keeps-rejected code message unverified = search (keeps_rules, Keeps-compare_hash)

  pub Keeps-unless_missing :
      {A : Type 0} (m : Db Server (Reply A)) → Safe m → (e : DbError) → Safe (unless_missing m e)
  Keeps-unless_missing m k no_rows = k
  Keeps-unless_missing m k failed = Keeps-pure _

  pub ruleset handler_rules = (
    Keeps-unless_missing, keeps_rules, Keeps-on_users, Keeps-start_session, Keeps-issue_tokens,
    Keeps-rejected, Keeps-compare_hash, Keeps-time_now, Keeps-generate_from_password,
    Keeps-touch_session, Keeps-revoke_all_sessions, Keeps-revoke_session,
  )

  Keeps-refresh_avatar : (user : User) (picture : String) → Safe (refresh_avatar c user picture)
  unfolding refresh_avatar
  Keeps-refresh_avatar user picture = search handler_rules

  Keeps-google_account :
      (payload : GooglePayload) (email : String) (info : DeviceInfo)
      → Safe (google_account c payload email info)
  unfolding google_account
  Keeps-google_account payload email info = search (handler_rules, Keeps-refresh_avatar)

  pub Keeps-google_sign_in :
      (headers : RequestHeaders) (body : Option String) → Safe (google_sign_in c headers body)
  unfolding google_sign_in
  Keeps-google_sign_in headers none = Keeps-pure _
  Keeps-google_sign_in headers (some token) = elim (Bool-cases (str_eq token "")) [
    | inl e ↦ rw e (Keeps-pure _)
    | inr e ↦ elim (Option-cases (c.validate_google token)) [
      | inl bad ↦ rw (e, bad) (Keeps-pure _)
      | inr (payload, good) ↦ rw (e, good) (search (handler_rules, Keeps-google_account))
    ]
  ]

  pub Keeps-delete_refresh_token : (hash : String) → Safe (statement (delete_refresh_token hash))
  unfolding delete_refresh_token
  Keeps-delete_refresh_token hash = Keeps-other sid (delete_refresh_token hash) (λ now id s. refl)

  pub Keeps-get_refresh_token : (hash : String) → Safe (statement (get_refresh_token hash))
  unfolding get_refresh_token
  Keeps-get_refresh_token hash = Keeps-other sid (get_refresh_token hash) (λ now id s. refl)

  Keeps-rotate :
      (hash : String) (user_id session_id : Uuid) (info : DeviceInfo)
      → Safe (rotate c hash user_id session_id info)
  unfolding rotate
  Keeps-rotate hash user_id session_id info = search (handler_rules, Keeps-delete_refresh_token)

  pub Keeps-refresh :
      (headers : RequestHeaders) (body : Option String) → Safe (refresh c headers body)
  unfolding refresh refresh_stored
  Keeps-refresh headers none = Keeps-pure _
  Keeps-refresh headers (some token) =
      search (handler_rules, Keeps-get_refresh_token, Keeps-delete_refresh_token, Keeps-rotate)
        depth 12

  pub Keeps-sign_out : (user : Option Uuid) (session_id : Uuid) → Safe (sign_out c user session_id)
  unfolding sign_out
  Keeps-sign_out user session_id = elim (Option-cases (signed_in user)) [
    | inl e ↦ rw (e, sign_out) (Keeps-pure _)
    | inr (user_id, e) ↦ rw (e, sign_out) (search handler_rules)
  ]

  pub Keeps-create_account :
      (name email password : String) (info : DeviceInfo)
      → Safe (create_account c name email password info)
  unfolding create_account
  Keeps-create_account name email password info = search handler_rules

  Keeps-check_password :
      (user : User) (password : String) (info : DeviceInfo)
      → Safe (check_password c user password info)
  unfolding check_password credentials_rejected
  Keeps-check_password user password info = elim (Option-cases user.password_hash) [
    | inl e ↦ rw e (Keeps-rejected _ _ _)
    | inr (hash, e) ↦ rw e (search handler_rules)
  ]

  pub Keeps-email_sign_in :
      (headers : RequestHeaders) (body : Option SignInRequest) → Safe (email_sign_in c headers body)
  unfolding email_sign_in credentials_rejected
  Keeps-email_sign_in headers none = Keeps-pure _
  Keeps-email_sign_in headers (some req) = search (handler_rules, Keeps-check_password)

  pub Keeps-email_sign_up :
      (headers : RequestHeaders) (body : Option SignUpRequest) → Safe (email_sign_up c headers body)
  unfolding email_sign_up
  Keeps-email_sign_up headers none = Keeps-pure _
  Keeps-email_sign_up headers (some req) =
      elim (validate_password c req.password)
          as (λ v.
            v ≡ validate_password c req.password → Safe (email_sign_up c headers (some req))) [
              | err message ↦ λ e. rw (← e) (search (handler_rules) depth 10)
              | ok _ ↦ λ e. rw (← e) (search (handler_rules, Keeps-create_account) depth 10)
            ]
        refl
