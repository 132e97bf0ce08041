-- ===== src/Auth/PasswordReset.antt =====
-- internal/auth/password_reset.go: the two endpoints of a forgotten password. Mails are sent, and may
-- fail to be sent, like statements.
use marco_api.Base.{
  ℕ, ◌+◌, ◌*◌, String, true, Option, none, some, [], ◌∷◌, ◌++◌, ◌&&◌, ◌||◌, ◌==◌, leb, ltb, not,
  str_eq, if◌then◌else◌, Uuid, Time, second, minute, Reply, json, problem,
}
use marco_api.Base.Db.{Result, ok, err, Db, statement, pure, on_error, ◌>>=◌}
use marco_api.Users.{User, get_user_by_email, get_user_by_id, update_password}
use marco_api.Auth.{
  DeviceInfo, Server, Crypto, AuthQuery, PasswordResetToken, Mail, password_reset, google_account,
  on_users, revoke_all_sessions,
}
use marco_api.Auth.Tokens.{
  last_password_reset_sent_at, create_password_reset_token, expire_password_reset_tokens,
  get_live_password_reset_token, increment_password_reset_attempts, consume_password_reset_token,
}
use marco_api.Auth.Issue.{
  AuthResponse, time_now, draw, present, generate_from_password, compare_hash, start_session,
}
use marco_api.Auth.Handler.{Message, internal_error, unless_missing, rejected}
use marco_api.Auth.Handler.Text.{
  RequestHeaders, device_info_from, normalize_email, validate_password,
}

pub record ResetPasswordRequest : Type 0 where
  pub email : String
  pub code : String
  pub password : String

abbrev pub password_reset_ttl : Time
password_reset_ttl = 15 * minute

abbrev pub max_reset_attempts : ℕ
max_reset_attempts = 5

abbrev pub resend_interval : Time
resend_interval = 60 * second

abbrev pub accepted : Reply Message
accepted =
    json 200 (record { message = "If that email has an account, a reset code is on its way." })

abbrev pub invalid_reset_code_message : String
invalid_reset_code_message = "That code isn't valid. Request a new one."

unfoldable pub send : Mail → AuthQuery (Unit {0})
send mail now id s = (ok tt, record s { outbox = s.outbox ++ mail ∷ [] })

module _ (c : Crypto) where
  unfoldable pub reset_code_rejected : {A : Type 0} → String → Db Server (Reply A)
  unfolding rejected
  reset_code_rejected unverified = rejected c 400 invalid_reset_code_message unverified

  unfoldable pub generate_reset_code : Db Server (Result (Unit {0}) String)
  unfolding draw
  generate_reset_code w = let (seed, w') = draw w in (present (c.random_code seed), w')

  -- ForgotPassword from the making of the code on.
  unfoldable pub mail_code : User → Db Server (Reply Message)
  unfolding generate_reset_code generate_from_password time_now
  mail_code user =
      on_error generate_reset_code (λ _. pure accepted)
        λ code.
          on_error (generate_from_password c code) (λ _. pure accepted)
            λ code_hash. time_now >>= λ now.
              on_error
                (statement
                  (create_password_reset_token user.id code_hash (now + password_reset_ttl)))
                (λ _. pure accepted)
                λ _.
                  on_error (statement (send (password_reset user.email code)))
                    (λ _.
                      on_error (statement (expire_password_reset_tokens user.id))
                        (λ _. pure accepted) (λ _. pure accepted))
                    (λ _. pure accepted)

  -- ForgotPassword once the account is found. A time of 0 is Go's zero time.
  unfoldable pub send_reset : User → Db Server (Reply Message)
  unfolding mail_code
  send_reset user =
      on_error (statement (last_password_reset_sent_at user.id)) (λ _. pure accepted)
        λ last_sent. time_now >>= λ now.
          if not (last_sent == 0) && ltb now (last_sent + resend_interval)
          then pure accepted
          else elim user.password_hash [
            | none ↦
                on_error (statement (send (google_account user.email))) (λ _. pure accepted)
                  (λ _. pure accepted)
            | some _ ↦ mail_code user
          ]

  unfoldable pub forgot_password : Option String → Db Server (Reply Message)
  unfolding send_reset
  forgot_password none = pure (problem 400 "invalid request body")
  forgot_password (some address) =
      let email = normalize_email c address in
      if str_eq email ""
      then pure (problem 400 "email is required")
      else on_error (statement (on_users (get_user_by_email email)))
          (unless_missing (pure accepted)) (λ user. send_reset user)

  -- ResetPassword after a wrong code: the fifth burns the user's codes.
  unfoldable pub count_wrong_code : PasswordResetToken → Uuid → Db Server (Reply AuthResponse)
  unfolding reset_code_rejected
  count_wrong_code token user_id =
      on_error (statement (increment_password_reset_attempts token.id))
        (λ _. reset_code_rejected "")
        λ attempts.
          if leb max_reset_attempts attempts
          then on_error (statement (expire_password_reset_tokens user_id))
              (λ _. reset_code_rejected "") (λ _. reset_code_rejected "")
          else reset_code_rejected ""

  -- ResetPassword from the consumption of the code on.
  unfoldable pub replace_password :
      PasswordResetToken → User → String → DeviceInfo → Db Server (Reply AuthResponse)
  unfolding reset_code_rejected generate_from_password
  replace_password token user password info =
      on_error (statement (consume_password_reset_token token.id)) (λ _. internal_error)
        λ consumed.
          if not consumed
          then reset_code_rejected ""
          else on_error (generate_from_password c password) (λ _. internal_error)
              λ hash.
                on_error (statement (on_users (update_password user.id hash))) (λ _. internal_error)
                  λ _.
                    on_error (statement (revoke_all_sessions user.id)) (λ _. internal_error)
                      λ _.
                        on_error (statement (on_users (get_user_by_id user.id)))
                          (λ _. internal_error) (λ current. start_session c current true info)

  -- ResetPassword once the account is found.
  unfoldable pub check_code : User → String → String → DeviceInfo → Db Server (Reply AuthResponse)
  unfolding compare_hash count_wrong_code replace_password
  check_code user code password info =
      on_error (statement (get_live_password_reset_token user.id))
        (unless_missing (reset_code_rejected code))
        λ token. compare_hash c token.code_hash code >>= λ matches.
          if matches
          then replace_password token user password info
          else count_wrong_code token user.id

  unfoldable pub reset_password :
      RequestHeaders → Option ResetPasswordRequest → Db Server (Reply AuthResponse)
  unfolding check_code
  reset_password headers none = pure (problem 400 "invalid request body")
  reset_password headers (some req) =
      let email = normalize_email c req.email in
      if str_eq email "" || str_eq req.code ""
      then pure (problem 400 "email and code are required")
      else elim (validate_password c req.password) [
        | err message ↦ pure (problem 400 message)
        | ok _ ↦
            on_error (statement (on_users (get_user_by_email email)))
              (unless_missing (reset_code_rejected req.code))
              (λ user. check_code user req.code req.password (device_info_from headers))
      ]
