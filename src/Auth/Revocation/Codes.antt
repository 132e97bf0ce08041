-- ===== src/Auth/Revocation/Codes.antt =====
-- The handlers of internal/auth/password_reset.go and the devices screen keep a revoked session revoked.
use marco_api.Base.{
  ◌≡◌, refl, String, Option, none, some, arith, Uuid, Time, inl, inr, Option-cases, signed_in,
}
use marco_api.Base.Db.{ok, err, Db, statement}
use marco_api.Base.Db.Keeps.{Keeps, Keeps-pure, keeps_rules}
use marco_api.Users.{User}
use marco_api.Auth.{DeviceInfo, Server, Crypto, PasswordResetToken, Mail, list_sessions}
use marco_api.Auth.Tokens.{
  last_password_reset_sent_at, create_password_reset_token, expire_password_reset_tokens,
  get_live_password_reset_token, increment_password_reset_attempts, consume_password_reset_token,
}
use marco_api.Auth.Handler.Text.{RequestHeaders, validate_password}
use marco_api.Auth.PasswordReset.{
  ResetPasswordRequest, send, reset_code_rejected, generate_reset_code, mail_code, send_reset,
  forgot_password, count_wrong_code, replace_password, check_code, reset_password,
}
use marco_api.Auth.Devices.{list_devices, revoke_device, revoke_other_devices}
use marco_api.Auth.Revocation.{
  IsRevoked, Keeps-other, Keeps-revoke_other_sessions, Keeps-revoke_session,
}
use marco_api.Auth.Revocation.Handlers.{handler_rules}

module _ (sid : Uuid) (c : Crypto) where
  abbrev Safe : {A : Type 0} → Db Server A → Type 0
  Safe m = Keeps (IsRevoked sid) m

  Keeps-generate_reset_code : Safe (generate_reset_code c)
  unfolding IsRevoked generate_reset_code
  Keeps-generate_reset_code = record { after = λ w (fresh, h). (omega arith, h) }

  Keeps-send : (mail : Mail) → Safe (statement (send mail))
  unfolding send
  Keeps-send mail = Keeps-other sid (send mail) (λ now id s. refl)

  Keeps-create_password_reset_token :
      (user_id : Uuid) (hash : String) (t : Time)
      → Safe (statement (create_password_reset_token user_id hash t))
  unfolding create_password_reset_token
  Keeps-create_password_reset_token user_id hash t =
      Keeps-other sid (create_password_reset_token user_id hash t) (λ now id s. refl)

  Keeps-expire_password_reset_tokens :
      (user_id : Uuid) → Safe (statement (expire_password_reset_tokens user_id))
  unfolding expire_password_reset_tokens
  Keeps-expire_password_reset_tokens user_id =
      Keeps-other sid (expire_password_reset_tokens user_id) (λ now id s. refl)

  Keeps-get_live_password_reset_token :
      (user_id : Uuid) → Safe (statement (get_live_password_reset_token user_id))
  unfolding get_live_password_reset_token
  Keeps-get_live_password_reset_token user_id =
      Keeps-other sid (get_live_password_reset_token user_id) (λ now id s. refl)

  Keeps-last_password_reset_sent_at :
      (user_id : Uuid) → Safe (statement (last_password_reset_sent_at user_id))
  unfolding last_password_reset_sent_at
  Keeps-last_password_reset_sent_at user_id =
      Keeps-other sid (last_password_reset_sent_at user_id) (λ now id s. refl)

  Keeps-increment_password_reset_attempts :
      (id : Uuid) → Safe (statement (increment_password_reset_attempts id))
  unfolding increment_password_reset_attempts
  Keeps-increment_password_reset_attempts id =
      Keeps-other sid (increment_password_reset_attempts id) (λ now id s. refl)

  Keeps-consume_password_reset_token :
      (id : Uuid) → Safe (statement (consume_password_reset_token id))
  unfolding consume_password_reset_token
  Keeps-consume_password_reset_token id =
      Keeps-other sid (consume_password_reset_token id) (λ now id s. refl)

  ruleset code_rules = (
    handler_rules, Keeps-generate_reset_code, Keeps-send, Keeps-create_password_reset_token,
    Keeps-expire_password_reset_tokens, Keeps-get_live_password_reset_token,
    Keeps-last_password_reset_sent_at, Keeps-increment_password_reset_attempts,
    Keeps-consume_password_reset_token,
  )

  Keeps-mail_code : (user : User) → Safe (mail_code c user)
  unfolding mail_code
  Keeps-mail_code user = search (code_rules) depth 12

  Keeps-send_reset : (user : User) → Safe (send_reset c user)
  unfolding send_reset
  Keeps-send_reset user = elim (Option-cases user.password_hash) [
    | inl e ↦ rw e (search (code_rules) depth 12)
    | inr (hash, e) ↦ rw e (search (code_rules, Keeps-mail_code) depth 12)
  ]

  pub Keeps-forgot_password : (body : Option String) → Safe (forgot_password c body)
  unfolding forgot_password
  Keeps-forgot_password none = Keeps-pure _
  Keeps-forgot_password (some address) = search (code_rules, Keeps-send_reset) depth 12

  Keeps-count_wrong_code :
      (token : PasswordResetToken) (user_id : Uuid) → Safe (count_wrong_code c token user_id)
  unfolding count_wrong_code reset_code_rejected
  Keeps-count_wrong_code token user_id = search (code_rules) depth 12

  Keeps-replace_password :
      (token : PasswordResetToken) (user : User) (password : String) (info : DeviceInfo)
      → Safe (replace_password c token user password info)
  unfolding replace_password reset_code_rejected
  Keeps-replace_password token user password info = search (code_rules) depth 20

  Keeps-check_code :
      (user : User) (code password : String) (info : DeviceInfo)
      → Safe (check_code c user code password info)
  unfolding check_code reset_code_rejected
  Keeps-check_code user code password info =
      search (code_rules, Keeps-count_wrong_code, Keeps-replace_password) depth 12

  pub Keeps-reset_password :
      (headers : RequestHeaders) (body : Option ResetPasswordRequest)
      → Safe (reset_password c headers body)
  unfolding reset_password reset_code_rejected
  Keeps-reset_password headers none = Keeps-pure _
  Keeps-reset_password headers (some req) =
      elim (validate_password c req.password)
          as (λ v.
            v ≡ validate_password c req.password → Safe (reset_password c headers (some req))) [
              | err message ↦ λ e. rw (← e) (search code_rules)
              | ok _ ↦ λ e. rw (← e) (search (code_rules, Keeps-check_code) depth 12)
            ]
        refl

  Keeps-list_sessions : (user_id : Uuid) → Safe (statement (list_sessions user_id))
  unfolding list_sessions
  Keeps-list_sessions user_id = Keeps-other sid (list_sessions user_id) (λ now id s. refl)

  pub Keeps-list_devices : (user : Option Uuid) (current : Uuid) → Safe (list_devices user current)
  unfolding list_devices
  Keeps-list_devices user current = elim (Option-cases (signed_in user)) [
    | inl e ↦ rw (e, list_devices) (Keeps-pure _)
    | inr (user_id, e) ↦ rw (e, list_devices) (search (keeps_rules, Keeps-list_sessions))
  ]

  pub Keeps-revoke_device :
      (user : Option Uuid) (current : Uuid) (id : String) → Safe (revoke_device c user current id)
  unfolding revoke_device
  Keeps-revoke_device user current id = elim (Option-cases (signed_in user)) [
    | inl e ↦ rw (e, revoke_device) (Keeps-pure _)
    | inr (user_id, e) ↦ elim (Option-cases (c.parse_uuid id)) [
      | inl bad ↦ rw (e, bad, revoke_device) (Keeps-pure _)
      | inr (device_id, good) ↦
          rw (e, good, revoke_device) (search (keeps_rules, Keeps-revoke_session))
    ]
  ]

  pub Keeps-revoke_other_devices :
      (user : Option Uuid) (current : Uuid) → Safe (revoke_other_devices user current)
  unfolding revoke_other_devices
  Keeps-revoke_other_devices user current = elim (Option-cases (signed_in user)) [
    | inl e ↦ rw (e, revoke_other_devices) (Keeps-pure _)
    | inr (user_id, e) ↦
        rw (e, revoke_other_devices) (search (keeps_rules, Keeps-revoke_other_sessions))
  ]
