-- ===== src/Auth/Devices.antt =====
-- internal/auth/sessions.go: the endpoints of the devices screen.
use marco_api.Base.{
  ℕ, String, Bool, Option, none, some, List, map, ◌&&◌, ◌==◌, not, if◌then◌else◌, Uuid, nil_uuid,
  Time, Reply, json, problem, signed_in,
}
use marco_api.Base.Db.{Db, statement, pure, on_error}
use marco_api.Auth.{Session, Server, Crypto, list_sessions, revoke_session, revoke_other_sessions}
use marco_api.Auth.Handler.{internal_error}

pub record DeviceResponse : Type 0 where
  pub id : Uuid
  pub device_name : Option String
  pub platform : Option String
  pub app_version : Option String
  pub signed_in_at : Time
  pub last_seen_at : Time
  pub current : Bool

unfoldable pub to_device_response : Uuid → Session → DeviceResponse
to_device_response current_id s = record {
  id = s.id;
  device_name = s.device_name;
  platform = s.platform;
  app_version = s.app_version;
  signed_in_at = s.created_at;
  last_seen_at = s.last_seen_at;
  current = not (current_id == nil_uuid) && s.id == current_id;
}

unfoldable pub list_devices : Option Uuid → Uuid → Db Server (Reply (List DeviceResponse))
unfolding to_device_response
list_devices user current = elim (signed_in user) [
  | none ↦ pure (problem 401 "unauthorized")
  | some user_id ↦
      on_error (statement (list_sessions user_id)) (λ _. internal_error)
        (λ sessions. pure (json 200 (map (to_device_response current) sessions)))
]

-- The answer is signed_out_self.
unfoldable pub revoke_device : Crypto → Option Uuid → Uuid → String → Db Server (Reply Bool)
revoke_device c user current id_param = elim (signed_in user) [
  | none ↦ pure (problem 401 "unauthorized")
  | some user_id ↦ elim (c.parse_uuid id_param) [
    | none ↦ pure (problem 400 "invalid device id")
    | some device_id ↦
        on_error (revoke_session user_id device_id) (λ _. internal_error)
          (λ revoked.
            if revoked
            then pure (json 200 (device_id == current))
            else pure (problem 404 "device not found"))
  ]
]

-- The answer is the number of sessions that were signed out.
unfoldable pub revoke_other_devices : Option Uuid → Uuid → Db Server (Reply ℕ)
revoke_other_devices user current = elim (signed_in user) [
  | none ↦ pure (problem 401 "unauthorized")
  | some user_id ↦
      if current == nil_uuid
      then pure (problem 409 "sign in again before signing out other devices")
      else on_error (statement (revoke_other_sessions user_id current)) (λ _. internal_error)
          (λ count. pure (json 200 count))
]
