-- ===== src/Auth/Tests.antt =====
-- Tests of internal/auth on one user with a password and one session.
use marco_api.Base.{
  status, ℕ, ◌≡◌, ◌≢◌, refl, arith, String, Bool, true, false, Option, none, some, List, [], ◌∷◌,
  Uuid, Time, Reply, json, problem, nil_uuid, ltb, is_some, ◌⊎◌, find_first, str_eq, has_prefix,
  ◌||◌,
}
use marco_api.Base.Db.{World, Db, Result, ok, err, no_rows}
use marco_api.Users.{User}
use marco_api.Auth.{RefreshToken, Session, Server, Crypto, PasswordResetToken, GooglePayload}
use marco_api.Auth.Tokens.{
  create_password_reset_token, get_live_password_reset_token, consume_password_reset_token,
  expire_password_reset_tokens,
}
use marco_api.Auth.Issue.{pay_bcrypt}
use marco_api.Auth.Handler.{refresh, SignInRequest, email_sign_in, invalid_credentials_message}
use marco_api.Auth.Handler.Text.{RequestHeaders, normalize_email, is_email, clamp_header}
use marco_api.Auth.Devices.{revoke_device}
use marco_api.Auth.Middleware.{Claims, Locals, auth_middleware, validate_access_token}
use marco_api.Auth.Codes.{
  consume_password_reset_token-Once, get_live-create_password_reset_token,
  get_live-expire_password_reset_tokens,
}
use marco_api.Auth.Enumeration.{is_bad_login, email_sign_in_rejects_alike}
use marco_api.Base.Db.Keeps.{Holds}
use marco_api.Auth.PasswordReset.{ResetPasswordRequest, reset_password}
use marco_api.Auth.Revocation.{IsRevoked}
use marco_api.Auth.Revocation.Refresh.{refresh_of_revoked}
use marco_api.Auth.Revocation.Reset.{reset_password-IsRevoked}
use marco_api.Auth.Revocation.Effect.{
  for_sign_in, for_revoke, Arrival, IsLockedOut, when, serve_all, signed_out_device-IsLockedOut,
}

abbrev user : User
user = record {
  id = 1;
  google_id = none;
  password_hash = some "hash of secret";
  email = "a@x.com";
  display_name = none;
  avatar_url = none;
  skill_level = none;
  dominant_hand = none;
  court_side = none;
  play_frequency = none;
  goal = none;
  plan = "free";
  created_at = 5;
  updated_at = 5;
}

abbrev session : Session
session = record {
  id = 2;
  user_id = 1;
  device_name = some "phone";
  platform = none;
  app_version = none;
  created_at = 6;
  last_seen_at = 6;
  revoked_at = none;
}

abbrev code : PasswordResetToken
code = record {
  id = 4;
  user_id = 1;
  code_hash = "hash of 123456";
  expires_at = 90;
  consumed_at = none;
  attempts = 2;
  created_at = 7;
}

abbrev server : Server
server = record {
  users = user ∷ [];
  sessions = session ∷ [];
  refresh_tokens = [];
  reset_tokens = code ∷ [];
  outbox = [];
  bcrypt_runs = 0;
}

abbrev world : World Server
world = record { tables = server; now = 10; next_id = 5; faults = [] }

abbrev headers : RequestHeaders
headers = record { device_name = " phone "; device_platform = ""; app_version = "" }

-- A library of which every call succeeds; a hash is the text itself.
abbrev crypto : Crypto
crypto = record {
  validate_google = λ t. none;
  parse_uuid = λ t. some 2;
  lower = λ ch. ch;
  is_digit = λ ch. true;
  bcrypt_hash = λ seed t. some t;
  bcrypt_matches = str_eq;
  random_token = λ seed. some "token";
  hash_token = λ t. t;
  random_code = λ seed. some "123456";
  sign_access = λ id plan session_id now. some "access";
  access_ttl = 900;
  refresh_ttl = 9000;
}

abbrev claims : Claims
claims = record { subject = ""; user_id = 1; plan = "free"; session_id = 2; expires_at = some 900 }

abbrev parse_claims : String → Option Claims
parse_claims t = some claims

abbrev parse_uuid : String → Option Uuid
parse_uuid t = none

abbrev wrong_password : SignInRequest
wrong_password = record { email = "a@x.com"; password = "guess" }

abbrev next : Locals → Db Server (Reply ℕ)
next l w = (json 200 7, w)

email_yes : is_email "a@x.com" ≡ true
unfolding is_email
email_yes = refl

email_no : is_email "a@x" ≡ false
unfolding is_email
email_no = refl

clamped : clamp_header " ab c " 3 ≡ "ab "
unfolding clamp_header marco_api.Base.trim_space
clamped = refl

reached : (auth_middleware parse_claims parse_uuid "Bearer t" next world).0 ≡ json 200 7
unfolding auth_middleware has_prefix marco_api.Base.Db.◌>>=◌ marco_api.Base.Db.on_error
    marco_api.Base.Db.statement marco_api.Auth.is_session_live find_first
reached = refl

signed_out : (revoke_device crypto (some 1) 2 "2" world).0 ≡ json 200 true
unfolding revoke_device marco_api.Base.Db.on_error marco_api.Auth.revoke_session
    marco_api.Base.Db.statement marco_api.Base.count_where find_first marco_api.Base.update_where
    marco_api.Base.Db.pure
signed_out = refl

claims_valid : validate_access_token parse_claims parse_uuid 60 "t" ≡ some claims
unfolding validate_access_token
claims_valid = refl

has_bearer : has_prefix "Bearer t" "Bearer " ≡ true
unfolding has_prefix
has_bearer = refl

given :
    (str_eq (normalize_email crypto wrong_password.email) "" || str_eq wrong_password.password "")
    ≡ false
unfolding normalize_email marco_api.Base.trim_space
given = refl

bad :
    is_bad_login crypto wrong_password.password (
      find_first
        (λ u. str_eq u.email (normalize_email crypto wrong_password.email))
        world.tables.users)
    ≡ true
unfolding is_bad_login find_first normalize_email marco_api.Base.trim_space
bad = refl

abbrev later : List Arrival
later =
    record { at = 20; faults = true ∷ []; request = for_sign_in headers (some wrong_password) }
    ∷ record { at = 30; faults = []; request = for_revoke (some 1) 2 "2" }
    ∷ []

not_nil : 2 ≢ nil_uuid
not_nil e = omega (arith, e)

signed_out_device-IsLockedOut_example :
    IsLockedOut
      (auth_middleware parse_claims parse_uuid "Bearer t" next
        (when 60 [] (serve_all crypto later (revoke_device crypto (some 1) 2 "2" world).1))).0
unfolding marco_api.Base.trim_prefix
signed_out_device-IsLockedOut_example =
    signed_out_device-IsLockedOut parse_claims parse_uuid crypto (some 1) 1 2 "2" world true later
      60 [] "Bearer t" claims next refl not_nil refl (omega arith, ((λ e. refl), tt)) signed_out
      has_bearer claims_valid

email_sign_in_rejects_alike_example :
    ((email_sign_in crypto headers (some wrong_password) world).0
      ≡ problem 401 invalid_credentials_message)
    × ((email_sign_in crypto headers (some wrong_password) world).1.tables
        ≡ (pay_bcrypt world).tables)
email_sign_in_rejects_alike_example =
    email_sign_in_rejects_alike crypto headers wrong_password world refl given bad

consume_password_reset_token-Once_example :
    (consume_password_reset_token 4 12 6 (consume_password_reset_token 4 11 5 server).1).0
    ≡ ok false
consume_password_reset_token-Once_example = consume_password_reset_token-Once 4 11 12 5 6 server

get_live-create_password_reset_token_example :
    (get_live_password_reset_token 1 50 6 (create_password_reset_token 1 "new" 100 40 5 server).1).0
    ≡ ok (record {
      id = 5;
      user_id = 1;
      code_hash = "new";
      expires_at = 100;
      consumed_at = none;
      attempts = 0;
      created_at = 40;
    })
get_live-create_password_reset_token_example =
    get_live-create_password_reset_token 1 "new" 100 40 50 5 6 server refl

get_live-expire_password_reset_tokens_example :
    (get_live_password_reset_token 1 12 6 (expire_password_reset_tokens 1 11 5 server).1).0
    ≡ err no_rows
get_live-expire_password_reset_tokens_example =
    get_live-expire_password_reset_tokens 1 11 12 5 6 server

abbrev revoked_world : World Server
revoked_world = record world {
  tables = record server {
    sessions = record session { revoked_at = some 8 } ∷ [];
    refresh_tokens =
        record { id = 3; user_id = 1; session_id = 2; token_hash = "t"; expires_at = 900 } ∷ [];
  };
}

abbrev stored : RefreshToken
stored = record { id = 3; user_id = 1; session_id = 2; token_hash = "t"; expires_at = 900 }

token_found :
    find_first (λ (r : RefreshToken). str_eq r.token_hash "t") revoked_world.tables.refresh_tokens
    ≡ some stored
unfolding find_first
token_found = refl

session-IsRevoked : Holds (IsRevoked 2) revoked_world
unfolding IsRevoked
session-IsRevoked = (omega arith, ((λ e. refl), tt))

refresh_of_revoked_example : status (refresh crypto headers (some "t") revoked_world).0 ≢ 200
refresh_of_revoked_example =
    refresh_of_revoked crypto headers "t" stored revoked_world token_found session-IsRevoked

abbrev new_password : ResetPasswordRequest
new_password = record { email = "a@x.com"; code = "hash of 123456"; password = "longer secret 1" }

user_found :
    find_first
      (λ (x : User). str_eq x.email (normalize_email crypto new_password.email))
      world.tables.users
    ≡ some user
unfolding find_first normalize_email marco_api.Base.trim_space
user_found = refl

reset_done : status (reset_password crypto headers (some new_password) world).0 ≡ 200
unfolding reset_password normalize_email marco_api.Base.trim_space
    marco_api.Auth.Handler.Text.validate_password marco_api.Base.Db.on_error
    marco_api.Base.Db.statement marco_api.Auth.on_users marco_api.Users.get_user_by_email find_first
    get_live_password_reset_token marco_api.Auth.Tokens.newest marco_api.Base.Db.◌>>=◌
    consume_password_reset_token marco_api.Base.count_where marco_api.Users.update_password
    marco_api.Auth.revoke_all_sessions marco_api.Users.get_user_by_id clamp_header
    marco_api.Auth.Handler.Text.device_info_from marco_api.Auth.Handler.rejected
    marco_api.Auth.Issue.compare_hash marco_api.Auth.Issue.draw
    marco_api.Auth.Issue.generate_access_token marco_api.Auth.Issue.generate_from_password
    marco_api.Auth.Issue.generate_refresh_token marco_api.Auth.Issue.issue_tokens
    marco_api.Auth.Issue.start_session marco_api.Auth.Tokens.save_refresh_token
    marco_api.Auth.create_session marco_api.Base.Db.pure marco_api.Base.update_where
    marco_api.Base.keep marco_api.Auth.Issue.time_now marco_api.Auth.PasswordReset.check_code
    marco_api.Auth.PasswordReset.replace_password
reset_done = refl

reset_password-IsRevoked_example :
    Holds (IsRevoked 2) (reset_password crypto headers (some new_password) world).1
reset_password-IsRevoked_example =
    reset_password-IsRevoked crypto headers new_password user 2 world user_found
      (omega arith, ((λ e. refl), tt)) reset_done
