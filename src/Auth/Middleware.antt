-- ===== src/Auth/Middleware.antt =====
-- internal/middleware/auth.go and ValidateAccessToken of internal/auth/jwt.go: what a request with an
-- access token may reach.
use marco_api.Base.{
  String, Bool, true, Option, none, some, ◌==◌, ltb, not, if◌then◌else◌, Uuid, nil_uuid, Time,
  Reply, problem, has_prefix, trim_prefix,
}
use marco_api.Base.Db.{Db, statement, pure, on_error, ◌>>=◌}
use marco_api.Auth.{Server, is_session_live}
use marco_api.Auth.Issue.{time_now}

pub record Claims : Type 0 where
  pub subject : String
  pub user_id : Uuid
  pub plan : String
  pub session_id : Uuid
  pub expires_at : Option Time

-- The locals of the fiber context.
pub record Locals : Type 0 where
  pub user_id : Uuid
  pub plan : String
  pub session_id : Uuid

abbrev has_expired : Time → Option Time → Bool
has_expired now none = true
has_expired now (some t) = ltb t now

-- `parse_claims` is jwt.ParseWithClaims with the HMAC key, none where it fails or the token is not
-- valid; `parse_uuid` is uuid.Parse.
module _ (parse_claims : String → Option Claims) (parse_uuid : String → Option Uuid) where
  unfoldable pub validate_access_token : Time → String → Option Claims
  validate_access_token now token = elim (parse_claims token) [
    | none ↦ none
    | some claims ↦
        if has_expired now claims.expires_at
        then none
        else if not (claims.user_id == nil_uuid)
        then some claims
        else elim (parse_uuid claims.subject) [
          | none ↦ none
          | some id ↦ some (record claims { user_id = id })
        ]
  ]

  abbrev pub locals_of : Claims → Locals
  locals_of claims = record {
    user_id = claims.user_id;
    plan = claims.plan;
    session_id = claims.session_id;
  }

  -- The middleware, before the handler `next` of the route.
  unfoldable pub auth_middleware :
      {A : Type 0} → String → (Locals → Db Server (Reply A)) → Db Server (Reply A)
  unfolding validate_access_token time_now
  auth_middleware header next =
      if not (has_prefix header "Bearer ")
      then pure (problem 401 "missing or invalid authorization header")
      else (time_now >>= λ now. elim (validate_access_token now (trim_prefix header "Bearer ")) [
        | none ↦ pure (problem 401 "invalid token")
        | some claims ↦
            if claims.session_id == nil_uuid
            then next (locals_of claims)
            else on_error (statement (is_session_live claims.session_id))
                (λ _. pure (problem 503 "internal server error"))
                λ live.
                  if live then next (locals_of claims) else pure (problem 401 "session_revoked")
      ])
