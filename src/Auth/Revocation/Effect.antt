-- ===== src/Auth/Revocation/Effect.antt =====
-- What a revocation promises: whatever the clients ask next, and whichever statements fail, an access
-- token of the revoked session reaches no route.
use marco_api.Base.{
  ℕ, ◌<◌, ◌≡◌, ◌≢◌, refl, ap, ◌∙◌, String, Bool, true, false, ◌&&◌, Option, none, some, List, [],
  ◌∷◌, arith, ◌⊎◌, inl, inr, ◌==◌, ==_iff, if◌then◌else◌, Bool-cases, signed_in, nil_uuid, All,
  find_first, update_where, is_some, Uuid, Time, Reply, json, problem, has_prefix, trim_prefix,
}
use marco_api.Base.Db.{ok, err, World, Db, statement, attempt, pure, on_error, ◌>>=◌}
use marco_api.Base.Db.Keeps.{Holds}
use marco_api.Base.Db.Success.{statement-Ran, on_error_cases}
use marco_api.Auth.{
  Session, Server, Crypto, is_live, revoke, is_session_live, revoke_session, revoke_session_tokens,
  answer_revoked,
}
use marco_api.Auth.Issue.{time_now}
use marco_api.Auth.Handler.{
  SignUpRequest, SignInRequest, internal_error, google_sign_in, refresh, sign_out, email_sign_up,
  email_sign_in,
}
use marco_api.Auth.Handler.Text.{RequestHeaders}
use marco_api.Auth.PasswordReset.{ResetPasswordRequest, forgot_password, reset_password}
use marco_api.Auth.Devices.{list_devices, revoke_device, revoke_other_devices}
use marco_api.Auth.Middleware.{Claims, Locals, validate_access_token, auth_middleware}
use marco_api.Auth.Revocation.{IsRevoked, Keeps-answer_revoked}
use marco_api.Auth.Revocation.Handlers.{
  Keeps-google_sign_in, Keeps-refresh, Keeps-sign_out, Keeps-email_sign_up, Keeps-email_sign_in,
}
use marco_api.Auth.Revocation.Codes.{
  Keeps-forgot_password, Keeps-reset_password, Keeps-list_devices, Keeps-revoke_device,
  Keeps-revoke_other_devices,
}

-- A request to a route of the package, with what the fiber context holds for it.
pub data Request : Type 0 where
  for_google : RequestHeaders → Option String → Request
  for_refresh : RequestHeaders → Option String → Request
  for_sign_out : Option Uuid → Uuid → Request
  for_sign_up : RequestHeaders → Option SignUpRequest → Request
  for_sign_in : RequestHeaders → Option SignInRequest → Request
  for_code : Option String → Request
  for_reset : RequestHeaders → Option ResetPasswordRequest → Request
  for_devices : Option Uuid → Uuid → Request
  for_revoke : Option Uuid → Uuid → String → Request
  for_revoke_others : Option Uuid → Uuid → Request

-- The world after the request.
unfoldable pub serve : Crypto → Request → World Server → World Server
serve c (for_google h b) w = (google_sign_in c h b w).1
serve c (for_refresh h b) w = (refresh c h b w).1
serve c (for_sign_out u s) w = (sign_out c u s w).1
serve c (for_sign_up h b) w = (email_sign_up c h b w).1
serve c (for_sign_in h b) w = (email_sign_in c h b w).1
serve c (for_code b) w = (forgot_password c b w).1
serve c (for_reset h b) w = (reset_password c h b w).1
serve c (for_devices u s) w = (list_devices u s w).1
serve c (for_revoke u s d) w = (revoke_device c u s d w).1
serve c (for_revoke_others u s) w = (revoke_other_devices u s w).1

-- A request with the time it comes at and the statements that will fail.
pub record Arrival : Type 0 where
  pub at : Time
  pub faults : List Bool
  pub request : Request

abbrev pub when : Time → List Bool → World Server → World Server
when at faults w = record w { now = at; faults = faults }

unfoldable pub serve_all : Crypto → List Arrival → World Server → World Server
unfolding serve
serve_all c [] w = w
serve_all c (r ∷ rs) w = serve_all c rs (serve c r.request (when r.at r.faults w))

-- The session id was handed out, and the rows under it are the user's.
abbrev pub IsSessionOf : Uuid → Uuid → Uuid → Server → Type 0
IsSessionOf user_id sid next s =
    (sid < next) × All (λ (x : Session). x.id ≡ sid → x.user_id ≡ user_id) s.sessions

-- The two answers of the middleware to a token of a dead session.
abbrev pub IsLockedOut : {A : Type 0} → Reply A → Type 0
IsLockedOut r = (r ≡ problem 401 "session_revoked") ⊎ (r ≡ problem 503 "internal server error")

revoked_rows :
    (user_id sid : Uuid) (now : Time) (xs : List Session)
    → All (λ (x : Session). x.id ≡ sid → x.user_id ≡ user_id) xs
    → All
        (λ (x : Session). x.id ≡ sid → is_some x.revoked_at ≡ true)
        (update_where
          (λ (x : Session). x.id == sid && x.user_id == user_id && is_live x)
          (revoke now)
          xs)
unfolding update_where
revoked_rows user_id sid now [] h = tt
revoked_rows user_id sid now (x ∷ xs) (own, h) =
    ((λ e. let mine = own (ground arith) in ground arith), revoked_rows user_id sid now xs h)

abbrev seems_live : Option Session → Bool
seems_live none = false
seems_live (some x) = is_live x

found_revoked :
    (sid : Uuid) (xs : List Session)
    → All (λ (x : Session). x.id ≡ sid → is_some x.revoked_at ≡ true) xs
    → seems_live (find_first (λ x. x.id == sid) xs) ≡ false
unfolding find_first
found_revoked sid [] h = refl
found_revoked sid (x ∷ xs) (dead, h) = elim (Bool-cases (x.id == sid)) [
  | inl e ↦ let gone = dead ((==_iff x.id sid).0 e) in ground arith
  | inr e ↦ let rest = found_revoked sid xs h in ground arith
]

-- is_session_live says false of a revoked session, whatever the clock.
live_of_revoked :
    (sid : Uuid) (w : World Server)
    → Holds (IsRevoked sid) w
    → (is_session_live sid w.now w.next_id w.tables).0 ≡ ok false
unfolding is_session_live IsRevoked
live_of_revoked sid w (fresh, h) = let dead = found_revoked sid w.tables.sessions h in ground arith

statement-IsRevoked :
    (user_id sid : Uuid) (w : World Server) (deleted : ℕ)
    → Holds (IsSessionOf user_id sid) w
    → (statement (revoke_session_tokens user_id sid) w).0 ≡ ok deleted
    → Holds (IsRevoked sid) (statement (revoke_session_tokens user_id sid) w).1
unfolding revoke_session_tokens IsRevoked
statement-IsRevoked user_id sid w deleted (fresh, own) h =
    let ran = statement-Ran (revoke_session_tokens user_id sid) w deleted h in
    let rows = revoked_rows user_id sid w.now w.tables.sessions own in
    (omega (arith, ran.next_id), rw ran.tables rows)

-- Whatever it answers without an error, the session is revoked.
revoke_session-IsRevoked :
    (user_id sid : Uuid) (w : World Server) (b : Bool)
    → Holds (IsSessionOf user_id sid) w
    → (revoke_session user_id sid w).0 ≡ ok b
    → Holds (IsRevoked sid) (revoke_session user_id sid w).1
unfolding revoke_session
revoke_session-IsRevoked user_id sid w b own h =
    elim (on_error_cases (statement (revoke_session_tokens user_id sid)) (λ e. pure (err e))
      (answer_revoked user_id sid) w) [
        | inl (e, _, same) ↦ absurd (unfold pure in ground (arith, h, same))
        | inr (deleted, ran, same) ↦ rw same (
            (Keeps-answer_revoked sid user_id sid deleted).after _
              (statement-IsRevoked user_id sid w deleted own ran))
      ]

-- A device that RevokeDevice has signed out, with the answer 200, is revoked.
revoke_device-IsRevoked :
    (c : Crypto) (user : Option Uuid) (user_id current sid : Uuid) (id_param : String)
    (w : World Server) (self : Bool)
    → signed_in user ≡ some user_id
    → c.parse_uuid id_param ≡ some sid
    → Holds (IsSessionOf user_id sid) w
    → (revoke_device c user current id_param w).0 ≡ json 200 self
    → Holds (IsRevoked sid) (revoke_device c user current id_param w).1
unfolding revoke_device
revoke_device-IsRevoked c user user_id current sid id_param w self known parsed own h =
    let go : Bool → Db Server (Reply Bool) = λ revoked.
      if revoked then pure (json 200 (sid == current)) else pure (problem 404 "device not found") in
    let same : revoke_device c user current id_param w
        ≡ on_error (revoke_session user_id sid) (λ _. internal_error) go w =
      rw (known, parsed, revoke_device) refl in
    elim (on_error_cases (revoke_session user_id sid) (λ _. internal_error) go w) [
      | inl (e, _, failed) ↦ absurd (unfold pure in ground (arith, h, same, failed))
      | inr (revoked, answered, went) ↦
          let stays : (go revoked (revoke_session user_id sid w).1).1
              ≡ (revoke_session user_id sid w).1 =
            unfold pure in ground arith in
          rw (ap (λ x. x.1) (same ∙ went) ∙ stays)
            (revoke_session-IsRevoked user_id sid w revoked own answered)
    ]

serve-IsRevoked :
    (c : Crypto) (sid : Uuid) (r : Request) (w : World Server)
    → Holds (IsRevoked sid) w
    → Holds (IsRevoked sid) (serve c r w)
unfolding serve
serve-IsRevoked c sid (for_google h b) w k = (Keeps-google_sign_in sid c h b).after w k
serve-IsRevoked c sid (for_refresh h b) w k = (Keeps-refresh sid c h b).after w k
serve-IsRevoked c sid (for_sign_out u s) w k = (Keeps-sign_out sid c u s).after w k
serve-IsRevoked c sid (for_sign_up h b) w k = (Keeps-email_sign_up sid c h b).after w k
serve-IsRevoked c sid (for_sign_in h b) w k = (Keeps-email_sign_in sid c h b).after w k
serve-IsRevoked c sid (for_code b) w k = (Keeps-forgot_password sid c b).after w k
serve-IsRevoked c sid (for_reset h b) w k = (Keeps-reset_password sid c h b).after w k
serve-IsRevoked c sid (for_devices u s) w k = (Keeps-list_devices sid c u s).after w k
serve-IsRevoked c sid (for_revoke u s d) w k = (Keeps-revoke_device sid c u s d).after w k
serve-IsRevoked c sid (for_revoke_others u s) w k = (Keeps-revoke_other_devices sid c u s).after w k

serve_all-IsRevoked :
    (c : Crypto) (sid : Uuid) (rs : List Arrival) (w : World Server)
    → Holds (IsRevoked sid) w
    → Holds (IsRevoked sid) (serve_all c rs w)
unfolding serve_all
serve_all-IsRevoked c sid [] w k = k
serve_all-IsRevoked c sid (r ∷ rs) w k =
    serve_all-IsRevoked c sid rs (serve c r.request (when r.at r.faults w))
      (serve-IsRevoked c sid r.request (when r.at r.faults w) k)

module _ (parse_claims : String → Option Claims) (parse_uuid : String → Option Uuid) where
  middleware_refuses :
      {A : Type 0} (header : String) (claims : Claims) (next : Locals → Db Server (Reply A))
      (w : World Server)
      → has_prefix header "Bearer " ≡ true
      → validate_access_token parse_claims parse_uuid w.now (trim_prefix header "Bearer ")
        ≡ some claims
      → claims.session_id ≢ nil_uuid
      → Holds (IsRevoked claims.session_id) w
      → IsLockedOut (auth_middleware parse_claims parse_uuid header next w).0
  unfolding auth_middleware on_error statement attempt ◌>>=◌ pure time_now
  middleware_refuses header claims next w bearer valid named dead =
      let gone = live_of_revoked claims.session_id w dead in ground arith

  -- A device that an earlier 200 of RevokeDevice has signed out stays out. The session it names was
  -- handed out and its rows are the caller's. Whatever requests come after, at whatever times and with
  -- whatever database failures, and whatever the route would do, the middleware answers an access
  -- token that is valid and names the session with 401 or 503.
  pub signed_out_device-IsLockedOut :
      (c : Crypto) (user : Option Uuid) (user_id current : Uuid) (id_param : String)
      (w : World Server) (self : Bool) (rs : List Arrival) (at : Time) (faults : List Bool)
      {A : Type 0} (header : String) (claims : Claims) (next : Locals → Db Server (Reply A))
      → signed_in user ≡ some user_id
      → claims.session_id ≢ nil_uuid
      → c.parse_uuid id_param ≡ some claims.session_id
      → Holds (IsSessionOf user_id claims.session_id) w
      → (revoke_device c user current id_param w).0 ≡ json 200 self
      → has_prefix header "Bearer " ≡ true
      → validate_access_token parse_claims parse_uuid at (trim_prefix header "Bearer ")
        ≡ some claims
      → IsLockedOut
          (auth_middleware parse_claims parse_uuid header next
            (when at faults (serve_all c rs (revoke_device c user current id_param w).1))).0
  signed_out_device-IsLockedOut c user user_id current id_param w self rs at faults header claims
        next known named parsed own done bearer valid =
      let revoked =
        revoke_device-IsRevoked c user user_id current claims.session_id id_param w self known
          parsed own done in
      let still = serve_all-IsRevoked c claims.session_id rs _ revoked in
      middleware_refuses header claims next
        (when at faults (serve_all c rs (revoke_device c user current id_param w).1)) bearer valid
        named still
