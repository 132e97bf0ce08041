-- ===== src/Auth/Issue.antt =====
-- internal/auth/handler.go: startSession and issueTokens, the end of every sign-in, and the calls
-- of bcrypt and crypto/rand.
use marco_api.Base.{
  ℕ, suc, ◌+◌, ◌/◌, String, Bool, Option, none, some, if◌then◌else◌, Uuid, Time, second, Reply,
  json, problem,
}
use marco_api.Base.Db.{Result, ok, err, World, Db, statement, pure, on_error, ◌>>=◌}
use marco_api.Users.{User}
use marco_api.Auth.{DeviceInfo, Server, Crypto, create_session}
use marco_api.Auth.Tokens.{save_refresh_token}

-- expires_in counts seconds.
pub record AuthResponse : Type 0 where
  pub access_token : String
  pub refresh_token : String
  pub expires_in : ℕ
  pub user : Option User

unfoldable pub time_now : Db Server Time
time_now w = (w.now, w)

-- A seed that no other draw has.
unfoldable pub draw : Db Server Uuid
draw w = (w.next_id, record w { next_id = suc w.next_id })

unfoldable pub pay_bcrypt : World Server → World Server
pay_bcrypt w = record w { tables = record w.tables { bcrypt_runs = w.tables.bcrypt_runs + 1 } }

abbrev pub present : {A : Type 0} → Option A → Result (Unit {0}) A
present none = err tt
present (some a) = ok a

module _ (c : Crypto) where
  -- bcrypt.GenerateFromPassword and bcrypt.CompareHashAndPassword: one round each.
  unfoldable pub generate_from_password : String → Db Server (Result (Unit {0}) String)
  unfolding pay_bcrypt draw
  generate_from_password password w =
      let (seed, w') = draw w in (present (c.bcrypt_hash seed password), pay_bcrypt w')

  unfoldable pub compare_hash : String → String → Db Server Bool
  unfolding pay_bcrypt
  compare_hash hash password w = (c.bcrypt_matches hash password, pay_bcrypt w)

  unfoldable pub generate_refresh_token : Db Server (Result (Unit {0}) String)
  unfolding draw
  generate_refresh_token w = let (seed, w') = draw w in (present (c.random_token seed), w')

  unfoldable pub generate_access_token : User → Uuid → Db Server (Result (Unit {0}) String)
  generate_access_token user session_id w =
      (present (c.sign_access user.id user.plan session_id w.now), w)

  unfoldable pub issue_tokens : User → Bool → Uuid → Db Server (Reply AuthResponse)
  unfolding generate_access_token generate_refresh_token time_now
  issue_tokens user include_user session_id =
      on_error (generate_access_token user session_id)
        (λ _. pure (problem 500 "failed to issue access token"))
        λ access.
          on_error generate_refresh_token (λ _. pure (problem 500 "failed to issue refresh token"))
            λ raw. time_now >>= λ now.
              on_error
                (statement
                  (save_refresh_token user.id session_id (c.hash_token raw) (now + c.refresh_ttl)))
                (λ _. pure (problem 500 "failed to persist refresh token"))
                λ _. pure (
                  json 200 (record {
                    access_token = access;
                    refresh_token = raw;
                    expires_in = c.access_ttl / second;
                    user = if include_user then some user else none;
                  }))

  unfoldable pub start_session : User → Bool → DeviceInfo → Db Server (Reply AuthResponse)
  start_session user include_user info =
      on_error (statement (create_session user.id info))
        (λ _. pure (problem 500 "failed to start session"))
        λ session. issue_tokens user include_user session.id
