-- ===== src/Auth/Revocation/Reset.antt =====
-- A password reset signs every device of the account out.
use marco_api.Base.{
  ℕ, ◌≡◌, ◌≢◌, refl, sym, ap, ◌∙◌, String, Bool, true, false, some, List, [], ◌∷◌, arith, inl, inr,
  ◌&&◌, ◌||◌, if◌then◌else◌, ◌==◌, str_eq, Bool-cases, All, update_where, find_first, is_some, Uuid,
  Time, Reply, problem, status,
}
use marco_api.Base.Db.{
  DbError, no_rows, failed, Result, ok, err, World, Db, statement, pure, on_error, ◌>>=◌,
}
use marco_api.Base.Db.Keeps.{Holds, Keeps, Keeps-pure, Keeps-statement, Keeps-on_error}
use marco_api.Base.Db.Success.{statement-Ran, on_error_cases}
use marco_api.Users.{User, Query, get_user_by_id, get_user_by_email, update_password}
use marco_api.Auth.{
  Session, DeviceInfo, PasswordResetToken, Server, Crypto, AuthQuery, is_live, revoke, on_users,
  revoke_all_sessions,
}
use marco_api.Auth.Tokens.{
  get_live_password_reset_token, increment_password_reset_attempts, consume_password_reset_token,
  expire_password_reset_tokens,
}
use marco_api.Auth.Issue.{generate_from_password, compare_hash}
use marco_api.Auth.Handler.{internal_error, unless_missing, rejected}
use marco_api.Auth.Handler.Text.{RequestHeaders, normalize_email, validate_password}
use marco_api.Auth.PasswordReset.{
  ResetPasswordRequest, reset_code_rejected, count_wrong_code, replace_password, check_code,
  reset_password,
}
use marco_api.Auth.Revocation.{IsRevoked, Keeps-on_users}
use marco_api.Auth.Revocation.Handlers.{Keeps-start_session}
use marco_api.Auth.Revocation.Effect.{IsSessionOf}

module _ (user_id sid : Uuid) (c : Crypto) where
  abbrev Owned : Uuid → Server → Type 0
  Owned = IsSessionOf user_id sid

  -- If the code answers 200 the session is revoked afterwards.
  record Revokes {A : Type 0} (m : Db Server (Reply A)) : Type 0 where
    after :
        (w : World Server) → Holds Owned w → status (m w).0 ≡ 200 → Holds (IsRevoked sid) (m w).1

  Revokes-problem :
      {A : Type 0} (n : ℕ) (message : String)
      → n ≢ 200
      → Revokes (pure {A = Reply A} (problem n message))
  unfolding pure
  Revokes-problem n message h = record { after = λ w k e. absurd (h e) }

  Revokes-on_error :
      {A B E : Type 0} (m : Db Server (Result E B)) (bad : E → Db Server (Reply A))
      (go : B → Db Server (Reply A))
      → Keeps Owned m
      → ((e : E) → Revokes (bad e))
      → ((b : B) → Revokes (go b))
      → Revokes (on_error m bad go)
  Revokes-on_error m bad go km rb rg = record {
    after = λ w k done. elim (on_error_cases m bad go w) [
      | inl (e, _, same) ↦
          rw same ((rb e).after _ (km.after w k) (ap (λ x. status x.0) (sym same) ∙ done))
      | inr (b, _, same) ↦
          rw same ((rg b).after _ (km.after w k) (ap (λ x. status x.0) (sym same) ∙ done))
    ];
  }

  Revokes-if :
      {A : Type 0} (b : Bool) (m n : Db Server (Reply A))
      → Revokes m
      → Revokes n
      → Revokes (if b then m else n)
  Revokes-if true m n rm rn = rm
  Revokes-if false m n rm rn = rn

  Revokes-bind :
      {A B : Type 0} (m : Db Server B) (f : B → Db Server (Reply A))
      → Keeps Owned m
      → ((b : B) → Revokes (f b))
      → Revokes (m >>= f)
  unfolding ◌>>=◌
  Revokes-bind m f km rf = record {
    after = λ w k. let (b, v) = m w in (rf b).after v (km.after w k);
  }

  Revokes-internal_error : {A : Type 0} → Revokes (internal_error {A = A})
  Revokes-internal_error = Revokes-problem 500 _ (λ e. absurd (omega arith))

  Owned-other :
      {A : Type 0} (f : AuthQuery A)
      → ((now : Time) (id : Uuid) (s : Server) → (f now id s).1.sessions ≡ s.sessions)
      → Keeps Owned (statement f)
  Owned-other f same = Keeps-statement f λ now id s (fresh, h). (omega arith, rw (same now id s) h)

  Owned-on_users : {A : Type 0} (f : Query A) → Keeps Owned (statement (on_users f))
  unfolding on_users
  Owned-on_users f = Owned-other (on_users f) (λ now id s. refl)

  revoked_rows :
      (now : Time) (xs : List Session)
      → All (λ (x : Session). x.id ≡ sid → x.user_id ≡ user_id) xs
      → All
          (λ (x : Session). x.id ≡ sid → is_some x.revoked_at ≡ true)
          (update_where (λ (x : Session). x.user_id == user_id && is_live x) (revoke now) xs)
  unfolding update_where
  revoked_rows now [] h = tt
  revoked_rows now (x ∷ xs) (own, h) =
      ((λ e. let mine = own (ground arith) in ground arith), revoked_rows now xs h)

  revoke_all-IsRevoked :
      (w : World Server) (r : Unit {0})
      → Holds Owned w
      → (statement (revoke_all_sessions user_id) w).0 ≡ ok r
      → Holds (IsRevoked sid) (statement (revoke_all_sessions user_id) w).1
  unfolding revoke_all_sessions IsRevoked
  revoke_all-IsRevoked w r (fresh, own) h =
      let ran = statement-Ran (revoke_all_sessions user_id) w r h in
      let rows = revoked_rows w.now w.tables.sessions own in
      (omega (arith, ran.next_id), rw ran.tables rows)

  Revokes-revoke_all :
      {A : Type 0} (go : Unit {0} → Db Server (Reply A))
      → ((u : Unit {0}) → Keeps (IsRevoked sid) (go u))
      → Revokes (on_error (statement (revoke_all_sessions user_id)) (λ _. internal_error) go)
  Revokes-revoke_all go kg = record {
    after = λ w k done.
        elim (on_error_cases (statement (revoke_all_sessions user_id)) (λ _. internal_error) go w) [
          | inl (e, _, same) ↦
              absurd (unfold pure in ground (arith, ap (λ x. status x.0) (sym same) ∙ done))
          | inr (u, ran, same) ↦ rw same ((kg u).after _ (revoke_all-IsRevoked w u k ran))
        ];
  }

  Owned-generate_from_password : (p : String) → Keeps Owned (generate_from_password c p)
  unfolding generate_from_password
  Owned-generate_from_password p = record { after = λ w (fresh, h). (omega arith, h) }

  Owned-compare_hash : (hash p : String) → Keeps Owned (compare_hash c hash p)
  unfolding compare_hash
  Owned-compare_hash hash p = record { after = λ w k. k }

  Revokes-rejected :
      {A : Type 0} (unverified : String) → Revokes (reset_code_rejected c {A = A} unverified)
  unfolding reset_code_rejected rejected ◌>>=◌ pure
  Revokes-rejected unverified = record { after = λ w k done. absurd (ground (arith, done)) }

  Owned-increment : (id : Uuid) → Keeps Owned (statement (increment_password_reset_attempts id))
  unfolding increment_password_reset_attempts
  Owned-increment id = Owned-other (increment_password_reset_attempts id) (λ now id s. refl)

  Owned-expire : (u : Uuid) → Keeps Owned (statement (expire_password_reset_tokens u))
  unfolding expire_password_reset_tokens
  Owned-expire u = Owned-other (expire_password_reset_tokens u) (λ now id s. refl)

  Owned-consume : (id : Uuid) → Keeps Owned (statement (consume_password_reset_token id))
  unfolding consume_password_reset_token
  Owned-consume id = Owned-other (consume_password_reset_token id) (λ now id s. refl)

  Owned-get_live : (u : Uuid) → Keeps Owned (statement (get_live_password_reset_token u))
  unfolding get_live_password_reset_token
  Owned-get_live u = Owned-other (get_live_password_reset_token u) (λ now id s. refl)

  Revokes-count_wrong_code :
      (token : PasswordResetToken) (u : Uuid) → Revokes (count_wrong_code c token u)
  unfolding count_wrong_code
  Revokes-count_wrong_code token u =
      Revokes-on_error _ _ _ (Owned-increment token.id) (λ _. Revokes-rejected "")
        λ attempts.
          Revokes-if _ _ _
            (Revokes-on_error _ _ _ (Owned-expire u) (λ _. Revokes-rejected "")
              (λ _. Revokes-rejected ""))
            (Revokes-rejected "")

  Revokes-unless_missing :
      {A : Type 0} (m : Db Server (Reply A))
      → Revokes m
      → (e : DbError) → Revokes (unless_missing m e)
  Revokes-unless_missing m r no_rows = r
  Revokes-unless_missing m r failed = Revokes-internal_error

  Revokes-replace_password :
      (token : PasswordResetToken) (user : User) (password : String) (info : DeviceInfo)
      → user.id ≡ user_id
      → Revokes (replace_password c token user password info)
  unfolding replace_password
  Revokes-replace_password token user password info same =
      Revokes-on_error _ _ _ (Owned-consume token.id) (λ _. Revokes-internal_error)
        λ consumed. Revokes-if _ _ _ (Revokes-rejected "") (
          Revokes-on_error _ _ _ (Owned-generate_from_password password)
            (λ _. Revokes-internal_error)
            λ hash.
              Revokes-on_error _ _ _ (Owned-on_users (update_password user.id hash))
                (λ _. Revokes-internal_error)
                λ _. rw same (
                  Revokes-revoke_all _ λ _.
                    Keeps-on_error _ _ _ (Keeps-on_users sid (get_user_by_id user_id))
                      (λ _. Keeps-pure _) (λ current. Keeps-start_session sid c current true info)))

  Revokes-check_code :
      (user : User) (code password : String) (info : DeviceInfo)
      → user.id ≡ user_id
      → Revokes (check_code c user code password info)
  unfolding check_code
  Revokes-check_code user code password info same =
      Revokes-on_error _ _ _ (Owned-get_live user.id)
        (Revokes-unless_missing _ (Revokes-rejected code))
        λ token. Revokes-bind _ _ (Owned-compare_hash token.code_hash code) λ matches.
          Revokes-if _ _ _ (Revokes-replace_password token user password info same)
            (Revokes-count_wrong_code token user.id)

found_user :
    (email : String) (w : World Server) (u v : User)
    → find_first (λ (x : User). str_eq x.email email) w.tables.users ≡ some u
    → (statement (on_users (get_user_by_email email)) w).0 ≡ ok v
    → u ≡ v
unfolding get_user_by_email on_users
found_user email w u v found ran =
    let value = (statement-Ran (on_users (get_user_by_email email)) w v ran).value in ground arith

module _ (c : Crypto) where
  account_reset :
      (user : User) (sid : Uuid) (email code password : String) (info : DeviceInfo)
      (w : World Server)
      → find_first (λ (x : User). str_eq x.email email) w.tables.users ≡ some user
      → Holds (IsSessionOf user.id sid) w
      → status
          (on_error
            (statement (on_users (get_user_by_email email)))
            (unless_missing (reset_code_rejected c code))
            (λ u. check_code c u code password info)
            w).0
        ≡ 200
      → Holds
          (IsRevoked sid)
          (on_error
            (statement (on_users (get_user_by_email email)))
            (unless_missing (reset_code_rejected c code))
            (λ u. check_code c u code password info)
            w).1
  account_reset user sid email code password info w found own done =
      elim (on_error_cases (statement (on_users (get_user_by_email email)))
        (unless_missing (reset_code_rejected c code)) (λ u. check_code c u code password info) w) [
          | inl (e, _, same) ↦ rw same (
              (Revokes-unless_missing user.id sid c _ (Revokes-rejected user.id sid c code) e).after
                _ ((Owned-on_users user.id sid c (get_user_by_email email)).after w own)
                (ap (λ x. status x.0) (sym same) ∙ done))
          | inr (u, ran, same) ↦
              let known = found_user email w user u found ran in
              rw same (
                (Revokes-check_code user.id sid c u code password info
                    (ap (λ (x : User). x.id) (sym known))).after
                  _ ((Owned-on_users user.id sid c (get_user_by_email email)).after w own)
                  (ap (λ x. status x.0) (sym same) ∙ done))
        ]

  -- A password reset that answers 200 signs the devices of the account out: each session that was
  -- handed out before the reset, and whose rows are those of the account with the address, is revoked
  -- after it, whichever statements failed on the way.
  pub reset_password-IsRevoked :
      (headers : RequestHeaders) (req : ResetPasswordRequest) (user : User) (sid : Uuid)
      (w : World Server)
      → find_first (λ (x : User). str_eq x.email (normalize_email c req.email)) w.tables.users
        ≡ some user
      → Holds (IsSessionOf user.id sid) w
      → status (reset_password c headers (some req) w).0 ≡ 200
      → Holds (IsRevoked sid) (reset_password c headers (some req) w).1
  unfolding reset_password
  reset_password-IsRevoked headers req user sid w found own =
      elim (Bool-cases (str_eq (normalize_email c req.email) "" || str_eq req.code "")) [
        | inl e ↦ rw (e, reset_password) (λ done. absurd (unfold pure in ground (arith, done)))
        | inr e ↦
            elim (validate_password c req.password)
                as (λ v.
                  v ≡ validate_password c req.password
                  → status (reset_password c headers (some req) w).0 ≡ 200
                  → Holds (IsRevoked sid) (reset_password c headers (some req) w).1) [
                    | err message ↦ λ v.
                        rw (e, ← v, reset_password)
                          (λ done. absurd (unfold pure in ground (arith, done)))
                    | ok _ ↦ λ v.
                        rw (e, ← v, reset_password)
                          (account_reset user sid _ req.code req.password _ w found own)
                  ]
              refl
      ]
