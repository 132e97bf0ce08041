-- ===== src/Auth/Revocation.antt =====
-- A session that is revoked stays revoked: each statement of internal/auth and of internal/users, and
-- each handler built of them, keeps it so.
pub mod Handlers
pub mod Codes
pub mod Effect
pub mod Refresh
pub mod Reset
use marco_api.Base.{
  ℕ, zero, suc, ◌+◌, ◌≤◌, ◌<◌, ◌==◌, ==_iff, ◌≡◌, refl, String, Bool, true, false, Option, none,
  some, List, [], ◌∷◌, ◌++◌, arith, if◌then◌else◌, Uuid, Time, All, All-append, update_where,
  is_some, Reply,
}
use marco_api.Base.Db.{
  DbError, no_rows, failed, Result, ok, err, World, Db, statement, pure, on_error, ◌>>=◌,
}
use marco_api.Base.Db.Keeps.{
  Holds, Keeps, Keeps-pure, Keeps-if, Keeps-statement, Keeps-on_error, Keeps-bind, keeps_rules,
}
use marco_api.Users.{User, Query}
use marco_api.Auth.{
  Session, DeviceInfo, Server, Crypto, AuthQuery, on_users, create_session, touch_session, touched,
  revoke, revoke_session_tokens, was_revoked, answer_revoked, revoke_session, revoke_other_sessions,
  revoke_all_sessions, list_sessions, is_session_live,
}

-- Every row of the session is revoked, and its id is not handed out again.
unfoldable pub IsRevoked : Uuid → Uuid → Server → Type 0
IsRevoked sid next s =
    (sid < next) × All (λ (x : Session). x.id ≡ sid → is_some x.revoked_at ≡ true) s.sessions

All-update_where :
    {A : Type 0} (P : A → Type 0) (hit : A → Bool) (f : A → A) (xs : List A)
    → ((x : A) → P x → P (f x))
    → All P xs
    → All P (update_where hit f xs)
unfolding update_where
All-update_where P hit f [] k h = tt
All-update_where P hit f (x ∷ xs) k (p, h) = (choose (hit x), All-update_where P hit f xs k h)
  where
    choose : (b : Bool) → P (if b then f x else x)
    choose true = k x p
    choose false = p

module _ (sid : Uuid) where
  -- A statement that leaves the sessions alone.
  pub Keeps-other :
      {A : Type 0} (f : AuthQuery A)
      → ((now : Time) (id : Uuid) (s : Server) → (f now id s).1.sessions ≡ s.sessions)
      → Keeps (IsRevoked sid) (statement f)
  unfolding IsRevoked
  Keeps-other f same = Keeps-statement f λ now id s (fresh, h). (omega arith, rw (same now id s) h)

  pub Keeps-on_users : {A : Type 0} (f : Query A) → Keeps (IsRevoked sid) (statement (on_users f))
  unfolding on_users
  Keeps-on_users f = Keeps-other (on_users f) (λ now id s. refl)

  pub Keeps-create_session :
      (user_id : Uuid) (info : DeviceInfo)
      → Keeps (IsRevoked sid) (statement (create_session user_id info))
  unfolding IsRevoked create_session
  Keeps-create_session user_id info =
      Keeps-statement (create_session user_id info) λ now id s (fresh, h).
        (omega arith, All-append _ s.sessions _ h ((λ e. absurd (omega arith)), tt))

  pub Keeps-touch_session :
      (session_id : Uuid) (info : DeviceInfo)
      → Keeps (IsRevoked sid) (statement (touch_session session_id info))
  unfolding IsRevoked touch_session touched
  Keeps-touch_session session_id info =
      Keeps-statement (touch_session session_id info) λ now id s (fresh, h).
        (omega arith, All-update_where _ _ (touched info now) s.sessions (λ x p e. p e) h)

  pub Keeps-revoke_session_tokens :
      (user_id session_id : Uuid)
      → Keeps (IsRevoked sid) (statement (revoke_session_tokens user_id session_id))
  unfolding IsRevoked revoke_session_tokens
  Keeps-revoke_session_tokens user_id session_id =
      Keeps-statement (revoke_session_tokens user_id session_id) λ now id s (fresh, h).
        (omega arith, All-update_where _ _ (revoke now) s.sessions (λ x p e. refl) h)

  pub Keeps-revoke_other_sessions :
      (user_id keep_id : Uuid)
      → Keeps (IsRevoked sid) (statement (revoke_other_sessions user_id keep_id))
  unfolding IsRevoked revoke_other_sessions
  Keeps-revoke_other_sessions user_id keep_id =
      Keeps-statement (revoke_other_sessions user_id keep_id) λ now id s (fresh, h).
        (omega arith, All-update_where _ _ (revoke now) s.sessions (λ x p e. refl) h)

  pub Keeps-revoke_all_sessions :
      (user_id : Uuid) → Keeps (IsRevoked sid) (statement (revoke_all_sessions user_id))
  unfolding IsRevoked revoke_all_sessions
  Keeps-revoke_all_sessions user_id =
      Keeps-statement (revoke_all_sessions user_id) λ now id s (fresh, h).
        (omega arith, All-update_where _ _ (revoke now) s.sessions (λ x p e. refl) h)

  pub Keeps-answer_revoked :
      (user_id session_id : Uuid) (deleted : ℕ)
      → Keeps (IsRevoked sid) (answer_revoked user_id session_id deleted)
  unfolding answer_revoked was_revoked
  Keeps-answer_revoked user_id session_id deleted =
      search (keeps_rules, Keeps-other (was_revoked user_id session_id) (λ now id s. refl))

  pub Keeps-revoke_session :
      (user_id session_id : Uuid) → Keeps (IsRevoked sid) (revoke_session user_id session_id)
  unfolding revoke_session
  Keeps-revoke_session user_id session_id =
      search (keeps_rules, Keeps-revoke_session_tokens, Keeps-answer_revoked)
