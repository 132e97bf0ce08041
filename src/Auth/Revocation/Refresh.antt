-- ===== src/Auth/Revocation/Refresh.antt =====
-- Refresh and revocation: no refresh token brings a revoked session back.
use marco_api.Base.{
  ℕ, ◌≡◌, ◌≢◌, refl, String, Bool, true, false, some, List, [], ◌∷◌, arith, inl, inr, ◌&&◌,
  if◌then◌else◌, ◌==◌, ==_iff, str_eq, Bool-cases, All, count_where, find_first, is_some, Uuid,
  Reply, problem, status,
}
use marco_api.Base.Db.{
  DbError, no_rows, failed, Result, ok, World, Db, statement, pure, on_error, ◌>>=◌,
}
use marco_api.Base.Db.Keeps.{Holds, Keeps}
use marco_api.Base.Db.Success.{statement-Ran, on_error_cases}
use marco_api.Users.{get_user_by_id}
use marco_api.Auth.{Session, DeviceInfo, RefreshToken, Server, Crypto, is_live, touch_session}
use marco_api.Auth.Tokens.{get_refresh_token}
use marco_api.Auth.Issue.{AuthResponse}
use marco_api.Auth.Handler.{internal_error, unless_missing, rotate, refresh_stored, refresh}
use marco_api.Auth.Handler.Text.{RequestHeaders, device_info_from}
use marco_api.Auth.Revocation.{IsRevoked, Keeps-on_users}
use marco_api.Auth.Revocation.Handlers.{
  Keeps-time_now, Keeps-get_refresh_token, Keeps-delete_refresh_token,
}

-- From a world in which the invariant holds, the code does not answer 200.
record Refuses {A : Type 0} (I : Uuid → Server → Type 0) (m : Db Server (Reply A)) : Type 0 where
  answer : (w : World Server) → Holds I w → status (m w).0 ≢ 200

Refuses-problem :
    {A : Type 0} {I : Uuid → Server → Type 0} (n : ℕ) (message : String)
    → n ≢ 200
    → Refuses I (pure {A = Reply A} (problem n message))
unfolding pure
Refuses-problem n message h = record { answer = λ w k. h }

Refuses-bind :
    {A B : Type 0} {I : Uuid → Server → Type 0} (m : Db Server B) (f : B → Db Server (Reply A))
    → Keeps I m
    → ((b : B) → Refuses I (f b))
    → Refuses I (m >>= f)
unfolding ◌>>=◌
Refuses-bind m f km rf = record {
  answer = λ w k. let (b, v) = m w in (rf b).answer v (km.after w k);
}

Refuses-if :
    {A : Type 0} {I : Uuid → Server → Type 0} (b : Bool) (m n : Db Server (Reply A))
    → Refuses I m
    → Refuses I n
    → Refuses I (if b then m else n)
Refuses-if true m n rm rn = rm
Refuses-if false m n rm rn = rn

module _ {A B E : Type 0} {I : Uuid → Server → Type 0} where
  Refuses-on_error :
      (m : Db Server (Result E B)) (bad : E → Db Server (Reply A)) (go : B → Db Server (Reply A))
      → Keeps I m
      → ((e : E) → Refuses I (bad e))
      → ((b : B) → Refuses I (go b))
      → Refuses I (on_error m bad go)
  Refuses-on_error m bad go km rb rg = record {
    answer = λ w k. elim (on_error_cases m bad go w) [
      | inl (e, _, same) ↦ rw same ((rb e).answer _ (km.after w k))
      | inr (b, _, same) ↦ rw same ((rg b).answer _ (km.after w k))
    ];
  }

none_live :
    (sid : Uuid) (xs : List Session)
    → All (λ (x : Session). x.id ≡ sid → is_some x.revoked_at ≡ true) xs
    → count_where (λ (x : Session). x.id == sid && is_live x) xs ≡ 0
unfolding count_where
none_live sid [] h = refl
none_live sid (x ∷ xs) (dead, h) = elim (Bool-cases (x.id == sid)) [
  | inl e ↦ let gone = dead ((==_iff x.id sid).0 e) in let rest = none_live sid xs h in ground arith
  | inr e ↦ let rest = none_live sid xs h in ground arith
]

touch_revoked :
    (sid : Uuid) (info : DeviceInfo) (w : World Server) (alive : Bool)
    → Holds (IsRevoked sid) w
    → (statement (touch_session sid info) w).0 ≡ ok alive
    → alive ≡ false
unfolding touch_session IsRevoked
touch_revoked sid info w alive (fresh, h) ran =
    let value = (statement-Ran (touch_session sid info) w alive ran).value in
    let none_left = none_live sid w.tables.sessions h in ground arith

found_token :
    (hash : String) (w : World Server) (stored t : RefreshToken)
    → find_first (λ (r : RefreshToken). str_eq r.token_hash hash) w.tables.refresh_tokens ≡ some t
    → (statement (get_refresh_token hash) w).0 ≡ ok stored
    → t ≡ stored
unfolding get_refresh_token
found_token hash w stored t found ran =
    let value = (statement-Ran (get_refresh_token hash) w stored ran).value in ground arith

missing_or_failed :
    (e : DbError) (w : World Server)
    → status (unless_missing {A = AuthResponse} (pure (problem 401 "invalid_refresh_token")) e w).0
      ≢ 200
unfolding pure
missing_or_failed no_rows w = λ e. absurd (omega arith)
missing_or_failed failed w = λ e. absurd (omega arith)

module _ (c : Crypto) where
  Refuses-touch :
      (sid : Uuid) (info : DeviceInfo) (m : Db Server (Reply AuthResponse))
      → Refuses (IsRevoked sid) (
          on_error
            (statement (touch_session sid info))
            (λ _. internal_error)
            (λ alive. if alive then m else pure (problem 401 "invalid_refresh_token")))
  Refuses-touch sid info m = record {
    answer = λ w k.
        let go : Bool → Db Server (Reply AuthResponse) =
          λ alive. if alive then m else pure (problem 401 "invalid_refresh_token") in
        elim (on_error_cases (statement (touch_session sid info)) (λ _. internal_error) go w) [
          | inl (e, _, same) ↦ rw same (unfold pure in ground arith)
          | inr (alive, ran, same) ↦
              let off = touch_revoked sid info w alive k ran in
              rw same (unfold pure in ground arith)
        ];
  }

  Refuses-rotate :
      (hash : String) (user_id sid : Uuid) (info : DeviceInfo)
      → Refuses (IsRevoked sid) (rotate c hash user_id sid info)
  unfolding rotate
  Refuses-rotate hash user_id sid info =
      Refuses-on_error _ _ _ (Keeps-delete_refresh_token sid c hash)
        (λ _. Refuses-problem 500 _ (λ e. absurd (omega arith)))
        λ _.
          Refuses-on_error _ _ _ (Keeps-on_users sid (get_user_by_id user_id))
            (elim [
              | no_rows ↦ Refuses-problem 401 _ (λ e. absurd (omega arith))
              | failed ↦ Refuses-problem 500 _ (λ e. absurd (omega arith))
            ])
            (λ user. Refuses-touch sid info _)

  Refuses-refresh_stored :
      (hash : String) (t : RefreshToken) (info : DeviceInfo)
      → Refuses (IsRevoked t.session_id) (refresh_stored c hash t info)
  unfolding refresh_stored
  Refuses-refresh_stored hash t info = Refuses-bind _ _ (Keeps-time_now t.session_id c) λ now.
      Refuses-if _ _ _
        (Refuses-on_error _ _ _ (Keeps-delete_refresh_token t.session_id c hash)
          (λ _. Refuses-problem 401 _ (λ e. absurd (omega arith)))
          (λ _. Refuses-problem 401 _ (λ e. absurd (omega arith))))
        (Refuses-rotate hash t.user_id t.session_id info)

  -- A refresh token whose session is revoked is worth nothing: whatever the clock and whichever
  -- statements fail, Refresh does not answer it with 200.
  pub refresh_of_revoked :
      (headers : RequestHeaders) (token : String) (t : RefreshToken) (w : World Server)
      → find_first
          (λ (r : RefreshToken). str_eq r.token_hash (c.hash_token token))
          w.tables.refresh_tokens
        ≡ some t
      → Holds (IsRevoked t.session_id) w
      → status (refresh c headers (some token) w).0 ≢ 200
  unfolding refresh
  refresh_of_revoked headers token t w found dead = elim (Bool-cases (str_eq token "")) [
    | inl e ↦ rw (e, refresh) (unfold pure in ground arith)
    | inr e ↦
        let hash = c.hash_token token in
        let info = device_info_from headers in
        elim (on_error_cases (statement (get_refresh_token hash))
          (unless_missing (pure (problem 401 "invalid_refresh_token")))
          (λ stored. refresh_stored c hash stored info) w) [
            | inl (bad, _, same) ↦ rw (e, same, refresh) (missing_or_failed bad _)
            | inr (stored, ran, same) ↦
                let known = found_token hash w stored t found ran in
                let still = (Keeps-get_refresh_token t.session_id c hash).after w dead in
                rw (e, same, refresh)
                  ((Refuses-refresh_stored hash stored info).answer _ (rw (← known) still))
          ]
  ]
