-- ===== src/Auth/Codes.antt =====
-- Password reset codes: what the statements of internal/auth/store.go promise together.
use marco_api.Base.{
  ◌+◌, ◌≡◌, refl, String, Bool, true, false, none, some, List, [], ◌∷◌, ◌++◌, arith, ◌&&◌, not,
  ◌==◌, ltb, ==_refl, Uuid, Time, day, update_where, keep, count_where,
}
use marco_api.Base.Db.{no_rows, ok, err}
use marco_api.Auth.{PasswordResetToken, Server}
use marco_api.Auth.Tokens.{
  is_open, consume, newest, is_usable, create_password_reset_token, get_live_password_reset_token,
  consume_password_reset_token, expire_password_reset_tokens,
}

none_left :
    (token_id : Uuid) (now : Time) (ts : List PasswordResetToken)
    → count_where
        (λ t. t.id == token_id && is_open t)
        (update_where (λ t. t.id == token_id && is_open t) (consume now) ts)
      ≡ 0
unfolding count_where update_where
none_left token_id now [] = refl
none_left token_id now (t ∷ ts) = let rest = none_left token_id now ts in ground arith

-- The rows of a user that pass is_usable, once the open ones are consumed.
newest_of_consumed :
    (user_id : Uuid) (now later : Time) (ts : List PasswordResetToken)
    → newest
        (is_usable user_id later)
        (update_where (λ t. t.user_id == user_id && is_open t) (consume now) ts)
      ≡ none
unfolding newest update_where
newest_of_consumed user_id now later [] = refl
newest_of_consumed user_id now later (t ∷ ts) =
    let rest = newest_of_consumed user_id now later ts in ground arith

newest-append :
    (p : PasswordResetToken → Bool) (ts : List PasswordResetToken) (t : PasswordResetToken)
    → newest p ts ≡ none
    → p t ≡ true
    → newest p (ts ++ t ∷ []) ≡ some t
unfolding newest
newest-append p [] t h k = ground arith
newest-append p (u ∷ ts) t h k =
    let rest : newest p ts ≡ none = ground arith in
    let here : p u ≡ false = ground arith in let ih = newest-append p ts t rest k in ground arith

-- A reset code is spent once: after one request has run the UPDATE, every other request that runs it
-- on the same token is told that it lost.
pub consume_password_reset_token-Once :
    (token_id : Uuid) (now later : Time) (id id' : Uuid) (s : Server)
    → (consume_password_reset_token token_id later id'
        (consume_password_reset_token token_id now id s).1).0
      ≡ ok false
unfolding consume_password_reset_token
consume_password_reset_token-Once token_id now later id id' s =
    rw (none_left token_id now s.reset_tokens) refl

-- A new code is the user's only usable one: until it expires the lookup of a live code finds the row
-- just stored, with no attempt made, whatever codes the user had before.
pub get_live-create_password_reset_token :
    (user_id : Uuid) (code_hash : String) (expires_at now later : Time) (id id' : Uuid) (s : Server)
    → ltb later expires_at ≡ true
    → (get_live_password_reset_token user_id later id'
        (create_password_reset_token user_id code_hash expires_at now id s).1).0
      ≡ ok (record {
        id = id;
        user_id = user_id;
        code_hash = code_hash;
        expires_at = expires_at;
        consumed_at = none;
        attempts = 0;
        created_at = now;
      })
unfolding get_live_password_reset_token create_password_reset_token
get_live-create_password_reset_token user_id code_hash expires_at now later id id' s live =
    let added : PasswordResetToken = record {
      id = id;
      user_id = user_id;
      code_hash = code_hash;
      expires_at = expires_at;
      consumed_at = none;
      attempts = 0;
      created_at = now;
    } in
    let usable : is_usable user_id later added ≡ true = ground (arith, live, ==_refl user_id) in
    let kept =
      keep (λ t. not (t.user_id == user_id && ltb (t.created_at + day) now)) s.reset_tokens in
    let old = update_where (λ t. t.user_id == user_id && is_open t) (consume now) kept in
    rw
      (newest-append (is_usable user_id later) old added (newest_of_consumed user_id now later kept)
        usable)
      refl

-- Once a user's codes are expired no code of that user works, at any time.
pub get_live-expire_password_reset_tokens :
    (user_id : Uuid) (now later : Time) (id id' : Uuid) (s : Server)
    → (get_live_password_reset_token user_id later id'
        (expire_password_reset_tokens user_id now id s).1).0
      ≡ err no_rows
unfolding get_live_password_reset_token expire_password_reset_tokens
get_live-expire_password_reset_tokens user_id now later id id' s =
    rw (newest_of_consumed user_id now later s.reset_tokens) refl
