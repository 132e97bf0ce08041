-- ===== src/Auth/Enumeration.antt =====
-- What the failures of sign-in and of a reset tell a caller: one answer and one bcrypt round.
use marco_api.Base.{
  suc, ◌≡◌, String, Bool, true, false, Option, none, some, [], arith, ◌||◌, not, str_eq,
  Option-cases, inl, inr, find_first, problem,
}
use marco_api.Base.Db.{World, pure, on_error, ◌>>=◌}
use marco_api.Base.Db.Success.{statement_runs}
use marco_api.Users.{User, get_user_by_email}
use marco_api.Auth.{Server, Crypto, on_users}
use marco_api.Auth.Issue.{pay_bcrypt, compare_hash}
use marco_api.Auth.Handler.{
  SignInRequest, invalid_credentials_message, rejected, credentials_rejected, check_password,
  email_sign_in,
}
use marco_api.Auth.Handler.Text.{RequestHeaders, device_info_from, normalize_email}

-- No account, an account without a password, or another password.
unfoldable pub is_bad_login : Crypto → String → Option User → Bool
is_bad_login c password none = true
is_bad_login c password (some user) = elim user.password_hash [
  | none ↦ true
  | some hash ↦ not (c.bcrypt_matches hash password)
]

check_password_bad :
    (c : Crypto) (user : User) (password : String) (headers : RequestHeaders) (w : World Server)
    → str_eq password "" ≡ false
    → is_bad_login c password (some user) ≡ true
    → check_password c user password (device_info_from headers) w
      ≡ (problem 401 invalid_credentials_message, pay_bcrypt w)
unfolding is_bad_login check_password credentials_rejected rejected compare_hash ◌>>=◌ pure
check_password_bad c user password headers w given bad = ground arith

-- Sign-in does not tell who has an account: with no database failure, and an address and a password
-- that are not empty, an unknown address, an account made with Google and a wrong password get one
-- answer, and each pays for one bcrypt round and changes nothing else in the tables.
pub email_sign_in_rejects_alike :
    (c : Crypto) (headers : RequestHeaders) (req : SignInRequest) (w : World Server)
    → w.faults ≡ []
    → (str_eq (normalize_email c req.email) "" || str_eq req.password "") ≡ false
    → is_bad_login c req.password
        (find_first (λ u. str_eq u.email (normalize_email c req.email)) w.tables.users)
      ≡ true
    → ((email_sign_in c headers (some req) w).0 ≡ problem 401 invalid_credentials_message)
      × ((email_sign_in c headers (some req) w).1.tables ≡ (pay_bcrypt w).tables)
unfolding email_sign_in on_error pure credentials_rejected rejected compare_hash on_users
    get_user_by_email ◌>>=◌ is_bad_login
email_sign_in_rejects_alike c headers req w clear given bad =
    let email = normalize_email c req.email in
    let ran = statement_runs (on_users (get_user_by_email email)) w clear in
    elim (Option-cases (find_first (λ u. str_eq u.email email) w.tables.users)) [
      | inl e ↦ (ground arith, ground arith)
      | inr (user, e) ↦
          let wrong =
            check_password_bad c user req.password headers (record w { next_id = suc w.next_id })
              (ground arith) (ground arith) in
          (ground arith, ground arith)
    ]
