-- ===== src/Users.antt =====
-- internal/users: the accounts table, PATCH /me and its validation. Each statement of store.go is a
-- function of NOW(), a fresh UUID and the rows of `users`.
pub mod Laws
mod Tests
use marco_api.Base.{
  ℕ, String, count, Bool, true, false, Option, none, some, List, [], ◌∷◌, ◌++◌, ◌&&◌, ◌||◌, ◌==◌,
  ltb, not, str_eq, if◌then◌else◌, or_else, Uuid, Time, find_first, update_where, is_some, Reply,
  json, problem, signed_in,
}
use marco_api.Base.Db.{DbError, no_rows, failed, Result, ok, err, Db, statement, pure, on_error}

pub record User : Type 0 where
  pub id : Uuid
  pub google_id : Option String
  pub password_hash : Option String
  pub email : String
  pub display_name : Option String
  pub avatar_url : Option String
  pub skill_level : Option String
  pub dominant_hand : Option String
  pub court_side : Option String
  pub play_frequency : Option String
  pub goal : Option String
  pub plan : String
  pub created_at : Time
  pub updated_at : Time

pub record CreateUserParams : Type 0 where
  pub google_id : Option String
  pub password_hash : Option String
  pub email : String
  pub display_name : Option String
  pub avatar_url : Option String
  pub skill_level : Option String
  pub dominant_hand : Option String
  pub court_side : Option String
  pub play_frequency : Option String
  pub goal : Option String
  pub plan : Option String

pub record UpdateUserParams : Type 0 where
  pub display_name : Option String
  pub avatar_url : Option String
  pub skill_level : Option String
  pub dominant_hand : Option String
  pub court_side : Option String
  pub play_frequency : Option String
  pub goal : Option String
  pub plan : Option String

abbrev pub Query : Type 0 → Type 0
Query A = Time → Uuid → List User → Result DbError A × List User

abbrev pub row_or_none : Option User → Result DbError User
row_or_none none = err no_rows
row_or_none (some u) = ok u

abbrev pub same_text : Option String → String → Bool
same_text none s = false
same_text (some t) s = str_eq t s

unfoldable pub google_taken : Option String → User → Bool
google_taken none u = false
google_taken (some g) u = same_text u.google_id g

-- email and google_id are UNIQUE columns; plan defaults to 'free'.
unfoldable pub create_user : CreateUserParams → Query User
unfolding google_taken
create_user p now id users =
    let u : User = record {
      id = id;
      google_id = p.google_id;
      password_hash = p.password_hash;
      email = p.email;
      display_name = p.display_name;
      avatar_url = p.avatar_url;
      skill_level = p.skill_level;
      dominant_hand = p.dominant_hand;
      court_side = p.court_side;
      play_frequency = p.play_frequency;
      goal = p.goal;
      plan = or_else p.plan "free";
      created_at = now;
      updated_at = now;
    } in
    if is_some (find_first (λ v. str_eq v.email p.email || google_taken p.google_id v) users)
    then (err failed, users)
    else (ok u, users ++ u ∷ [])

unfoldable pub get_user_by_google_id : String → Query User
get_user_by_google_id g now id users =
    (row_or_none (find_first (λ u. same_text u.google_id g) users), users)

unfoldable pub get_user_by_email : String → Query User
get_user_by_email email now id users =
    (row_or_none (find_first (λ u. str_eq u.email email) users), users)

unfoldable pub get_user_by_id : Uuid → Query User
get_user_by_id user_id now id users = (row_or_none (find_first (λ u. u.id == user_id) users), users)

abbrev pub first_some : Option String → Option String → Option String
first_some none old = old
first_some (some s) old = some s

-- The SET list of UpdateUser, with the updated_at trigger.
unfoldable pub patched : UpdateUserParams → Time → User → User
patched p now u = record u {
  display_name = first_some p.display_name u.display_name;
  avatar_url = first_some p.avatar_url u.avatar_url;
  skill_level = first_some p.skill_level u.skill_level;
  dominant_hand = first_some p.dominant_hand u.dominant_hand;
  court_side = first_some p.court_side u.court_side;
  play_frequency = first_some p.play_frequency u.play_frequency;
  goal = first_some p.goal u.goal;
  plan = or_else p.plan u.plan;
  updated_at = now;
}

unfoldable pub update_user : Uuid → UpdateUserParams → Query User
unfolding patched
update_user user_id p now id users =
    let changed = update_where (λ (u : User). u.id == user_id) (patched p now) users in
    (row_or_none (find_first (λ u. u.id == user_id) changed), changed)

unfoldable pub update_password : Uuid → String → Query (Unit {0})
update_password user_id hash now id users =
    if is_some (find_first (λ (u : User). u.id == user_id) users)
    then (
      ok tt,
      update_where (λ (u : User). u.id == user_id)
          (λ u. record u { password_hash = some hash; updated_at = now }) users,
    )
    else (err no_rows, users)

pub record UpdateMeRequest : Type 0 where
  pub skill_level : Option String
  pub dominant_hand : Option String
  pub court_side : Option String
  pub play_frequency : Option String
  pub goal : Option String

-- The membership tables of handler.go.
unfoldable pub valid_skill_level : String → Bool
valid_skill_level s = str_eq s "beginner" || str_eq s "intermediate" || str_eq s "advanced"

unfoldable pub valid_dominant_hand : String → Bool
valid_dominant_hand s = str_eq s "left" || str_eq s "right" || str_eq s "both"

unfoldable pub valid_court_side : String → Bool
valid_court_side s = str_eq s "left" || str_eq s "right" || str_eq s "either"

-- A field that is given and fails its test.
abbrev pub refused : (String → Bool) → Option String → Bool
refused p none = false
refused p (some s) = not (p s)

abbrev pub fits : ℕ → String → Bool
fits n s = not (ltb n (count s))

unfoldable pub validate : UpdateMeRequest → Result String (Unit {0})
validate r =
    if refused valid_skill_level r.skill_level
    then err "skill_level must be one of: beginner, intermediate, advanced"
    else if refused valid_dominant_hand r.dominant_hand
    then err "dominant_hand must be one of: left, right, both"
    else if refused valid_court_side r.court_side
    then err "court_side must be one of: left, right, either"
    else if refused (fits 20) r.play_frequency
    then err "play_frequency must be 20 characters or fewer"
    else if refused (fits 50) r.goal
    then err "goal must be 50 characters or fewer"
    else ok tt

unfoldable pub user_reply : DbError → Reply User
user_reply no_rows = problem 404 "user not found"
user_reply failed = problem 500 "internal server error"

unfoldable pub get_me : Option Uuid → Db (List User) (Reply User)
unfolding user_reply
get_me user = elim (signed_in user) [
  | none ↦ pure (problem 401 "unauthorized")
  | some user_id ↦
      on_error (statement (get_user_by_id user_id)) (λ e. pure (user_reply e))
        (λ u. pure (json 200 u))
]

unfoldable pub update_me : Option Uuid → Option UpdateMeRequest → Db (List User) (Reply User)
unfolding user_reply
update_me user body = elim (signed_in user) [
  | none ↦ pure (problem 401 "unauthorized")
  | some user_id ↦ elim body [
    | none ↦ pure (problem 400 "invalid request body")
    | some req ↦ elim (validate req) [
      | err message ↦ pure (problem 422 message)
      | ok _ ↦
          on_error
            (statement (
              update_user user_id (record {
                display_name = none;
                avatar_url = none;
                skill_level = req.skill_level;
                dominant_hand = req.dominant_hand;
                court_side = req.court_side;
                play_frequency = req.play_frequency;
                goal = req.goal;
                plan = none;
              })))
            (λ e. pure (user_reply e)) (λ u. pure (json 200 u))
    ]
  ]
]
