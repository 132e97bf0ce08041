-- ===== src/Users/Laws.antt =====
-- What PATCH /me of internal/users may change.
use marco_api.Base.{
  ◌≡◌, refl, ◌∙◌, String, Bool, Option, none, some, List, [], ◌∷◌, map, arith, ◌==◌, not,
  Option-cases, Bool-cases, inl, inr, Uuid, Time, update_where, keep, signed_in,
}
use marco_api.Base.Db.{ok, err, World, statement}
use marco_api.Base.Db.Keeps.{Keeps, Keeps-pure, Keeps-statement, Keeps-on_error}
use marco_api.Users.{
  User, UpdateUserParams, UpdateMeRequest, patched, update_user, update_me, validate,
}

-- What the profile screen shows but cannot edit.
pub record Account : Type 0 where
  pub id : Uuid
  pub google_id : Option String
  pub password_hash : Option String
  pub email : String
  pub display_name : Option String
  pub avatar_url : Option String
  pub plan : String
  pub created_at : Time

abbrev pub account : User → Account
account u = record {
  id = u.id;
  google_id = u.google_id;
  password_hash = u.password_hash;
  email = u.email;
  display_name = u.display_name;
  avatar_url = u.avatar_url;
  plan = u.plan;
  created_at = u.created_at;
}

map-update_where :
    {A B : Type 0} (f : A → B) (hit : A → Bool) (g : A → A) (xs : List A)
    → ((x : A) → f (g x) ≡ f x)
    → map f (update_where hit g xs) ≡ map f xs
unfolding update_where
map-update_where f hit g [] same = refl
map-update_where f hit g (x ∷ xs) same = elim (Bool-cases (hit x)) [
  | inl e ↦ rw (e, same x, map-update_where f hit g xs same) refl
  | inr e ↦ rw (e, map-update_where f hit g xs same) refl
]

keep-update_where :
    (id : Uuid) (g : User → User) (xs : List User)
    → ((x : User) → (g x).id ≡ x.id)
    → keep (λ u. not (u.id == id)) (update_where (λ u. u.id == id) g xs)
      ≡ keep (λ u. not (u.id == id)) xs
unfolding update_where keep
keep-update_where id g [] same = refl
keep-update_where id g (x ∷ xs) same = elim (Bool-cases (x.id == id)) [
  | inl e ↦ rw (e, same x, e, keep-update_where id g xs same) refl
  | inr e ↦ rw (e, e, keep-update_where id g xs same) refl
]

abbrev Accounts : List Account → Uuid → List User → Type 0
Accounts before id users = map account users ≡ before

abbrev Others : Uuid → List User → Uuid → List User → Type 0
Others user_id rest id users = keep (λ u. not (u.id == user_id)) users ≡ rest

Keeps-update_me :
    (user : Option Uuid) (body : Option UpdateMeRequest) (I : Uuid → List User → Type 0)
    → ((user_id : Uuid) (p : UpdateUserParams)
        → signed_in user ≡ some user_id
        → p.display_name ≡ none
        → p.avatar_url ≡ none
        → p.plan ≡ none
        → Keeps I (statement (update_user user_id p)))
    → Keeps I (update_me user body)
unfolding update_me
Keeps-update_me user none I k = elim (Option-cases (signed_in user)) [
  | inl e ↦ rw (e, update_me) (Keeps-pure _)
  | inr (user_id, e) ↦ rw (e, update_me) (Keeps-pure _)
]
Keeps-update_me user (some req) I k = elim (Option-cases (signed_in user)) [
  | inl e ↦ rw (e, update_me) (Keeps-pure _)
  | inr (user_id, e) ↦
      elim (validate req) as (λ v. v ≡ validate req → Keeps I (update_me user (some req))) [
        | err message ↦ λ v. rw (e, ← v, update_me) (Keeps-pure _)
        | ok _ ↦ λ v.
            rw (e, ← v, update_me)
              (Keeps-on_error _ _ _ (k user_id _ e refl refl refl) (λ e. Keeps-pure _)
                (λ u. Keeps-pure _))
      ]
        refl
]

same_account :
    (p : UpdateUserParams) (now : Time) (u : User)
    → p.display_name ≡ none
    → p.avatar_url ≡ none
    → p.plan ≡ none
    → account (patched p now u) ≡ account u
unfolding patched
same_account p now u no_name no_picture no_plan = rw (no_name, no_picture, no_plan) refl

-- PATCH /me cannot change who anybody is: whatever it is sent, and whether or not the database fails,
-- every row keeps its id, Google id, password hash, email, name, picture, plan and creation time.
pub update_me-account :
    (user : Option Uuid) (body : Option UpdateMeRequest) (w : World (List User))
    → map account (update_me user body w).1.tables ≡ map account w.tables
update_me-account user body w =
    (Keeps-update_me user body (Accounts (map account w.tables))
        (λ user_id p known no_name no_picture no_plan.
          Keeps-statement (update_user user_id p) λ now id s h.
            unfold update_user in
            (map-update_where account (λ u. u.id == user_id) (patched p now) s
                (λ u. same_account p now u no_name no_picture no_plan)
              ∙ h))).after
      w refl

-- PATCH /me changes no row but the caller's.
pub update_me-Others :
    (user : Option Uuid) (user_id : Uuid) (body : Option UpdateMeRequest) (w : World (List User))
    → signed_in user ≡ some user_id
    → keep (λ u. not (u.id == user_id)) (update_me user body w).1.tables
      ≡ keep (λ u. not (u.id == user_id)) w.tables
update_me-Others user user_id body w known =
    (Keeps-update_me user body (Others user_id (keep (λ u. not (u.id == user_id)) w.tables))
        (λ caller p signed _ _ _. Keeps-statement (update_user caller p) λ now id s h.
          let self : caller ≡ user_id = ground arith in
          unfold update_user patched in
          (rw (self) (keep-update_where user_id (patched p now) s (λ u. refl)) ∙ h))).after
      w refl
