-- ===== src/Users/Tests.antt =====
-- Tests of internal/users on two accounts.
use marco_api.Base.{
  ℕ, ◌≡◌, refl, String, Option, none, some, List, [], ◌∷◌, map, keep, not, ◌==◌, Uuid, signed_in,
}
use marco_api.Base.Db.{World, Result, ok, err}
use marco_api.Users.{User, UpdateMeRequest, update_me, validate}
use marco_api.Users.Laws.{account, update_me-account, update_me-Others}

abbrev player : Uuid → String → User
player id email = record {
  id = id;
  google_id = none;
  password_hash = some "hash";
  email = email;
  display_name = some "Ana";
  avatar_url = none;
  skill_level = none;
  dominant_hand = none;
  court_side = some "left";
  play_frequency = none;
  goal = none;
  plan = "free";
  created_at = 5;
  updated_at = 5;
}

abbrev two_players : World (List User)
two_players = record {
  tables = player 1 "a@x.com" ∷ player 2 "b@x.com" ∷ [];
  now = 9;
  next_id = 3;
  faults = [];
}

abbrev profile : UpdateMeRequest
profile = record {
  skill_level = some "beginner";
  dominant_hand = none;
  court_side = none;
  play_frequency = none;
  goal = some "win";
}

map_after :
    map (λ (u : User). u.skill_level) (update_me (some 2) (some profile) two_players).1.tables
    ≡ none ∷ some "beginner" ∷ []
unfolding update_me validate marco_api.Users.valid_skill_level marco_api.Base.Db.on_error
    marco_api.Base.Db.statement marco_api.Users.update_user marco_api.Base.find_first
    marco_api.Base.update_where marco_api.Base.Db.pure
map_after = refl

update_me-account_example :
    map account (update_me (some 2) (some profile) two_players).1.tables
    ≡ map account two_players.tables
update_me-account_example = update_me-account (some 2) (some profile) two_players

update_me-Others_example :
    keep (λ (u : User). not (u.id == 2)) (update_me (some 2) (some profile) two_players).1.tables
    ≡ keep (λ (u : User). not (u.id == 2)) two_players.tables
update_me-Others_example = update_me-Others (some 2) 2 (some profile) two_players refl
