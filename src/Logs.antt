-- ===== src/Logs.antt =====
-- internal/logs: the matches that a user has logged, as model.go and store.go over tables.
pub mod Handler
pub mod Recorded
mod Tests
use Prim.Native.Char.{code}
use Prim.Native.String.{[], ◌∷◌}
use mathlib.Core.List
use marco_api.Base.{
  suc, ℕ, String, count, Bool, true, false, Option, none, some, List, ◌++◌, map, ◌==◌, ◌&&◌, ◌||◌,
  not, ltb, leb, str_eq, is_some, if◌then◌else◌, Uuid, Time, keep, find_first, update_where,
  count_where, order_by, take,
}
use marco_api.Base.Db.{DbError, no_rows, failed, Result, ok, err, Db, statement, pure, on_error}

pub record MatchLog : Type 0 where
  pub id : Uuid
  pub user_id : Uuid
  pub played : Bool
  pub result : Option String
  pub feeling : Option String
  pub note : Option String
  pub partner_name : Option String
  pub opponents : List String
  pub played_on : Time
  pub created_at : Time

pub record PartnerSuggestion : Type 0 where
  pub partner_name : String
  pub match_count : ℕ

-- A row of match_logs, with the column message_id that no query of this package reads.
pub record MatchLogRow : Type 0 where
  pub log : MatchLog
  pub message_id : Option Uuid

pub record LogTables : Type 0 where
  pub matches : List MatchLogRow
  pub message_ids : List Uuid

pub record CreateMatchParams : Type 0 where
  pub user_id : Uuid
  pub result : Option String
  pub feeling : Option String
  pub note : Option String
  pub partner_name : Option String
  pub opponents : List String
  pub played_on : Time
  pub message_id : Option Uuid

pub record UpdateMatchParams : Type 0 where
  pub user_id : Uuid
  pub match_id : Uuid
  pub result : Option String
  pub feeling : Option String
  pub note : Option String
  pub partner_name : Option String
  pub opponents : List String
  pub played_on : Time

-- partner_name is a VARCHAR(100), feeling a VARCHAR(50) and result a VARCHAR(20).
abbrev pub fits_column : ℕ → Option String → Bool
fits_column limit none = true
fits_column limit (some text) = not (ltb limit (count text))

abbrev pub fits_columns : Option String → Option String → Option String → Bool
fits_columns result feeling partner_name =
    fits_column 20 result && (fits_column 50 feeling && fits_column 100 partner_name)

abbrev pub refers : Option Uuid → List Uuid → Bool
refers none ids = true
refers (some id) ids = is_some (find_first (λ i. i == id) ids)

abbrev pub new_match : CreateMatchParams → Time → Uuid → MatchLog
new_match p now id = record {
  id = id;
  user_id = p.user_id;
  played = true;
  result = p.result;
  feeling = p.feeling;
  note = p.note;
  partner_name = p.partner_name;
  opponents = p.opponents;
  played_on = p.played_on;
  created_at = now;
}

unfoldable pub create_match : CreateMatchParams → Db LogTables (Result DbError MatchLog)
create_match p = statement λ now id s.
    if fits_columns p.result p.feeling p.partner_name && refers p.message_id s.message_ids
    then (
      ok (new_match p now id),
      record s {
        matches =
            s.matches
            ++ List.◌∷◌ (record { log = new_match p now id; message_id = p.message_id }) List.[];
      },
    )
    else (err failed, s)

-- The SET list of UpdateMatch.
abbrev pub replaced : UpdateMatchParams → MatchLogRow → MatchLogRow
replaced p r = record r {
  log = record r.log {
    result = p.result;
    feeling = p.feeling;
    note = p.note;
    partner_name = p.partner_name;
    opponents = p.opponents;
    played_on = p.played_on;
  };
}

abbrev pub is_own : Uuid → Uuid → MatchLogRow → Bool
is_own user_id match_id r = r.log.id == match_id && r.log.user_id == user_id

abbrev log_or_none : Option MatchLogRow → Result DbError MatchLog
log_or_none none = err no_rows
log_or_none (some r) = ok r.log

unfoldable pub update_match : UpdateMatchParams → Db LogTables (Result DbError MatchLog)
update_match p = statement λ _ _ s.
    if fits_columns p.result p.feeling p.partner_name
      || not (is_some (find_first (is_own p.user_id p.match_id) s.matches))
    then (let changed = update_where (is_own p.user_id p.match_id) (replaced p) s.matches in
        (
          log_or_none (find_first (is_own p.user_id p.match_id) changed),
          record s { matches = changed },
        ))
    else (err failed, s)

-- ORDER BY played_on DESC, created_at DESC
abbrev pub before_match : MatchLog → MatchLog → Bool
before_match a b =
    ltb b.played_on a.played_on || (a.played_on == b.played_on && leb b.created_at a.created_at)

abbrev log_of : MatchLogRow → MatchLog
log_of r = r.log

unfoldable pub list_matches : Uuid → Db LogTables (Result DbError (List MatchLog))
list_matches user_id = statement λ _ _ s. (
  ok (
      order_by before_match
        (map log_of (keep (λ r. r.log.user_id == user_id && r.log.played) s.matches))),
  s,
)

-- TRIM(partner_name) = '', which drops spaces only.
unfoldable pub is_blank_name : String → Bool
is_blank_name [] = true
is_blank_name (ch ∷ s) = code ch == 32 && is_blank_name s

-- The partner of a row of the user that the WHERE clause lets through.
unfoldable pub partner_of : Uuid → MatchLogRow → Option String
unfolding is_blank_name
partner_of user_id r = elim r.log.partner_name [
  | none ↦ none
  | some name ↦ if r.log.user_id == user_id && not (is_blank_name name) then some name else none
]

-- GROUP BY partner_name with its COUNT(*).
unfoldable pub count_partner : String → List PartnerSuggestion → List PartnerSuggestion
count_partner name List.[] = List.◌∷◌ (record { partner_name = name; match_count = 1 }) List.[]
count_partner name (List.◌∷◌ p ps) =
    let rest = count_partner name ps in
    if str_eq p.partner_name name
    then List.◌∷◌ (record p { match_count = suc p.match_count }) ps
    else List.◌∷◌ p rest

unfoldable pub group_partners : Uuid → List MatchLogRow → List PartnerSuggestion
unfolding partner_of count_partner
group_partners user_id List.[] = List.[]
group_partners user_id (List.◌∷◌ r rows) = elim (partner_of user_id r) [
  | none ↦ group_partners user_id rows
  | some name ↦ count_partner name (group_partners user_id rows)
]

abbrev pub more_matches : PartnerSuggestion → PartnerSuggestion → Bool
more_matches p q = leb q.match_count p.match_count

unfoldable pub list_partners : Uuid → Db LogTables (Result DbError (List PartnerSuggestion))
unfolding group_partners
list_partners user_id =
    statement λ _ _ s. (ok (take 10 (order_by more_matches (group_partners user_id s.matches))), s)
