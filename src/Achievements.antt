-- ===== src/Achievements.antt =====
-- internal/achievements/store.go: the scan of a user's match logs for wins, streaks and comebacks.
pub mod Streaks
pub mod Badges
mod Tests
use marco_api.Base.{
  ℕ, suc, ◌+◌, String, Bool, true, false, Option, none, some, List, [], ◌∷◌, ◌&&◌, ◌||◌, ◌==◌, leb,
  ltb, not, str_eq, is_some, if◌then◌else◌, Time,
}

-- A row of the query: played, result and created_at of a match log, the oldest match first.
pub record MatchRow : Type 0 where
  pub played : Bool
  pub result : Option String
  pub created_at : Time

-- The fields of userStats that fillMatchStats sets, and its variables streak and lossesBefore.
pub record MatchStats : Type 0 where
  pub match_count : ℕ
  pub win_count : ℕ
  pub longest_win_streak : ℕ
  pub had_comeback : Bool
  pub first_win_at : Option Time
  pub match_diarist_at : Option Time
  pub comeback_at : Option Time
  pub win_streak_three_at : Option Time
  pub streak : ℕ
  pub losses_before : ℕ

-- The case of the loop that a row takes.
pub data Outcome : Type 0 where
  skipped won lost drawn : Outcome

unfoldable pub outcome_of : Bool → Option String → Outcome
outcome_of false result = skipped
outcome_of true none = skipped
outcome_of true (some r) = if str_eq r "won" then won else if str_eq r "lost" then lost else drawn

unfoldable pub outcome : MatchRow → Outcome
unfolding outcome_of
outcome row = outcome_of row.played row.result

-- The body of the loop after MatchCount is counted.
unfoldable pub settle_outcome : Outcome → Time → MatchStats → MatchStats
settle_outcome skipped at s = s
settle_outcome won at s =
    let comeback = leb 2 s.losses_before && not s.had_comeback in
    let streak = s.streak + 1 in
    record s {
      win_count = s.win_count + 1;
      first_win_at = if is_some s.first_win_at then s.first_win_at else some at;
      streak = streak;
      longest_win_streak = if ltb s.longest_win_streak streak then streak else s.longest_win_streak;
      win_streak_three_at =
          if streak == 3 && not (is_some s.win_streak_three_at)
          then some at
          else s.win_streak_three_at;
      had_comeback = if comeback then true else s.had_comeback;
      comeback_at = if comeback then some at else s.comeback_at;
      losses_before = 0;
    }
settle_outcome lost at s = record s { streak = 0; losses_before = s.losses_before + 1 }
settle_outcome drawn at s = record s { streak = 0 }

unfoldable pub count_match : Time → MatchStats → MatchStats
count_match at s = record s {
  match_count = s.match_count + 1;
  match_diarist_at = if s.match_count + 1 == 10 then some at else s.match_diarist_at;
}

unfoldable pub scan_matches : MatchStats → List MatchRow → MatchStats
unfolding settle_outcome count_match outcome
scan_matches s [] = s
scan_matches s (row ∷ rows) =
    scan_matches (settle_outcome (outcome row) row.created_at (count_match row.created_at s)) rows

unfoldable pub fill_match_stats : List MatchRow → MatchStats
unfolding scan_matches
fill_match_stats rows =
    scan_matches
      (record {
        match_count = 0;
        win_count = 0;
        longest_win_streak = 0;
        had_comeback = false;
        first_win_at = none;
        match_diarist_at = none;
        comeback_at = none;
        win_streak_three_at = none;
        streak = 0;
        losses_before = 0;
      })
      rows
