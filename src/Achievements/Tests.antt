-- ===== src/Achievements/Tests.antt =====
-- Tests of the streaks on a diary of eight matches.
use marco_api.Base.{
  false, ◌≡◌, refl, String, true, Option, none, some, List, [], ◌∷◌, Time, All, length,
}
use marco_api.Achievements.{MatchRow, fill_match_stats}
use marco_api.Achievements.Badges.{UserStats, compute}
use marco_api.Achievements.Badges.Progress.{IsFair, unlocked_of, compute-IsFair}
use marco_api.Achievements.Streaks.{
  IsConsistent, longest_run, results, longest_run-fill_match_stats, fill_match_stats-IsConsistent,
}

abbrev match : Option String → Time → MatchRow
match result at = record { played = true; result = result; created_at = at }

abbrev diary : List MatchRow
diary =
    match (some "lost") 1
    ∷ match (some "lost") 2
    ∷ match (some "won") 3
    ∷ match none 4
    ∷ match (some "won") 5
    ∷ record { played = false; result = some "won"; created_at = 6 }
    ∷ match (some "draw") 7
    ∷ match (some "won") 8
    ∷ []

streak_of_two : (fill_match_stats diary).longest_win_streak ≡ 2
unfolding fill_match_stats
streak_of_two = refl

came_back : (fill_match_stats diary).comeback_at ≡ some 3
unfolding fill_match_stats
came_back = refl

longest_run-fill_match_stats_example :
    (fill_match_stats diary).longest_win_streak ≡ longest_run (results diary)
longest_run-fill_match_stats_example = longest_run-fill_match_stats diary

fill_match_stats-IsConsistent_example : IsConsistent (fill_match_stats diary)
fill_match_stats-IsConsistent_example = fill_match_stats-IsConsistent diary

abbrev stats : UserStats
stats = record {
  has_learned_lesson = true;
  learned_count = 2;
  mastered_count = 1;
  published_lesson_count = 4;
  bandeja_status = "learned";
  vibora_status = "viewed";
  match_count = 12;
  win_count = 2;
  longest_win_streak = 2;
  had_comeback = true;
  user_message_count = 3;
  passed_exam = false;
  latest_exam_score = 17;
  latest_exam_total = 20;
  has_exam_attempt = true;
  first_lesson_at = some 1;
  first_win_at = some 3;
  match_diarist_at = some 9;
  bandeja_apprentice_at = some 2;
  marcos_curious_at = none;
  comeback_at = some 3;
  exam_passed_at = none;
  vibora_mastered_at = none;
  win_streak_three_at = none;
  half_mastery_at = none;
}

abbrev no_format : Time → String
no_format t = ""

five_badges : (compute no_format stats).unlocked ≡ 5
unfolding compute
five_badges = refl

compute-IsFair_example :
    ((compute no_format stats).unlocked ≡ unlocked_of (compute no_format stats).achievements)
    × ((compute no_format stats).total ≡ length (compute no_format stats).achievements)
    × All IsFair (compute no_format stats).achievements
compute-IsFair_example = compute-IsFair no_format stats
