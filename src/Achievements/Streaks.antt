-- ===== src/Achievements/Streaks.antt =====
-- The streaks that fillMatchStats of internal/achievements/store.go finds.
use marco_api.Base.{
  ℕ, suc, ◌+◌, ◌≤◌, ◌≡◌, refl, ◌∙◌, List, [], ◌∷◌, arith, ltb, leb, String, Bool, true, false,
  Option, none, some, str_eq, is_some, if◌then◌else◌, Time,
}
use marco_api.Achievements.{
  MatchRow, MatchStats, Outcome, skipped, won, lost, drawn, outcome, outcome_of, settle_outcome,
  count_match, scan_matches, fill_match_stats,
}

abbrev pub max : ℕ → ℕ → ℕ
max a b = if ltb a b then b else a

abbrev add_result : Bool → Option String → List String → List String
add_result played none rs = rs
add_result played (some r) rs = if played then r ∷ rs else rs

-- The results of the matches that were played and have one, in the order of the diary.
abbrev pub results : List MatchRow → List String
results [] = []
results (row ∷ rows) = add_result row.played row.result (results rows)

-- How many results in a row are "won" from the first one on.
abbrev pub leading_wins : List String → ℕ
leading_wins [] = 0
leading_wins (r ∷ rs) = if str_eq r "won" then suc (leading_wins rs) else 0

-- The longest run of "won", over every place where one can begin.
abbrev pub longest_run : List String → ℕ
longest_run [] = 0
longest_run (r ∷ rs) = max (leading_wins (r ∷ rs)) (longest_run rs)

leading-le : (rs : List String) → leading_wins rs ≤ longest_run rs
leading-le [] = omega arith
leading-le (r ∷ rs) = ground arith

settled :
    (played : Bool) (result : Option String) (at : Time) (s : MatchStats) (rs : List String)
    → s.streak ≤ s.longest_win_streak
    → ((settle_outcome (outcome_of played result) at s).streak
        ≤ (settle_outcome (outcome_of played result) at s).longest_win_streak)
      × (max (settle_outcome (outcome_of played result) at s).longest_win_streak (
            max
              ((settle_outcome (outcome_of played result) at s).streak + leading_wins rs)
              (longest_run rs))
          ≡ max s.longest_win_streak (
              max
                (s.streak + leading_wins (add_result played result rs))
                (longest_run (add_result played result rs))))
unfolding settle_outcome outcome_of
settled false none at s rs h = (h, refl)
settled true none at s rs h = (h, refl)
settled false (some r) at s rs h = (h, refl)
settled true (some r) at s rs h = let le = leading-le rs in (ground arith, ground arith)

scan_longest :
    (s : MatchStats) (rows : List MatchRow)
    → s.streak ≤ s.longest_win_streak
    → (scan_matches s rows).longest_win_streak
      ≡ max s.longest_win_streak
          (max (s.streak + leading_wins (results rows)) (longest_run (results rows)))
unfolding scan_matches count_match outcome
scan_longest s [] h = ground arith
scan_longest s (row ∷ rows) h =
    let (le, same) =
      settled row.played row.result row.created_at (count_match row.created_at s) (results rows)
        h in
    scan_longest (settle_outcome (outcome row) row.created_at (count_match row.created_at s)) rows
      le
    ∙ same

-- The longest win streak of the profile is the longest run of "won" among the results of the diary:
-- matches that were not played, or have no result, neither count nor break it, and any other result ends it.
pub longest_run-fill_match_stats :
    (rows : List MatchRow) → (fill_match_stats rows).longest_win_streak ≡ longest_run (results rows)
unfolding fill_match_stats
longest_run-fill_match_stats rows =
    scan_longest _ rows (omega arith) ∙ (let le = leading-le (results rows) in ground arith)

-- A time is known for a badge exactly when its count is reached.
abbrev pub IsConsistent : MatchStats → Type 0
IsConsistent s =
    (s.streak ≤ s.longest_win_streak)
    × (is_some s.win_streak_three_at ≡ leb 3 s.longest_win_streak)
    × (is_some s.comeback_at ≡ s.had_comeback)
    × (is_some s.first_win_at ≡ leb 1 s.win_count)
    × (is_some s.match_diarist_at ≡ leb 10 s.match_count)

settle-IsConsistent :
    (o : Outcome) (at : Time) (s : MatchStats)
    → IsConsistent s
    → IsConsistent (settle_outcome o at (count_match at s))
unfolding settle_outcome count_match
settle-IsConsistent skipped at s h =
    (ground arith, ground arith, ground arith, ground arith, ground arith)
settle-IsConsistent won at s h =
    (ground arith, ground arith, ground arith, ground arith, ground arith)
settle-IsConsistent lost at s h =
    (ground arith, ground arith, ground arith, ground arith, ground arith)
settle-IsConsistent drawn at s h =
    (ground arith, ground arith, ground arith, ground arith, ground arith)

scan-IsConsistent :
    (s : MatchStats) (rows : List MatchRow) → IsConsistent s → IsConsistent (scan_matches s rows)
unfolding scan_matches
scan-IsConsistent s [] h = h
scan-IsConsistent s (row ∷ rows) h =
    scan-IsConsistent (settle_outcome (outcome row) row.created_at (count_match row.created_at s))
      rows (settle-IsConsistent (outcome row) row.created_at s h)

-- The badges and their times agree: after any diary a time is set for the streak of three, the
-- comeback, the first win and the tenth match exactly when the longest streak is at least 3, there
-- was a comeback, there is a win and there are at least 10 matches; and the running streak is at
-- most the longest one.
pub fill_match_stats-IsConsistent : (rows : List MatchRow) → IsConsistent (fill_match_stats rows)
unfolding fill_match_stats
fill_match_stats-IsConsistent rows = scan-IsConsistent _ rows (omega arith, refl, refl, refl, refl)
