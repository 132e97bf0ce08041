-- ===== src/Achievements/Badges.antt =====
-- internal/achievements/model.go: the catalogue of badges and compute.
pub mod Progress
use marco_api.Base.{
  ℕ, suc, ◌+◌, ◌*◌, ◌/◌, String, Bool, true, false, Option, none, some, List, [], ◌∷◌, ◌++◌, ◌&&◌,
  ◌||◌, ◌==◌, leb, ltb, not, str_eq, if◌then◌else◌, Time, map, length, decimal, ◌<>◌,
}
use marco_api.Exam.{passing_score}

pub record Achievement : Type 0 where
  pub slug : String
  pub title : String
  pub description : String
  pub criteria : String
  pub progress_label : String
  pub icon : String
  pub accent : String
  pub unlocked : Bool
  pub progress : ℕ
  pub target : ℕ
  pub unlocked_at : Option String

pub record Summary : Type 0 where
  pub unlocked : ℕ
  pub total : ℕ
  pub achievements : List Achievement

pub record Definition : Type 0 where
  pub slug : String
  pub title : String
  pub description : String
  pub criteria : String
  pub icon : String
  pub accent : String
  pub target : ℕ

pub record UserStats : Type 0 where
  pub has_learned_lesson : Bool
  pub learned_count : ℕ
  pub mastered_count : ℕ
  pub published_lesson_count : ℕ
  pub bandeja_status : String
  pub vibora_status : String
  pub match_count : ℕ
  pub win_count : ℕ
  pub longest_win_streak : ℕ
  pub had_comeback : Bool
  pub user_message_count : ℕ
  pub passed_exam : Bool
  pub latest_exam_score : ℕ
  pub latest_exam_total : ℕ
  pub has_exam_attempt : Bool
  pub first_lesson_at : Option Time
  pub first_win_at : Option Time
  pub match_diarist_at : Option Time
  pub bandeja_apprentice_at : Option Time
  pub marcos_curious_at : Option Time
  pub comeback_at : Option Time
  pub exam_passed_at : Option Time
  pub vibora_mastered_at : Option Time
  pub win_streak_three_at : Option Time
  pub half_mastery_at : Option Time

unfoldable pub catalogue : List Definition
catalogue =
    record {
      slug = "first-lesson";
      title = "First lesson";
      description =
          "Every coach has a first day. Watch one lesson end to end and you're already further than most.";
      criteria = "Mark any lesson as Learned or Mastered.";
      icon = "▸";
      accent = "teal";
      target = 1;
    }
    ∷ record {
      slug = "first-win";
      title = "First win logged";
      description =
          "The first W is the one you remember. Log it so we can find the pattern when the next ones come.";
      criteria = "Log a match with result · Won.";
      icon = "W";
      accent = "teal";
      target = 1;
    }
    ∷ record {
      slug = "match-diarist";
      title = "Match diarist";
      description =
          "Ten logged matches is enough data for Marco to spot what's actually moving your win rate.";
      criteria = "Log ten matches in your diary.";
      icon = "10";
      accent = "teal";
      target = 10;
    }
    ∷ record {
      slug = "bandeja-apprentice";
      title = "Bandeja apprentice";
      description =
          "The bandeja is the shot that keeps you at the net. Get it under control and the court shrinks for your opponents.";
      criteria = "Mark the bandeja lesson as Learned.";
      icon = "B";
      accent = "orange";
      target = 1;
    }
    ∷ record {
      slug = "marcos-curious";
      title = "Marco's curious";
      description =
          "Ten questions in. You're not just playing — you're asking why the ball does what it does.";
      criteria = "Send ten messages to Marco.";
      icon = "?";
      accent = "orange";
      target = 10;
    }
    ∷ record {
      slug = "comeback-kid";
      title = "Comeback kid";
      description = "Two losses, then a win. The streak ends when you decide it does.";
      criteria = "Log a win after two losses in a row.";
      icon = "↺";
      accent = "ink";
      target = 1;
    }
    ∷ record {
      slug = "padel-license";
      title = "Padel rules license";
      description =
          "You passed the padel rules exam with "
          <> decimal passing_score
          <> " or more correct. Officially: you know what a let, a fault, and a double-bounce off the wall actually mean.";
      criteria = "Answer at least " <> decimal passing_score <> " rules exam questions correctly.";
      icon = "L1";
      accent = "teal";
      target = 1;
    }
    ∷ record {
      slug = "vibora-master";
      title = "Vibora master";
      description = "Master the vibora — the shot that turns defense into offense at the net.";
      criteria = "Mark the Vibora lesson as Mastered.";
      icon = "V";
      accent = "teal";
      target = 1;
    }
    ∷ record {
      slug = "win-streak-3";
      title = "Win streak ×3";
      description = "Three wins back to back. Not luck — pattern.";
      criteria = "Log three wins in a row.";
      icon = "×3";
      accent = "teal";
      target = 3;
    }
    ∷ record {
      slug = "half-mastery";
      title = "Half mastery";
      description = "Half the curriculum, fully owned. The other half is just more reps from here.";
      criteria = "Master at least half of every published lesson.";
      icon = "½";
      accent = "teal";
      target = 1;
    }
    ∷ []

unfoldable pub lesson_status_label : String → String
lesson_status_label status =
    if str_eq status "viewed"
    then "Currently · Viewed"
    else if str_eq status "learned"
    then "Currently · Learned"
    else if str_eq status "mastered"
    then "Currently · Mastered"
    else "Not started yet"

unfoldable pub exam_progress_label : UserStats → String
exam_progress_label s =
    if not s.has_exam_attempt || s.latest_exam_total == 0
    then "Exam not attempted yet"
    else decimal s.latest_exam_score
      <> " / "
      <> decimal s.latest_exam_total
      <> " correct · "
      <> decimal ((s.latest_exam_score * 100) / s.latest_exam_total)
      <> "%"

unfoldable pub half_mastery_label : UserStats → String
half_mastery_label s =
    if s.published_lesson_count == 0
    then "No lessons published"
    else decimal s.mastered_count
      <> " / "
      <> decimal s.published_lesson_count
      <> " mastered · "
      <> decimal ((s.mastered_count * 100) / s.published_lesson_count)
      <> "%"

-- A count is never negative here.
unfoldable pub clamp : ℕ → ℕ → ℕ
clamp v max = if ltb max v then max else v

unfoldable pub count_label : ℕ → String → String → String → String
count_label n singular plural suffix =
    decimal n <> " " <> (if n == 1 then singular else plural) <> " " <> suffix

abbrev pub one_if : Bool → ℕ
one_if b = if b then 1 else 0

-- `format` is the RFC 3339 text of a time.
module _ (format : Time → String) where
  unfoldable pub format_time : Option Time → Option String
  format_time none = none
  format_time (some t) = some (format t)

  -- What the switch over the slug sets, from the second line of the loop's body on.
  unfoldable pub set_badge : Definition → Bool → ℕ → Option Time → String → Achievement
  unfolding format_time
  set_badge d unlocked progress at label = record {
    slug = d.slug;
    title = d.title;
    description = d.description;
    criteria = d.criteria;
    progress_label = label;
    icon = d.icon;
    accent = d.accent;
    unlocked = unlocked;
    progress = progress;
    target = d.target;
    unlocked_at = format_time at;
  }

  -- The body of the loop over the catalogue.
  unfoldable pub badge : UserStats → Definition → Achievement
  unfolding set_badge clamp count_label lesson_status_label exam_progress_label half_mastery_label
  badge s d =
      if str_eq d.slug "first-lesson"
      then set_badge d s.has_learned_lesson (one_if s.has_learned_lesson) s.first_lesson_at
          (count_label s.learned_count "lesson" "lessons" "learned")
      else if str_eq d.slug "first-win"
      then set_badge d (leb 1 s.win_count) (one_if (leb 1 s.win_count)) s.first_win_at
          (count_label s.win_count "win" "wins" "logged")
      else if str_eq d.slug "match-diarist"
      then set_badge d (leb d.target s.match_count) (clamp s.match_count d.target)
          s.match_diarist_at
          (decimal (clamp s.match_count d.target) <> " / " <> decimal d.target <> " matches logged")
      else if str_eq d.slug "bandeja-apprentice"
      then (let learned = str_eq s.bandeja_status "learned" || str_eq s.bandeja_status "mastered" in
          set_badge d learned (one_if learned) s.bandeja_apprentice_at
            (lesson_status_label s.bandeja_status))
      else if str_eq d.slug "marcos-curious"
      then set_badge d (leb d.target s.user_message_count) (clamp s.user_message_count d.target)
          s.marcos_curious_at
          (decimal (clamp s.user_message_count d.target)
            <> " / "
            <> decimal d.target
            <> " messages sent")
      else if str_eq d.slug "comeback-kid"
      then set_badge d s.had_comeback (one_if s.had_comeback) s.comeback_at
          (if s.had_comeback then "Came back after two losses" else "No comebacks yet")
      else if str_eq d.slug "padel-license"
      then set_badge d s.passed_exam (one_if s.passed_exam) s.exam_passed_at (exam_progress_label s)
      else if str_eq d.slug "vibora-master"
      then (let mastered = str_eq s.vibora_status "mastered" in
          set_badge d mastered (one_if mastered) s.vibora_mastered_at
            (lesson_status_label s.vibora_status))
      else if str_eq d.slug "win-streak-3"
      then set_badge d (leb d.target s.longest_win_streak) (clamp s.longest_win_streak d.target)
          s.win_streak_three_at ("Longest streak · " <> decimal s.longest_win_streak)
      else if str_eq d.slug "half-mastery"
      then (let half =
            ltb 0 s.published_lesson_count && leb s.published_lesson_count (s.mastered_count * 2) in
          set_badge d half (one_if half) s.half_mastery_at (half_mastery_label s))
      else set_badge d false 0 none ""

  -- The loop, with its variables out and unlocked.
  unfoldable pub compute_loop : UserStats → List Definition → List Achievement → ℕ → Summary
  unfolding badge
  compute_loop s [] out unlocked = record {
    unlocked = unlocked;
    total = length catalogue;
    achievements = out;
  }
  compute_loop s (d ∷ ds) out unlocked =
      let a = badge s d in
      compute_loop s ds (out ++ a ∷ []) (if a.unlocked then unlocked + 1 else unlocked)

  unfoldable pub compute : UserStats → Summary
  unfolding compute_loop catalogue
  compute s = compute_loop s catalogue [] 0
