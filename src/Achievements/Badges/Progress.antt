-- ===== src/Achievements/Badges/Progress.antt =====
-- The badges that compute of internal/achievements/model.go shows.
use mathlib.Core.List.{append-nil, append_assoc}
use mathlib.Core.Path.{subst}
use native.Mathlib.Nat.{zero-add}
use marco_api.Base.{
  ℕ, ◌+◌, ◌≤◌, ◌≡◌, refl, String, Bool, true, false, List, [], ◌∷◌, ◌++◌, arith, ◌==◌, leb,
  if◌then◌else◌, Time, All, length, map, ◌∙◌, ap, sym,
}
use marco_api.Achievements.Badges.{
  Achievement, Definition, UserStats, catalogue, clamp, one_if, badge, compute_loop, compute,
}

abbrev pub unlocked_of : List Achievement → ℕ
unlocked_of [] = 0
unlocked_of (a ∷ rest) = (if a.unlocked then 1 else 0) + unlocked_of rest

-- The bar of a badge is never over-full, and it is full exactly when the badge is unlocked.
abbrev pub IsFair : Achievement → Type 0
IsFair a = (a.progress ≤ a.target) × (a.unlocked ≡ (a.progress == a.target))

module _ (format : Time → String) where
  compute_loop_result :
      (s : UserStats) (ds : List Definition) (out : List Achievement) (n : ℕ)
      → ((compute_loop format s ds out n).achievements ≡ out ++ map (badge format s) ds)
        × ((compute_loop format s ds out n).unlocked ≡ n + unlocked_of (map (badge format s) ds))
  unfolding compute_loop
  compute_loop_result s [] out n = (sym (append-nil out), omega arith)
  compute_loop_result s (d ∷ ds) out n =
      let a = badge format s d in
      let (shown, counted) =
        compute_loop_result s ds (out ++ a ∷ []) (if a.unlocked then n + 1 else n) in
      (shown ∙ append_assoc out (a ∷ []) (map (badge format s) ds), ground arith)

  one_if-fair : (b : Bool) → (one_if b ≤ 1) × (b ≡ (one_if b == 1))
  one_if-fair true = (omega arith, refl)
  one_if-fair false = (omega arith, refl)

  clamp-fair : (v max : ℕ) → (clamp v max ≤ max) × (leb max v ≡ (clamp v max == max))
  unfolding clamp
  clamp-fair v max = (ground arith, ground arith)

  badges-IsFair : (s : UserStats) → All IsFair (map (badge format s) catalogue)
  unfolding badge catalogue
  badges-IsFair s = (
    one_if-fair _,
    (
      one_if-fair _,
      (
        clamp-fair s.match_count 10,
        (
          one_if-fair _,
          (
            clamp-fair s.user_message_count 10,
            (
              one_if-fair _,
              (
                one_if-fair _,
                (one_if-fair _, (clamp-fair s.longest_win_streak 3, (one_if-fair _, tt))),
              ),
            ),
          ),
        ),
      ),
    ),
  )

  -- The profile adds up, whatever the user has done: the number unlocked is the number of badges
  -- shown as unlocked, the total is the number of badges shown, no bar passes its target, and a badge
  -- is unlocked exactly when its bar is full.
  pub compute-IsFair :
      (s : UserStats)
      → ((compute format s).unlocked ≡ unlocked_of (compute format s).achievements)
        × ((compute format s).total ≡ length (compute format s).achievements)
        × All IsFair (compute format s).achievements
  unfolding compute
  compute-IsFair s =
      let (shown, counted) = compute_loop_result s catalogue [] 0 in
      (
        counted ∙ zero-add _ ∙ ap unlocked_of (sym shown),
        refl,
        subst (All IsFair) (sym shown) (badges-IsFair s),
      )
