-- ===== src/MatchPreparation/Percent.antt =====
-- computePreparationPct of internal/match_preparation/model.go.
use native.Mathlib.Nat.{div-mul-le_self, lt-div-mul-add, le-div_iff_mul-le, div-lt_iff_lt-mul}
use marco_api.Base.{ℕ, ◌+◌, ◌*◌, ◌/◌, ◌≤◌, ◌<◌, ◌≡◌, ◌↔◌, arith, List, [], ◌∷◌, length, count_where}
use marco_api.MatchPreparation.{Drill, is_completed, compute_preparation_pct}

count_where-le : (drills : List Drill) → count_where is_completed drills ≤ length drills
unfolding count_where
count_where-le [] = omega arith
count_where-le (d ∷ drills) = let rest = count_where-le drills in ground arith

abbrev ratio : ℕ → ℕ → ℕ
ratio done n = (done * 100 + n / 2) / n

ratio-nearest :
    (done n : ℕ)
    → 0 < n
    → done ≤ n
    → (ratio done n ≤ 100)
      × (2 * (ratio done n * n) ≤ 200 * done + n)
      × (200 * done ≤ 2 * (ratio done n * n) + n)
ratio-nearest done n h most =
    let below = div-mul-le_self (done * 100 + n / 2) n in
    let above = lt-div-mul-add {a = done * 100 + n / 2} {b = n} h in
    let small =
      (div-lt_iff_lt-mul {k = n} {x = done * 100 + n / 2} {y = 101} h).1 (omega (arith, most, h)) in
    (omega (arith, small), omega (arith, below), omega (arith, above))

ratio-full : (done n : ℕ) → 0 < n → done ≤ n → n ≤ 20 → ratio done n ≡ 100 → done ≡ n
ratio-full done n h most few full =
    let enough =
      (le-div_iff_mul-le {k = n} {x = 100} {y = done * 100 + n / 2} h).0 (omega (arith, full)) in
    omega (arith, enough, most, few)

full-ratio : (n : ℕ) → 0 < n → ratio n n ≡ 100
full-ratio n h =
    let enough = (le-div_iff_mul-le {k = n} {x = 100} {y = n * 100 + n / 2} h).1 (omega arith) in
    let small = (ratio-nearest n n h (omega arith)).0 in omega (arith, enough, small)

-- A queue that is not empty.
ratio-compute_preparation_pct :
    (drills : List Drill)
    → 0 < length drills
    → compute_preparation_pct drills ≡ ratio (count_where is_completed drills) (length drills)
unfolding compute_preparation_pct
ratio-compute_preparation_pct [] h = ground arith
ratio-compute_preparation_pct (d ∷ drills) h = ground arith

-- The nearest whole percent: twice its distance to 100 * completed / total is at most one percent. A queue
-- that is not empty.
pub compute_preparation_pct-nearest :
    (drills : List Drill)
    → 0 < length drills
    → let pct = compute_preparation_pct drills in
      (pct ≤ 100)
      × (2 * (pct * length drills) ≤ 200 * count_where is_completed drills + length drills)
      × (200 * count_where is_completed drills ≤ 2 * (pct * length drills) + length drills)
compute_preparation_pct-nearest drills h =
    rw (ratio-compute_preparation_pct drills h)
      (ratio-nearest (count_where is_completed drills) (length drills) h (count_where-le drills))

-- At most 20 drills, which validateDrills asks for: 100 percent is shown exactly when every drill of a queue
-- that is not empty is done.
pub compute_preparation_pct-full :
    (drills : List Drill)
    → 0 < length drills
    → length drills ≤ 20
    → (compute_preparation_pct drills ≡ 100) ↔ (count_where is_completed drills ≡ length drills)
compute_preparation_pct-full drills h few = rw (ratio-compute_preparation_pct drills h) (
  λ full.
      ratio-full (count_where is_completed drills) (length drills) h (count_where-le drills) few
        full,
  λ all. rw all (full-ratio (length drills) h),
)
