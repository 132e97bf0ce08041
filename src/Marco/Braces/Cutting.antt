-- ===== src/Marco/Braces/Cutting.antt =====
-- CleanMatchPrepTokens of internal/marco/match_prep.go ends, and leaves no token that it could cut.
use Prim.Native.Char.{Char, code}
use Prim.Native.String.{[], ◌∷◌}
use marco_api.Base.{
  ℕ, zero, suc, ◌+◌, ◌≤◌, ◌<◌, ◌≡◌, refl, ap, sym, ◌∙◌, arith, String, Bool, true, false, Option,
  none, some, if◌then◌else◌, has_prefix, ◌<>◌, Bool-cases, ◌==◌, Option-cases, inl, inr,
}
use marco_api.Marco.Braces.{
  rune_count, split_at, scan_braces, balanced_braces, match_prep_prefix, match_prep_close,
  cut_token, cut_tokens, past_bracket, next_depth, next_in_string, next_escaped,
}

pub rune_count-append : (s t : String) → rune_count (s <> t) ≡ rune_count s + rune_count t
rune_count-append [] t = ground arith
rune_count-append (ch ∷ s) t = ground (arith, rune_count-append s t)

-- The pair that a split of a text makes has as many characters as the text.
abbrev split_count : Option (String × String) → ℕ → ℕ
split_count none n = n
split_count (some (a, b)) n = rune_count a + rune_count b

split_count-nil : (t : Bool) → split_count (if t then some ([], []) else none) 0 ≡ 0
split_count-nil true = refl
split_count-nil false = refl

split_count-cons :
    (t : Bool) (ch : Char) (s : String) (o : Option (String × String))
    → split_count o (rune_count s) ≡ rune_count s
    → split_count
        (if t
          then some ([], ch ∷ s)
          else elim o [ none ↦ none | some (before, from) ↦ some (ch ∷ before, from) ])
        (suc (rune_count s))
      ≡ suc (rune_count s)
split_count-cons true ch s o h = omega arith
split_count-cons false ch s none h = refl
split_count-cons false ch s (some (a, b)) h = omega (arith, h)

split_count-split_at : (p s : String) → split_count (split_at p s) (rune_count s) ≡ rune_count s
unfolding split_at
split_count-split_at p [] = split_count-nil (has_prefix [] p)
split_count-split_at p (ch ∷ s) =
    split_count-cons (has_prefix (ch ∷ s) p) ch s (split_at p s) (split_count-split_at p s)

split_at-count :
    (p s a b : String) → split_at p s ≡ some (a, b) → rune_count a + rune_count b ≡ rune_count s
split_at-count p s a b h = ap (λ o. split_count o (rune_count s)) (sym h) ∙ split_count-split_at p s

scan_braces-count :
    (d : ℕ) (i e : Bool) (s a b : String)
    → scan_braces d i e s ≡ some (a, b)
    → rune_count b < rune_count s
unfolding scan_braces
scan_braces-count d i e [] a b h = ground arith
scan_braces-count d i e (ch ∷ s) a b h =
    elim (Option-cases (
      scan_braces (next_depth d i (code ch)) (next_in_string i e (code ch))
        (next_escaped i e (code ch)) s)) [
          | inl n ↦ ground arith
          | inr ((x, y), k) ↦
              let rest =
                scan_braces-count (next_depth d i (code ch)) (next_in_string i e (code ch))
                  (next_escaped i e (code ch)) s x y k in
              ground arith
        ]

balanced_braces-count :
    (s a b : String) → balanced_braces s ≡ some (a, b) → rune_count b < rune_count s
unfolding balanced_braces
balanced_braces-count [] a b h = ground arith
balanced_braces-count (ch ∷ s) a b h = elim (Bool-cases (code ch == b'{')) [
  | inl unclosed ↦ scan_braces-count 0 false false (ch ∷ s) a b (ground arith)
  | inr shut ↦ ground arith
]

past_bracket-count :
    (s after : String) → past_bracket s ≡ some after → rune_count after < rune_count s
unfolding past_bracket
past_bracket-count [] after h = ground arith
past_bracket-count (ch ∷ s) after h = ground arith

match_prep_close-count :
    (s after : String) → match_prep_close s ≡ some after → rune_count after < rune_count s
unfolding match_prep_close
match_prep_close-count s after h = elim (Option-cases (split_at "{" s)) [
  | inl none_found ↦ ground arith
  | inr ((before, object), found) ↦
      let left = split_at-count "{" s before object found in
      elim (Option-cases (balanced_braces object)) [
        | inl unclosed ↦ ground arith
        | inr ((inner, rest), closed) ↦
            let inside = balanced_braces-count object inner rest closed in
            elim (Option-cases (split_at "]" rest)) [
              | inl no_bracket ↦ ground arith
              | inr ((gap, close), bracket) ↦
                  let right = split_at-count "]" rest gap close bracket in
                  let cut = past_bracket-count close after (ground arith) in ground arith
            ]
      ]
]

cut_token-count :
    (s shorter : String) → cut_token s ≡ some shorter → rune_count shorter < rune_count s
unfolding cut_token
cut_token-count s shorter h = elim (Option-cases (split_at match_prep_prefix s)) [
  | inl none_found ↦ ground arith
  | inr ((before, token), found) ↦
      let left = split_at-count match_prep_prefix s before token found in
      elim (Option-cases (match_prep_close token)) [
        | inl unclosed ↦ ground arith
        | inr (after, closed) ↦
            let right = match_prep_close-count token after closed in
            let joined = rune_count-append before after in ground arith
      ]
]

-- The loop of CleanMatchPrepTokens ends by its break: with as many rounds as the text has
-- characters, what it leaves has no token that a further round would cut.
pub cut_tokens_ends :
    (fuel : ℕ) (s : String) → rune_count s ≤ fuel → cut_token (cut_tokens fuel s) ≡ none
unfolding cut_tokens
cut_tokens_ends zero s enough = elim (Option-cases (cut_token s)) [
  | inl done ↦ done
  | inr (shorter, again) ↦ let less = cut_token-count s shorter again in ground arith
]
cut_tokens_ends (suc fuel) s enough = elim (Option-cases (cut_token s)) [
  | inl done ↦ ground arith
  | inr (shorter, again) ↦
      let less = cut_token-count s shorter again in
      let rest = cut_tokens_ends fuel shorter (omega (arith, less, enough)) in ground arith
]
