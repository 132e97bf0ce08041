-- ===== src/MatchPreparation/Suggestions/Bounds.antt =====
-- What parseSuggestions of internal/match_preparation/handler.go lets through.
use Prim.Native.Char.{code}
use Prim.Native.String.{[], ◌∷◌}
use marco_api.Base.{
  ℕ, zero, suc, ◌-◌, ◌≤◌, ◌≡◌, refl, arith, String, Option, some, List, All, length, trim_space,
  Option-cases, inl, inr,
}
use mathlib.Core.Path.{subst⁻¹}
use marco_api.Base.Db.{ok}
use marco_api.Base.Int.{ℤ, pos, negsuc}
use marco_api.Marco.Braces.{rune_count}
use marco_api.MatchPreparation.Suggestions.{
  Item, Suggestion, char_len, byte_len, broken, cut_bytes, clamp_duration, to_suggestion, collect,
  some_or_error, parse_suggestions, outermost_array,
}

char_len-pos : (c : ℕ) → 1 ≤ char_len c
unfolding char_len
char_len-pos c = ground arith

rune_count-broken : (n : ℕ) → rune_count (broken n) ≡ n
unfolding broken
rune_count-broken zero = refl
rune_count-broken (suc n) = let rest = rune_count-broken n in omega (arith, rest)

rune_count-cut_bytes : (n : ℕ) (s : String) → rune_count (cut_bytes n s) ≤ n
unfolding cut_bytes
rune_count-cut_bytes n [] = omega arith
rune_count-cut_bytes n (ch ∷ s) =
    let one = char_len-pos (code ch) in
    let rest = rune_count-cut_bytes (n - char_len (code ch)) s in
    let cut = rune_count-broken n in ground arith

rune_count-byte_len : (s : String) → rune_count s ≤ byte_len s
unfolding byte_len
rune_count-byte_len [] = omega arith
rune_count-byte_len (ch ∷ s) =
    let one = char_len-pos (code ch) in let rest = rune_count-byte_len s in omega (arith, one, rest)

-- A title of at most 60 characters and between one and thirty minutes.
pub record IsShort (x : Suggestion) : Type 0 where
  pub title : rune_count x.title ≤ 60
  pub least : 60 ≤ x.duration_seconds
  pub most : x.duration_seconds ≤ 1800

clamp_duration-bounds : (d : ℤ) → (60 ≤ clamp_duration d) × (clamp_duration d ≤ 1800)
unfolding clamp_duration
clamp_duration-bounds (negsuc n) = (omega arith, omega arith)
clamp_duration-bounds (pos d) = (ground arith, ground arith)

to_suggestion-IsShort : (it : Item) (x : Suggestion) → to_suggestion it ≡ some x → IsShort x
unfolding to_suggestion
to_suggestion-IsShort it x h =
    let (least, most) = clamp_duration-bounds it.duration_seconds in
    let cut = rune_count-cut_bytes 60 (trim_space it.title) in
    let whole = rune_count-byte_len (trim_space it.title) in
    record { title = ground arith; least = ground arith; most = ground arith }

collect-IsShort :
    (room : ℕ) (items : List Item)
    → All IsShort (collect room items) × (length (collect room items) ≤ room)
unfolding collect
collect-IsShort zero items = (tt, omega arith)
collect-IsShort (suc room) List.[] = (tt, omega arith)
collect-IsShort (suc room) (List.◌∷◌ it items) = elim (Option-cases (to_suggestion it)) [
  | inl e ↦ rw (e, collect) (collect-IsShort (suc room) items)
  | inr (x, e) ↦
      let (each, few) = collect-IsShort room items in
      rw (e, collect) ((to_suggestion-IsShort it x e, each), omega (arith, few))
]

parse_suggestions-collect :
    (unmarshal : String → Option (List Item)) (reply : String) (xs : List Suggestion)
    → parse_suggestions unmarshal reply ≡ ok xs
    → (items : List Item) × (xs ≡ collect 5 items) × (1 ≤ length xs)
unfolding parse_suggestions some_or_error
parse_suggestions-collect unmarshal reply xs h =
    elim (Option-cases (outermost_array (trim_space reply))) [
      | inl e ↦ ground arith
      | inr (raw, e) ↦ elim (Option-cases (unmarshal raw)) [
        | inl k ↦ ground arith
        | inr (items, k) ↦ (items, ground arith, ground arith)
      ]
    ]

-- A reply that is answered gives one to five suggestions, each with a title of at most 60 characters and
-- between 60 and 1800 seconds, whatever the model wrote and however it decodes.
pub parse_suggestions-bounds :
    (unmarshal : String → Option (List Item)) (reply : String) (xs : List Suggestion)
    → parse_suggestions unmarshal reply ≡ ok xs
    → All IsShort xs × (1 ≤ length xs) × (length xs ≤ 5)
parse_suggestions-bounds unmarshal reply xs h =
    let (items, e, filled) = parse_suggestions-collect unmarshal reply xs h in
    let (each, few) = collect-IsShort 5 items in (subst⁻¹ (All IsShort) e each, filled, rw e few)
