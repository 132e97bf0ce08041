-- ===== src/Marco/Braces.antt =====
-- internal/marco/match_prep.go: the scan for the brace that closes an object, and the cutting of the
-- [MATCH_PREP: …] tokens. An index into the text is the pair of the text before it and the text from it.
pub mod Objects
pub mod Cutting
use Prim.Native.Char.{Char, code}
use Prim.Native.String.{[], ◌∷◌}
use marco_api.Base.{
  ℕ, zero, suc, ◌+◌, ◌-◌, String, Bool, true, false, not, Option, none, some, ◌&&◌, ◌||◌, ◌==◌,
  if◌then◌else◌, has_prefix, trim_space, ◌<>◌,
}

abbrev pub rune_count : String → ℕ
rune_count [] = 0
rune_count (ch ∷ s) = suc (rune_count s)

-- strings.Index(s, p): the text before the first p, and the text from it on.
unfoldable pub split_at : String → String → Option (String × String)
unfolding has_prefix
split_at p [] = if has_prefix [] p then some ([], []) else none
split_at p (ch ∷ s) =
    let rest = split_at p s in
    if has_prefix (ch ∷ s) p
    then some ([], ch ∷ s)
    else elim rest [ none ↦ none | some (before, from) ↦ some (ch ∷ before, from) ]

abbrev pub next_depth : ℕ → Bool → ℕ → ℕ
next_depth depth in_string ch =
    if in_string
    then depth
    else if ch == b'{'
    then depth + 1
    else if ch == b'}'
    then depth - 1
    else depth

abbrev pub next_in_string : Bool → Bool → ℕ → Bool
next_in_string in_string escaped ch = if in_string then escaped || not (ch == b'"') else ch == b'"'

abbrev pub next_escaped : Bool → Bool → ℕ → Bool
next_escaped in_string escaped ch = in_string && not escaped && ch == b'\\'

abbrev pub closes : ℕ → Bool → ℕ → Bool
closes depth in_string ch = not in_string && ch == b'}' && depth == 1

abbrev pub prepend : String → Option (String × String) → Option (String × String)
prepend s none = none
prepend s (some (a, b)) = some (s <> a, b)

-- The loop of balancedBraces: the text up to the closing brace, that brace included, and the rest.
unfoldable pub scan_braces : ℕ → Bool → Bool → String → Option (String × String)
scan_braces depth in_string escaped [] = none
scan_braces depth in_string escaped (ch ∷ s) =
    let rest =
      scan_braces (next_depth depth in_string (code ch))
        (next_in_string in_string escaped (code ch)) (next_escaped in_string escaped (code ch)) s in
    if closes depth in_string (code ch)
    then some (ch ∷ [], s)
    else elim rest [ none ↦ none | some (a, b) ↦ some (ch ∷ a, b) ]

unfoldable pub balanced_braces : String → Option (String × String)
unfolding scan_braces
balanced_braces [] = none
balanced_braces (ch ∷ s) = if code ch == b'{' then scan_braces 0 false false (ch ∷ s) else none

abbrev pub match_prep_prefix : String
match_prep_prefix = "[MATCH_PREP:"

-- text[end+1:]
unfoldable pub past_bracket : String → Option String
past_bracket [] = none
past_bracket (ch ∷ after) = some after

-- matchPrepClose: the text after the ']' that closes the token which the text begins with.
unfoldable pub match_prep_close : String → Option String
unfolding split_at balanced_braces past_bracket
match_prep_close s = elim (split_at "{" s) [
  | none ↦ none
  | some (before, object) ↦ elim (balanced_braces object) [
    | none ↦ none
    | some (inner, rest) ↦ elim (split_at "]" rest) [
      | none ↦ none
      | some (gap, close) ↦ past_bracket close
    ]
  ]
]

-- One round of the loop of CleanMatchPrepTokens: none where it breaks.
unfoldable pub cut_token : String → Option String
unfolding split_at match_prep_close
cut_token s = elim (split_at match_prep_prefix s) [
  | none ↦ none
  | some (before, token) ↦ elim (match_prep_close token) [
    | none ↦ none
    | some after ↦ some (before <> after)
  ]
]

-- The loop, on fuel.
unfoldable pub cut_tokens : ℕ → String → String
unfolding cut_token
cut_tokens zero s = s
cut_tokens (suc fuel) s = elim (cut_token s) [ none ↦ s | some shorter ↦ cut_tokens fuel shorter ]

-- Each round drops a character at least, so the length of the text is fuel enough.
unfoldable pub clean_match_prep_tokens : String → String
unfolding cut_tokens
clean_match_prep_tokens s = trim_space (cut_tokens (rune_count s) s)

-- findMatchPrepPayloadFrom: the JSON of the next token and the text past it.
unfoldable pub find_match_prep_payload : String → Option (String × String)
unfolding split_at balanced_braces
find_match_prep_payload s = elim (split_at match_prep_prefix s) [
  | none ↦ none
  | some (before, token) ↦ elim (split_at "{" token) [
    | none ↦ none
    | some (gap, object) ↦ balanced_braces object
  ]
]
