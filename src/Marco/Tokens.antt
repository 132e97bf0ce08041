-- ===== src/Marco/Tokens.antt =====
-- internal/marco: the tokens [LESSON_REF: …], [MATCH_LOG: …] and [MATCH_PREP: …] of a reply. Each regular
-- expression is a matcher at the start of a text; its repetitions never meet a character that the next part
-- could take, so the longest run is the only match. json.Unmarshal is a parameter.
pub mod Replies
pub mod Payloads
use Prim.Native.Char.{Char, code}
use Prim.Native.String.{[], ◌∷◌}
use mathlib.Core.List
use marco_api.Base.{
  ℕ, zero, suc, String, Bool, true, false, not, Option, none, some, List, ◌&&◌, ◌||◌, ◌==◌, leb,
  if◌then◌else◌, has_prefix, trim_space, trim_prefix, str_eq, ◌<>◌,
}
use marco_api.Marco.{LessonRef, MatchLogToken, MatchPrepToken}
use marco_api.Marco.Braces.{rune_count, clean_match_prep_tokens, find_match_prep_payload}

-- \s of RE2.
unfoldable pub is_re_space : ℕ → Bool
is_re_space c = c == 9 || c == 10 || c == 12 || c == 13 || c == 32

-- [ \t]
abbrev pub is_blank : ℕ → Bool
is_blank c = c == 32 || c == 9

-- [a-zA-Z0-9_-]
unfoldable pub is_slug : ℕ → Bool
is_slug c =
    (leb 97 c && leb c 122)
    || (leb 65 c && leb c 90)
    || (leb 48 c && leb c 57)
    || c == 95
    || c == 45

-- The longest run of characters that pass a test, and the text after it.
unfoldable pub span : (ℕ → Bool) → String → String × String
span p [] = ([], [])
span p (ch ∷ s) =
    let (run, rest) = span p s in if p (code ch) then (ch ∷ run, rest) else ([], ch ∷ s)

unfoldable pub skip : (ℕ → Bool) → String → String
unfolding span
skip p s = (span p s).1

abbrev pub is_empty : String → Bool
is_empty [] = true
is_empty (_ ∷ _) = false

-- The text after a prefix that it must have.
unfoldable pub expect : String → String → Option String
unfolding has_prefix trim_prefix
expect p s = if has_prefix s p then some (trim_prefix s p) else none

abbrev pub Matcher {ℓ} : Type ℓ → Type ℓ
Matcher A = String → Option (A × String)

-- `\s*"([^"]+)"\s*\]`, after the id.
unfoldable pub quoted_title : Matcher String
unfolding expect skip span is_re_space
quoted_title s = elim (expect "\"" (skip is_re_space s)) [
  | none ↦ none
  | some s1 ↦
      let (title, s2) = span (λ c. not (c == b'"')) s1 in
      if is_empty title then none else elim (expect "\"" s2) [
        | none ↦ none
        | some s3 ↦ elim (expect "]" (skip is_re_space s3)) [
          | none ↦ none
          | some rest ↦ some (title, rest)
        ]
      ]
]

-- lessonRefRegex
unfoldable pub lesson_ref : Matcher LessonRef
unfolding expect skip span is_re_space is_slug quoted_title
lesson_ref s = elim (expect "[LESSON_REF:" s) [
  | none ↦ none
  | some s1 ↦
      let (id, s2) = span is_slug (skip is_re_space s1) in
      if is_empty id then none else elim (expect "|" (skip is_re_space s2)) [
        | none ↦ none
        | some s3 ↦ elim (quoted_title s3) [
          | none ↦ none
          | some (title, rest) ↦ some (record { id = id; title = title }, rest)
        ]
      ]
]

-- matchLogRegex, with the text of its object.
unfoldable pub match_log : Matcher String
unfolding expect skip span is_re_space
match_log s = elim (expect "[MATCH_LOG:" s) [
  | none ↦ none
  | some s1 ↦ elim (expect "{" (skip is_re_space s1)) [
    | none ↦ none
    | some s2 ↦
        let (inner, s3) = span (λ c. not (c == b'}')) s2 in
        if is_empty inner then none else elim (expect "}" s3) [
          | none ↦ none
          | some s4 ↦ elim (expect "]" (skip is_re_space s4)) [
            | none ↦ none
            | some rest ↦ some ("{" <> (inner <> "}"), rest)
          ]
        ]
  ]
]

-- (?:[ \t]*\n)*, on fuel: how many lines, and the text after them.
unfoldable pub blank_lines : ℕ → String → ℕ × String
unfolding expect skip span
blank_lines zero s = (0, s)
blank_lines (suc fuel) s = elim (expect "\n" (skip is_blank s)) [
  | none ↦ (0, s)
  | some after ↦ let (n, rest) = blank_lines fuel after in (suc n, rest)
]

-- blankLineRunRegex
unfoldable pub blank_line_run : Matcher String
unfolding expect blank_lines
blank_line_run s = elim (expect "\n" s) [
  | none ↦ none
  | some after ↦
      let (n, rest) = blank_lines (rune_count after) after in
      if leb 2 n then some ("\n\n", rest) else none
]

-- Regexp.ReplaceAllString, on fuel.
unfoldable pub replace_all : ℕ → Matcher String → String → String
replace_all zero m s = s
replace_all (suc fuel) m [] = []
replace_all (suc fuel) m (ch ∷ s) = elim (m (ch ∷ s)) [
  | none ↦ ch ∷ replace_all fuel m s
  | some (out, rest) ↦ out <> replace_all fuel m rest
]

-- Regexp.FindAllStringSubmatch, on fuel.
unfoldable pub find_all {ℓ} : {A : Type ℓ} → ℕ → Matcher A → String → List A
find_all zero m s = List.[]
find_all (suc fuel) m [] = List.[]
find_all (suc fuel) m (ch ∷ s) = elim (m (ch ∷ s)) [
  | none ↦ find_all fuel m s
  | some (a, rest) ↦ List.◌∷◌ a (find_all fuel m rest)
]

unfoldable pub first_match {ℓ} : {A : Type ℓ} → Matcher A → String → Option A
first_match m [] = none
first_match m (ch ∷ s) = elim (m (ch ∷ s)) [ none ↦ first_match m s | some (a, rest) ↦ some a ]

abbrev title_of : Matcher String
title_of s = elim (lesson_ref s) [ none ↦ none | some (ref, rest) ↦ some (ref.title, rest) ]

abbrev erased : Matcher String
erased s = elim (match_log s) [ none ↦ none | some (object, rest) ↦ some ("", rest) ]

-- A match takes a character at least, so the length of the text is fuel enough.
unfoldable pub replace_in : Matcher String → String → String
unfolding replace_all
replace_in m s = replace_all (rune_count s) m s

unfoldable pub clean_content : String → String
unfolding replace_in lesson_ref match_log clean_match_prep_tokens blank_line_run
clean_content text =
    let titled = replace_in title_of text in
    let unlogged = replace_in erased titled in
    let unprepared = clean_match_prep_tokens unlogged in
    trim_space (replace_in blank_line_run unprepared)

unfoldable pub clean_match_log_tokens : String → String
unfolding replace_in match_log
clean_match_log_tokens text = trim_space (replace_in erased text)

unfoldable pub parse_lesson_refs : String → List LessonRef
unfolding find_all lesson_ref
parse_lesson_refs text = find_all (rune_count text) lesson_ref text

module _ (unmarshal : String → Option MatchLogToken) where
  unfoldable pub parse_match_log_token : String → Option MatchLogToken
  unfolding first_match match_log
  parse_match_log_token text = elim (first_match match_log text) [
    | none ↦ none
    | some object ↦ unmarshal object
  ]

abbrev pub or_last : Option MatchPrepToken → Option MatchPrepToken → Option MatchPrepToken
or_last none last = last
or_last (some t) last = some t

module _ (unmarshal : String → Option MatchPrepToken) where
  -- The token of a payload that the loop of ParseMatchPrepToken keeps.
  unfoldable pub valid_token : String → Option MatchPrepToken
  valid_token raw = elim (unmarshal raw) [
    | none ↦ none
    | some t ↦ if str_eq t.mode "adjust" || str_eq t.mode "create" then some t else none
  ]

  -- The loop, on fuel.
  unfoldable pub parse_from : ℕ → Option MatchPrepToken → String → Option MatchPrepToken
  unfolding find_match_prep_payload valid_token
  parse_from zero last s = last
  parse_from (suc fuel) last s = elim (find_match_prep_payload s) [
    | none ↦ last
    | some (raw, next) ↦ parse_from fuel (or_last (valid_token raw) last) next
  ]

  unfoldable pub parse_match_prep_token : String → Option MatchPrepToken
  unfolding parse_from
  parse_match_prep_token text = parse_from (rune_count text) none text
