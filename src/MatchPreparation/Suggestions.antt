-- ===== src/MatchPreparation/Suggestions.antt =====
-- internal/match_preparation/handler.go: the reply of the model that holds drill ideas. json.Unmarshal is
-- a parameter. A title that is cut inside a character keeps the bytes of it that fit, which are written as
-- U+FFFD each when the answer is encoded.
pub mod Bounds
use Prim.Native.Char.{code}
use Prim.Native.String.{[], ◌∷◌}
use mathlib.Core.List
use marco_api.Base.{
  ℕ, zero, suc, ◌+◌, ◌-◌, String, Bool, true, false, Option, none, some, List, ◌==◌, ltb, leb,
  length, str_eq, if◌then◌else◌, trim_space, ◌<>◌,
}
use marco_api.Base.Db.{Result, ok, err}
use marco_api.Base.Int.{ℤ, pos, negsuc}
use marco_api.Anthropic.{StreamChunk, StreamEvent, chunk, failure}
use marco_api.Marco.Braces.{split_at}

-- An item as it is decoded, and a suggestion as it is sent: the Go type is the same.
pub record Item : Type 0 where
  pub title : String
  pub duration_seconds : ℤ

pub record Suggestion : Type 0 where
  pub title : String
  pub duration_seconds : ℕ

-- The number of bytes of a character in UTF-8.
unfoldable pub char_len : ℕ → ℕ
char_len c = if ltb c 0x80 then 1 else if ltb c 0x800 then 2 else if ltb c 0x10000 then 3 else 4

-- len(s)
unfoldable pub byte_len : String → ℕ
unfolding char_len
byte_len [] = 0
byte_len (ch ∷ s) = char_len (code ch) + byte_len s

unfoldable pub broken : ℕ → String
broken zero = []
broken (suc n) = "�" <> broken n

-- title[:n]
unfoldable pub cut_bytes : ℕ → String → String
unfolding char_len broken
cut_bytes n [] = []
cut_bytes n (ch ∷ s) =
    let rest = cut_bytes (n - char_len (code ch)) s in
    if leb (char_len (code ch)) n then ch ∷ rest else broken n

unfoldable pub clamp_duration : ℤ → ℕ
clamp_duration (negsuc _) = 60
clamp_duration (pos d) = if ltb d 60 then 60 else if ltb 1800 d then 1800 else d

-- The body of the loop: none where it continues.
unfoldable pub to_suggestion : Item → Option Suggestion
unfolding byte_len cut_bytes clamp_duration
to_suggestion it =
    let title = trim_space it.title in
    if str_eq title ""
    then none
    else some (record {
      title = if ltb 60 (byte_len title) then cut_bytes 60 title else title;
      duration_seconds = clamp_duration it.duration_seconds;
    })

-- The loop, with the room that is left for suggestions.
unfoldable pub collect : ℕ → List Item → List Suggestion
unfolding to_suggestion
collect zero items = List.[]
collect (suc room) List.[] = List.[]
collect (suc room) (List.◌∷◌ it items) = elim (to_suggestion it) [
  | none ↦ collect (suc room) items
  | some suggestion ↦ List.◌∷◌ suggestion (collect room items)
]

-- strings.LastIndex(s, "]"): the text up to the last bracket, that bracket included.
unfoldable pub up_to_last_bracket : String → Option String
up_to_last_bracket [] = none
up_to_last_bracket (ch ∷ s) = elim (up_to_last_bracket s) [
  | some run ↦ some (ch ∷ run)
  | none ↦ if code ch == b']' then some (ch ∷ []) else none
]

-- text[start : end+1], where the text has a '[' and a ']' after it.
unfoldable pub outermost_array : String → Option String
unfolding split_at up_to_last_bracket
outermost_array text = elim (split_at "[" text) [
  | none ↦ none
  | some (before, from) ↦ up_to_last_bracket from
]

pub data SuggesterError : Type 0 where
  empty_response no_array not_json no_suggestions stream_failed : SuggesterError

unfoldable pub some_or_error : List Suggestion → Result SuggesterError (List Suggestion)
some_or_error List.[] = err no_suggestions
some_or_error (List.◌∷◌ x xs) = ok (List.◌∷◌ x xs)

module _ (unmarshal : String → Option (List Item)) where
  unfoldable pub parse_suggestions : String → Result SuggesterError (List Suggestion)
  unfolding outermost_array collect some_or_error
  parse_suggestions reply =
      let text = trim_space reply in
      if str_eq text "" then err empty_response else elim (outermost_array text) [
        | none ↦ err no_array
        | some raw ↦ elim (unmarshal raw) [
          | none ↦ err not_json
          | some items ↦ some_or_error (collect 5 items)
        ]
      ]

  -- The loop of callSuggester over what the two channels bring, and the parsing after it.
  unfoldable pub final_text : String → List StreamEvent → Option String
  final_text final List.[] = some final
  final_text final (List.◌∷◌ (chunk c) events) =
      final_text (if c.is_done then c.final_text else final) events
  final_text final (List.◌∷◌ failure events) = none

  unfoldable pub call_suggester : List StreamEvent → Result SuggesterError (List Suggestion)
  unfolding final_text parse_suggestions
  call_suggester events = elim (final_text "" events) [
    | none ↦ err stream_failed
    | some text ↦ parse_suggestions text
  ]
