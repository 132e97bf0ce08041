-- ===== src/Marco/Tests.antt =====
-- Tests of the tokens in replies, and the theorems at concrete replies.
use marco_api.Base.{
  ℕ, ◌≡◌, ◌≢◌, refl, arith, String, Bool, Option, none, some, List, contains, if◌then◌else◌,
}
use marco_api.Marco.{MatchLogToken, MatchPrepToken}
use marco_api.Marco.Braces.{balanced_braces, cut_token, cut_tokens, clean_match_prep_tokens}
use marco_api.Marco.Braces.Objects.{
  Body, plain, escaped, close, other, literal, object, empty, balanced_braces-print_body,
}
use marco_api.Marco.Braces.Cutting.{cut_tokens_ends}
use marco_api.Marco.Tokens.{
  clean_content, clean_match_log_tokens, parse_lesson_refs, parse_match_log_token,
  parse_match_prep_token,
}
use marco_api.Marco.Tokens.Replies.{Plain, Piece, char, bracket, match_bracket, print_reply}
use marco_api.Marco.Tokens.Payloads.{
  last_token, parse_match_prep_token-print_reply, clean_match_prep_tokens-print_reply,
}

-- {"}":{}} as a body: a literal that holds a brace and an escaped quote, then an object.
abbrev nested : Body
nested =
    literal (plain "}" (ground arith) (ground arith) (escaped "\"" close))
      (other ":" (ground arith) (ground arith) (ground arith) (object empty empty))

abbrev said : Plain
said = char "a" (ground arith) (char " " (ground arith) Plain.empty)

abbrev piece : Body → Piece
piece b = record { prose = said; body = b }

abbrev blank_token : MatchPrepToken
blank_token = record {
  mode = "create";
  id = "";
  scheduled_at = "";
  opponents = List.[];
  partner_name = "";
  court = "";
  note = "";
  drills = List.[];
}

-- A payload with a colon is a creation, one with an a has a mode that does not exist.
abbrev decode : String → Option MatchPrepToken
decode raw =
    if contains raw ":"
    then some blank_token
    else if contains raw "a"
    then some (record blank_token { mode = "other" })
    else none

-- The beginnings of the other tokens.
abbrev linked : Plain
linked =
    bracket "L" (ground arith) (ground arith)
      (match_bracket "L" (ground arith) (ground arith) (char " " (ground arith) Plain.empty))

abbrev pieces : List Piece
pieces = List.◌∷◌ (piece nested) (
    List.◌∷◌ (record { prose = linked; body = empty })
      (List.◌∷◌ (piece (other "a" (ground arith) (ground arith) (ground arith) empty)) List.[]))

balanced_braces-print_body_example :
    balanced_braces "{\"}\\\"\":{}}]}" ≡ some ("{\"}\\\"\":{}}", "]}")
balanced_braces-print_body_example = balanced_braces-print_body nested "]}"

cut_tokens_ends_example : cut_token (cut_tokens 40 "a [MATCH_PREP: {}] b [MATCH_PREP: {") ≡ none
cut_tokens_ends_example = cut_tokens_ends 40 "a [MATCH_PREP: {}] b [MATCH_PREP: {" (omega arith)

parse_match_prep_token-print_reply_example :
    parse_match_prep_token decode (print_reply pieces said) ≡ last_token decode pieces
parse_match_prep_token-print_reply_example = parse_match_prep_token-print_reply decode pieces said

clean_match_prep_tokens-print_reply_example :
    clean_match_prep_tokens (print_reply pieces said) ≡ "a [L[MATCH_L a a"
unfolding marco_api.Base.trim_space
clean_match_prep_tokens-print_reply_example = clean_match_prep_tokens-print_reply pieces said

last_token_test : parse_match_prep_token decode (print_reply pieces said) ≡ some blank_token
unfolding parse_match_prep_token contains
last_token_test = refl

clean_content_test :
    clean_content
      "Go:\n\n[MATCH_LOG: {\"result\": \"won\"}]\n\nSee [LESSON_REF: net-play | \"Net play\"]."
    ≡ "Go:\n\nSee Net play."
unfolding clean_content marco_api.Base.trim_space
clean_content_test = refl

parse_lesson_refs_test :
    parse_lesson_refs "a [LESSON_REF: x-1|\"One\" ] [LESSON_REF: ! | \"Two\"]"
    ≡ List.◌∷◌ (record { id = "x-1"; title = "One" }) List.[]
unfolding parse_lesson_refs
parse_lesson_refs_test = refl

clean_match_log_tokens_test :
    clean_match_log_tokens "ok [MATCH_LOG: {}] [MATCH_LOG: {1} ]" ≡ "ok [MATCH_LOG: {}]"
unfolding clean_match_log_tokens marco_api.Base.trim_space
clean_match_log_tokens_test = refl

abbrev decode_log : String → Option MatchLogToken
decode_log raw = some (record {
  result = raw;
  played_on = "";
  note = "";
  feeling = "";
  partner_name = "";
  opponents = List.[];
})

parse_match_log_token_test :
    parse_match_log_token decode_log "x [MATCH_LOG: {1}] [MATCH_LOG: {2}]" ≡ decode_log "{1}"
unfolding parse_match_log_token
parse_match_log_token_test = refl
