-- ===== src/Marco/Tokens/Payloads.antt =====
-- ParseMatchPrepToken and CleanMatchPrepTokens of internal/marco/match_prep.go on the replies of Replies.
use Prim.Native.String.{[]}
use marco_api.Base.{
  ℕ, zero, suc, ◌≤◌, ◌≡◌, refl, ap, ◌∙◌, arith, String, Bool, Option, none, some, List, length,
  keep, Bool-cases, str_eq, sym, if◌then◌else◌, ◌||◌, has_prefix, trim_space, ◌<>◌, <>_assoc,
  Option-cases, inl, inr,
}
use marco_api.Marco.{MatchPrepToken}
use marco_api.Marco.Braces.{
  rune_count, split_at, match_prep_prefix, match_prep_close, past_bracket, cut_token, cut_tokens,
  clean_match_prep_tokens,
}
use marco_api.Marco.Braces.Objects.{Body, balanced_braces-print_body}
use marco_api.Marco.Tokens.{valid_token, or_last, parse_from, parse_match_prep_token}
use marco_api.Marco.Tokens.Replies.{
  Plain, print_plain, Piece, payload, print_piece, print_reply, prose_of, split_at-print_plain,
  token, object-token, split_at-plain, split_at-prose, find_match_prep_payload-print_piece,
  find_match_prep_payload-bracket, find_match_prep_payload-print_plain, length-pieces,
}

abbrev pub is_edit : MatchPrepToken → Bool
is_edit t = str_eq t.mode "adjust" || str_eq t.mode "create"

abbrev pub last_of : List MatchPrepToken → Option MatchPrepToken
last_of List.[] = none
last_of (List.◌∷◌ t ts) = elim (last_of ts) [ none ↦ some t | some u ↦ some u ]

or_last-none : (a : Option MatchPrepToken) → or_last a none ≡ a
or_last-none none = refl
or_last-none (some t) = refl

abbrev add_decoded : Option MatchPrepToken → List MatchPrepToken → List MatchPrepToken
add_decoded none ts = ts
add_decoded (some t) ts = List.◌∷◌ t ts

last_of-add_decoded :
    (o : Option MatchPrepToken) (ts : List MatchPrepToken)
    → last_of (keep is_edit (add_decoded o ts))
      ≡ or_last
          (last_of (keep is_edit ts))
          (elim o [ none ↦ none | some t ↦ if is_edit t then some t else none ])
unfolding keep
last_of-add_decoded none ts = sym (or_last-none (last_of (keep is_edit ts)))
last_of-add_decoded (some t) ts = elim (Bool-cases (is_edit t)) [
  | inl e ↦ ground arith
  | inr e ↦ ground arith
]

module _ (unmarshal : String → Option MatchPrepToken) where
  -- The payloads that decode, in order.
  abbrev pub decoded : List Piece → List MatchPrepToken
  decoded List.[] = List.[]
  decoded (List.◌∷◌ p ps) = add_decoded (unmarshal (payload p)) (decoded ps)

  -- The last of them whose mode is adjust or create.
  abbrev pub last_token : List Piece → Option MatchPrepToken
  last_token ps = last_of (keep is_edit (decoded ps))

  last_token-cons :
      (p : Piece) (ps : List Piece)
      → last_token (List.◌∷◌ p ps) ≡ or_last (last_token ps) (valid_token unmarshal (payload p))
  unfolding valid_token
  last_token-cons p ps = last_of-add_decoded (unmarshal (payload p)) (decoded ps)

  parse_from-bracket :
      (fuel : ℕ) (last : Option MatchPrepToken) (s : String)
      → parse_from unmarshal fuel last ("]" <> s) ≡ parse_from unmarshal fuel last s
  unfolding parse_from
  parse_from-bracket zero last s = refl
  parse_from-bracket (suc fuel) last s = let e = find_match_prep_payload-bracket s in ground arith

  or_last_assoc :
      (a b c : Option MatchPrepToken) → or_last a (or_last b c) ≡ or_last (or_last a b) c
  or_last_assoc none b c = refl
  or_last_assoc (some t) b c = refl

  parse_from-print_reply :
      (fuel : ℕ) (last : Option MatchPrepToken) (ps : List Piece) (tail : Plain)
      → length ps ≤ fuel
      → parse_from unmarshal fuel last (print_reply ps tail) ≡ or_last (last_token ps) last
  unfolding parse_from keep
  parse_from-print_reply zero last List.[] tail enough = refl
  parse_from-print_reply (suc fuel) last List.[] tail enough =
      let e = find_match_prep_payload-print_plain tail in ground arith
  parse_from-print_reply zero last (List.◌∷◌ p ps) tail enough = ground arith
  parse_from-print_reply (suc fuel) last (List.◌∷◌ p ps) tail enough =
      let now = or_last (valid_token unmarshal (payload p)) last in
      let e = find_match_prep_payload-print_piece p (print_reply ps tail) in
      let step = parse_from-bracket fuel now (print_reply ps tail) in
      let rest = parse_from-print_reply fuel now ps tail (omega (arith, enough)) in
      let cons = last_token-cons p ps in
      let joined = or_last_assoc (last_token ps) (valid_token unmarshal (payload p)) last in
      ground arith

  -- A reply of pieces of prose with a token [MATCH_PREP: {…}] after each but the last, where in the prose each [ is
  -- followed, within its piece, by a character other than M and [, or by MATCH_ and a character other than P and [, and
  -- in the token every string ends and the braces outside of the strings balance:
  -- ParseMatchPrepToken answers the last of the tokens whose JSON decodes with a mode that is adjust or create, and
  -- none if there is none.
  pub parse_match_prep_token-print_reply :
      (ps : List Piece) (tail : Plain)
      → parse_match_prep_token unmarshal (print_reply ps tail) ≡ last_token ps
  unfolding parse_match_prep_token
  parse_match_prep_token-print_reply ps tail =
      let e =
        parse_from-print_reply (rune_count (print_reply ps tail)) none ps tail
          (length-pieces ps tail) in
      let unit = or_last-none (last_token ps) in e ∙ unit

match_prep_close-token : (b : Body) (s : String) → match_prep_close (token b s) ≡ some s
unfolding match_prep_close past_bracket split_at has_prefix
match_prep_close-token b s =
    let object = object-token b s in
    let closed = balanced_braces-print_body b ("]" <> s) in ground arith

cut_token-print_piece :
    (p : Piece) (s : String) → cut_token (print_piece p s) ≡ some (print_plain p.prose <> s)
unfolding cut_token token
cut_token-print_piece p s =
    let found = split_at-prose p.prose p.body s in
    let closed = match_prep_close-token p.body s in
    let joined = <>_assoc (print_plain p.prose) [] s in ground arith

cut_token-print_plain : (g : Plain) → cut_token (print_plain g) ≡ none
unfolding cut_token
cut_token-print_plain g = let e = split_at-plain g in ground arith

cut_token-prose :
    (g : Plain) (s shorter : String)
    → cut_token s ≡ some shorter
    → cut_token (print_plain g <> s) ≡ some (print_plain g <> shorter)
unfolding cut_token
cut_token-prose g s shorter h = elim (Option-cases (split_at match_prep_prefix s)) [
  | inl e ↦ ground arith
  | inr ((a, b), e) ↦
      let found = split_at-print_plain g s in
      elim (Option-cases (match_prep_close b)) [
        | inl k ↦ ground arith
        | inr (after, k) ↦ let joined = <>_assoc (print_plain g) a after in ground arith
      ]
]

cut_token-prose-none :
    (g : Plain) (s : String) → cut_token s ≡ none → cut_token (print_plain g <> s) ≡ none
unfolding cut_token
cut_token-prose-none g s h = elim (Option-cases (split_at match_prep_prefix s)) [
  | inl e ↦ let found = split_at-print_plain g s in ground arith
  | inr ((a, b), e) ↦ let found = split_at-print_plain g s in ground arith
]

cut_tokens-prose :
    (fuel : ℕ) (g : Plain) (s : String)
    → cut_tokens fuel (print_plain g <> s) ≡ print_plain g <> cut_tokens fuel s
unfolding cut_tokens
cut_tokens-prose zero g s = refl
cut_tokens-prose (suc fuel) g s = elim (Option-cases (cut_token s)) [
  | inl e ↦ let same = cut_token-prose-none g s e in ground arith
  | inr (shorter, e) ↦
      let step = cut_token-prose g s shorter e in
      let rest = cut_tokens-prose fuel g shorter in ground arith
]

cut_tokens-print_reply :
    (fuel : ℕ) (ps : List Piece) (tail : Plain)
    → length ps ≤ fuel
    → cut_tokens fuel (print_reply ps tail) ≡ prose_of ps tail
unfolding cut_tokens
cut_tokens-print_reply zero List.[] tail enough = refl
cut_tokens-print_reply (suc fuel) List.[] tail enough =
    let e = cut_token-print_plain tail in ground arith
cut_tokens-print_reply zero (List.◌∷◌ p ps) tail enough = ground arith
cut_tokens-print_reply (suc fuel) (List.◌∷◌ p ps) tail enough =
    let cut = cut_token-print_piece p (print_reply ps tail) in
    let prose = cut_tokens-prose fuel p.prose (print_reply ps tail) in
    let rest = cut_tokens-print_reply fuel ps tail (omega (arith, enough)) in ground arith

-- A reply of pieces of prose with a token [MATCH_PREP: {…}] after each but the last, where in the prose each [ is
-- followed, within its piece, by a character other than M and [, or by MATCH_ and a character other than P and [, and
-- in the token every string ends and the braces outside of the strings balance:
-- CleanMatchPrepTokens leaves the prose alone, trimmed.
pub clean_match_prep_tokens-print_reply :
    (ps : List Piece) (tail : Plain)
    → clean_match_prep_tokens (print_reply ps tail) ≡ trim_space (prose_of ps tail)
unfolding clean_match_prep_tokens
clean_match_prep_tokens-print_reply ps tail =
    ap trim_space
      (cut_tokens-print_reply (rune_count (print_reply ps tail)) ps tail (length-pieces ps tail))
