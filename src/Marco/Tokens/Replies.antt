-- ===== src/Marco/Tokens/Replies.antt =====
-- Replies that are written out as pieces of prose with tokens between them, and where the searches of
-- internal/marco/match_prep.go find the parts of a token in them.
use Prim.Native.Char.{Char, code}
use Prim.Native.String.{[], ◌∷◌}
use marco_api.Base.{
  ◌≤◌, ◌<◌, ◌≡◌, ◌≢◌, refl, ap, ◌∙◌, arith, String, none, some, List, length, has_prefix, ◌<>◌,
  Option-cases, inl, inr,
}
use marco_api.Marco.Braces.{
  rune_count, split_at, match_prep_prefix, find_match_prep_payload, prepend,
}
use marco_api.Marco.Braces.Cutting.{rune_count-append}
use marco_api.Marco.Braces.Objects.{Body, print_body, balanced_braces-print_body, prepend-nil}

-- Prose in which each [ is followed by a character other than M and [, or by MATCH_ and a character other than P
-- and [: the other tokens of a reply may stand in it, but nothing that could begin a MATCH_PREP token.
pub data Plain : Type 0 where
  empty : Plain
  char : (ch : Char) → code ch ≢ b'[' → Plain → Plain
  bracket : (ch : Char) → code ch ≢ b'M' → code ch ≢ b'[' → Plain → Plain
  match_bracket : (ch : Char) → code ch ≢ b'P' → code ch ≢ b'[' → Plain → Plain

abbrev pub print_plain : Plain → String
print_plain empty = []
print_plain (char ch _ g) = ch ∷ print_plain g
print_plain (bracket ch _ _ g) = "[" ∷ ch ∷ print_plain g
print_plain (match_bracket ch _ _ g) = "[" ∷ "M" ∷ "A" ∷ "T" ∷ "C" ∷ "H" ∷ "_" ∷ ch ∷ print_plain g

-- Prose, then the token [MATCH_PREP: {…}] with the object of the body, one blank before it and none after.
pub record Piece : Type 0 where
  pub prose : Plain
  pub body : Body

abbrev pub payload : Piece → String
payload p = "{" <> (print_body p.body <> "}")

abbrev pub print_piece : Piece → String → String
print_piece p s =
    print_plain p.prose <> ("[MATCH_PREP: {" <> (print_body p.body <> ("}" <> ("]" <> s))))

abbrev pub print_reply : List Piece → Plain → String
print_reply List.[] tail = print_plain tail
print_reply (List.◌∷◌ p ps) tail = print_piece p (print_reply ps tail)

-- The prose alone.
abbrev pub prose_of : List Piece → Plain → String
prose_of List.[] tail = print_plain tail
prose_of (List.◌∷◌ p ps) tail = print_plain p.prose <> prose_of ps tail

pub split_at-print_plain :
    (g : Plain) (s : String)
    → split_at match_prep_prefix (print_plain g <> s)
      ≡ prepend (print_plain g) (split_at match_prep_prefix s)
unfolding split_at has_prefix
split_at-print_plain empty s = prepend-nil (split_at match_prep_prefix s)
split_at-print_plain (char ch h g) s = let rest = split_at-print_plain g s in ground arith
split_at-print_plain (bracket ch h k g) s = let rest = split_at-print_plain g s in ground arith
split_at-print_plain (match_bracket ch h k g) s =
    let rest = split_at-print_plain g s in ground arith

unfoldable pub token : Body → String → String
token b s = "[MATCH_PREP: {" <> (print_body b <> ("}" <> ("]" <> s)))

-- What the searches find in a token.
split_at-token :
    (b : Body) (s : String) → split_at match_prep_prefix (token b s) ≡ some ([], token b s)
unfolding split_at has_prefix token
split_at-token b s = refl

pub object-token :
    (b : Body) (s : String)
    → split_at "{" (token b s)
      ≡ some ("[MATCH_PREP: ", "{" <> (print_body b <> ("}" <> ("]" <> s))))
unfolding split_at has_prefix token
object-token b s = refl

pub split_at-plain : (g : Plain) → split_at match_prep_prefix (print_plain g) ≡ none
unfolding split_at has_prefix
split_at-plain empty = refl
split_at-plain (char ch h g) = let rest = split_at-plain g in ground arith
split_at-plain (bracket ch h k g) = let rest = split_at-plain g in ground arith
split_at-plain (match_bracket ch h k g) = let rest = split_at-plain g in ground arith

pub split_at-prose :
    (g : Plain) (b : Body) (s : String)
    → split_at match_prep_prefix (print_plain g <> token b s)
      ≡ some (print_plain g <> [], token b s)
split_at-prose g b s =
    split_at-print_plain g (token b s) ∙ ap (prepend (print_plain g)) (split_at-token b s)

pub find_match_prep_payload-print_piece :
    (p : Piece) (s : String)
    → find_match_prep_payload (print_piece p s) ≡ some (payload p, "]" <> s)
unfolding find_match_prep_payload token
find_match_prep_payload-print_piece p s =
    let prose = split_at-prose p.prose p.body s in
    let object = object-token p.body s in
    let closed = balanced_braces-print_body p.body ("]" <> s) in ground arith

pub find_match_prep_payload-bracket :
    (s : String) → find_match_prep_payload ("]" <> s) ≡ find_match_prep_payload s
unfolding find_match_prep_payload split_at has_prefix
find_match_prep_payload-bracket s = elim (Option-cases (split_at match_prep_prefix s)) [
  | inl e ↦ ground arith
  | inr ((a, b), e) ↦ ground arith
]

pub find_match_prep_payload-print_plain :
    (g : Plain) → find_match_prep_payload (print_plain g) ≡ none
unfolding find_match_prep_payload split_at has_prefix
find_match_prep_payload-print_plain g = let e = split_at-plain g in ground arith

pub rune_count-print_piece : (p : Piece) (s : String) → rune_count s < rune_count (print_piece p s)
unfolding token
rune_count-print_piece p s =
    let prose = rune_count-append (print_plain p.prose) (token p.body s) in
    let body = rune_count-append (print_body p.body) ("}" <> ("]" <> s)) in
    omega (arith, prose, body)

pub length-pieces : (ps : List Piece) (tail : Plain) → length ps ≤ rune_count (print_reply ps tail)
length-pieces List.[] tail = omega arith
length-pieces (List.◌∷◌ p ps) tail =
    omega (arith, rune_count-print_piece p (print_reply ps tail), length-pieces ps tail)
