-- ===== src/Marco/Braces/Objects.antt =====
-- balancedBraces of internal/marco/match_prep.go against the texts of objects.
use Prim.Native.Char.{Char, code}
use Prim.Native.String.{[], ◌∷◌}
use marco_api.Base.{
  ℕ, suc, ◌≡◌, ◌≢◌, refl, arith, String, true, false, Option, none, some, ◌<>◌, <>_assoc,
}
use marco_api.Marco.Braces.{scan_braces, balanced_braces, prepend}

-- The rest of a JSON string literal, its closing quote included; a backslash takes the next character.
pub data Literal : Type 0 where
  close : Literal
  plain : (ch : Char) → code ch ≢ b'"' → code ch ≢ b'\\' → Literal → Literal
  escaped : Char → Literal → Literal

-- What stands between the braces of an object: other characters, literals and objects.
pub data Body : Type 0 where
  empty : Body
  other : (ch : Char) → code ch ≢ b'"' → code ch ≢ b'{' → code ch ≢ b'}' → Body → Body
  literal : Literal → Body → Body
  object : Body → Body → Body

abbrev pub print_literal : Literal → String
print_literal close = "\""
print_literal (plain ch _ _ l) = ch ∷ print_literal l
print_literal (escaped ch l) = "\\" <> (ch ∷ print_literal l)

abbrev pub print_body : Body → String
print_body empty = []
print_body (other ch _ _ _ b) = ch ∷ print_body b
print_body (literal l b) = "\"" <> (print_literal l <> print_body b)
print_body (object b c) = "{" <> (print_body b <> ("}" <> print_body c))

scan-literal :
    (d : ℕ) (l : Literal) (s : String)
    → scan_braces d true false (print_literal l <> s)
      ≡ prepend (print_literal l) (scan_braces d false false s)
unfolding scan_braces
scan-literal d close s = ground arith
scan-literal d (plain ch h k l) s = let rest = scan-literal d l s in ground arith
scan-literal d (escaped ch l) s = let rest = scan-literal d l s in ground arith

prepend-append :
    (s t : String) (o : Option (String × String)) → prepend (s <> t) o ≡ prepend s (prepend t o)
prepend-append s t none = refl
prepend-append s t (some (a, b)) = rw (<>_assoc s t a)

pub prepend-nil : (o : Option (String × String)) → o ≡ prepend "" o
prepend-nil none = refl
prepend-nil (some (a, b)) = refl

scan-body :
    (d : ℕ) (b : Body) (s : String)
    → scan_braces (suc d) false false (print_body b <> s)
      ≡ prepend (print_body b) (scan_braces (suc d) false false s)
unfolding scan_braces
scan-body d empty s = prepend-nil (scan_braces (suc d) false false s)
scan-body d (other ch h k l b) s = let rest = scan-body d b s in ground arith
scan-body d (literal l b) s =
    let rest = scan-body d b s in
    let inner = scan-literal (suc d) l (print_body b <> s) in
    let joined =
      prepend-append (print_literal l) (print_body b) (scan_braces (suc d) false false s) in
    let text = <>_assoc (print_literal l) (print_body b) s in ground arith
scan-body d (object b c) s =
    let rest = scan-body d c s in
    let inner = scan-body (suc d) b ("}" <> (print_body c <> s)) in
    let joined =
      prepend-append (print_body b) ("}" <> print_body c) (scan_braces (suc d) false false s) in
    let text = <>_assoc (print_body b) ("}" <> print_body c) s in ground arith

-- balancedBraces finds the end of any object, whatever follows it.
pub balanced_braces-print_body :
    (b : Body) (rest : String)
    → balanced_braces ("{" <> (print_body b <> ("}" <> rest)))
      ≡ some ("{" <> (print_body b <> "}"), rest)
unfolding balanced_braces scan_braces
balanced_braces-print_body b rest = let inner = scan-body 0 b ("}" <> rest) in ground arith
