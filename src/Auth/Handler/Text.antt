-- ===== src/Auth/Handler/Text.antt =====
-- The checks of texts in internal/auth: normalizeEmail, emailRE and validatePassword of handler.go,
-- and the device headers of sessions.go.
use Prim.Native.Char.{Char, code}
use Prim.Native.String.{[], ◌∷◌}
use marco_api.Base.{
  ℕ, zero, suc, String, len, count, Bool, true, false, ◌&&◌, ◌||◌, ◌==◌, leb, ltb, not,
  if◌then◌else◌, trim_space,
}
use marco_api.Base.Db.{Result, ok, err}
use marco_api.Auth.{Crypto, DeviceInfo}

map_chars : (Char → Char) → String → String
map_chars f [] = []
map_chars f (ch ∷ s) = f ch ∷ map_chars f s

-- \s of Go's regexp: [\t\n\f\r ].
abbrev is_blank : ℕ → Bool
is_blank ch = ch == 9 || ch == 10 || ch == 12 || ch == 13 || ch == 32

-- A character of the class [^@\s].
abbrev is_plain : ℕ → Bool
is_plain ch = not (ch == b'@') && not (is_blank ch)

-- [^@\s]* to the end.
all_plain : String → Bool
all_plain [] = true
all_plain (ch ∷ s) = is_plain (code ch) && all_plain s

-- [^@\s]+ to the end.
some_plain : String → Bool
unfolding all_plain
some_plain [] = false
some_plain (ch ∷ s) = is_plain (code ch) && all_plain s

-- [^@\s]*\.[^@\s]+ to the end, after at least one character of the domain.
dotted : String → Bool
unfolding some_plain
dotted [] = false
dotted (ch ∷ s) = (code ch == b'.' && some_plain s) || (is_plain (code ch) && dotted s)

domain : String → Bool
unfolding dotted
domain [] = false
domain (ch ∷ s) = is_plain (code ch) && dotted s

-- [^@\s]*@ and the domain, after at least one character.
local_rest : String → Bool
unfolding domain
local_rest [] = false
local_rest (ch ∷ s) = if code ch == b'@' then domain s else (is_plain (code ch) && local_rest s)

-- emailRE.MatchString: ^[^@\s]+@[^@\s]+\.[^@\s]+$
unfoldable pub is_email : String → Bool
unfolding local_rest
is_email [] = false
is_email (ch ∷ s) = is_plain (code ch) && local_rest s

-- strings.Map over the characters that are no control characters.
drop_controls : String → String
drop_controls [] = []
drop_controls (ch ∷ s) =
    let rest = drop_controls s in if ltb (code ch) 0x20 || code ch == 0x7F then rest else ch ∷ rest

take_chars : ℕ → String → String
take_chars zero s = []
take_chars (suc n) [] = []
take_chars (suc n) (ch ∷ s) = ch ∷ take_chars n s

unfoldable pub clamp_header : String → ℕ → String
unfolding drop_controls take_chars
clamp_header v max_len =
    let w = drop_controls (trim_space v) in
    if leb (count w) max_len then w else take_chars max_len w

-- X-Device-Name, X-Device-Platform and X-App-Version.
pub record RequestHeaders : Type 0 where
  pub device_name : String
  pub device_platform : String
  pub app_version : String

unfoldable pub device_info_from : RequestHeaders → DeviceInfo
unfolding clamp_header
device_info_from h = record {
  device_name = clamp_header h.device_name 120;
  platform = clamp_header h.device_platform 60;
  app_version = clamp_header h.app_version 40;
}

any_char : (Char → Bool) → String → Bool
any_char p [] = false
any_char p (ch ∷ s) = p ch || any_char p s

unfoldable pub normalize_email : Crypto → String → String
unfolding map_chars
normalize_email c email = map_chars c.lower (trim_space email)

unfoldable pub validate_password : Crypto → String → Result String (Unit {0})
unfolding any_char
validate_password c p =
    if ltb (len p) 8
    then err "password must be at least 8 characters"
    else if ltb 72 (len p)
    then err "password must be at most 72 characters"
    else if not (any_char c.is_digit p)
    then err "password must contain at least one number"
    else ok tt
