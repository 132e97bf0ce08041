-- ===== src/MatchPreparation/Validation/Bounds.antt =====
-- What the checks of internal/match_preparation/handler.go let through.
use marco_api.Base.{
  ℕ, suc, ◌≤◌, ◌≡◌, refl, arith, String, len, Bool, true, false, Option, none, some, List, [], ◌∷◌,
  All, ltb, length, str_eq, trim_space, trim_space-trim_space, if◌then◌else◌, Time,
}
use mathlib.Core.Path.{subst}
use marco_api.Base.Db.{Result, ok, err}
use marco_api.MatchPreparation.Validation.{
  DrillRequest, DrillInput, CreateRequest, Checked, trim_opponents, clean_opponents, validate_drill,
  validate_each, validate_drills, optional_text, validate_create,
}

-- A text that is not blank, neither begins nor ends with a space, and has at most `limit` bytes.
pub record IsText (limit : ℕ) (text : String) : Type 0 where
  pub filled : str_eq text "" ≡ false
  pub trimmed : trim_space text ≡ text
  pub short : len text ≤ limit

abbrev pub IsOptionalText : ℕ → Option String → Type 0
IsOptionalText limit none = Unit
IsOptionalText limit (some text) = IsText limit text

pub record IsDrill (d : DrillInput) : Type 0 where
  pub title : IsText 200 d.title
  pub duration : d.duration_seconds ≤ 7200

pub record IsQueue (drills : List DrillInput) : Type 0 where
  pub each : All IsDrill drills
  pub few : length drills ≤ 20

pub record IsChecked (c : Checked) : Type 0 where
  pub opponents : All (IsText 100) c.opponents
  pub three : length c.opponents ≤ 3
  pub partner_name : IsOptionalText 100 c.partner_name
  pub court : IsOptionalText 50 c.court
  pub note : IsOptionalText 200 c.note
  pub drills : IsQueue c.drills

-- What a check lets through has a property.
abbrev Yields {ℓ} : {A : Type ℓ} → (A → Type 0) → Result String A → Type 0
Yields P (err e) = Unit
Yields P (ok a) = P a

Yields-ok {ℓ} :
    {A : Type ℓ} (P : A → Type 0) {r : Result String A} {a : A} → Yields P r → r ≡ ok a → P a
Yields-ok P y h = subst (Yields P) h y

next_opponent-Yields :
    (name e : String) (blank long : Bool) (rest : Result String (List String))
    → (blank ≡ false → long ≡ false → IsText 100 name)
    → Yields (All (IsText 100)) rest
    → Yields (All (IsText 100)) (
        if blank
        then rest
        else if long
        then err e
        else elim rest [ err e ↦ err e | ok out ↦ ok (name ∷ out) ])
next_opponent-Yields name e true long rest k y = y
next_opponent-Yields name e false true rest k y = tt
next_opponent-Yields name e false false (err _) k y = tt
next_opponent-Yields name e false false (ok out) k y = (k refl refl, y)

IsText-fits :
    (limit : ℕ) (text : String)
    → str_eq (trim_space text) "" ≡ false
    → ltb limit (len (trim_space text)) ≡ false
    → IsText limit (trim_space text)
IsText-fits limit text filled short = record {
  filled = filled;
  trimmed = trim_space-trim_space text;
  short = ground arith;
}

trim_opponents-Yields : (names : List String) → Yields (All (IsText 100)) (trim_opponents names)
unfolding trim_opponents
trim_opponents-Yields [] = tt
trim_opponents-Yields (name ∷ names) =
    next_opponent-Yields (trim_space name) "opponent name must be 100 characters or fewer"
      (str_eq (trim_space name) "") (ltb 100 (len (trim_space name))) (trim_opponents names)
      (IsText-fits 100 name) (trim_opponents-Yields names)

pub clean_opponents-trim :
    (names out : List String)
    → clean_opponents names ≡ ok out
    → (trim_opponents names ≡ ok out) × (length out ≤ 3)
unfolding clean_opponents
clean_opponents-trim names out h = ground arith

IsOptionalText-cases :
    (limit : ℕ) (text message : String) (blank long : Bool)
    → (blank ≡ false → long ≡ false → IsText limit text)
    → Yields
        (IsOptionalText limit)
        (if blank then ok none else if long then err message else ok (some text))
IsOptionalText-cases limit text message true long k = tt
IsOptionalText-cases limit text message false true k = tt
IsOptionalText-cases limit text message false false k = k refl refl

optional_text-Yields :
    (limit : ℕ) (message : String) (text : Option String)
    → Yields (IsOptionalText limit) (optional_text limit message text)
unfolding optional_text
optional_text-Yields limit message none = tt
optional_text-Yields limit message (some text) =
    IsOptionalText-cases limit (trim_space text) message (str_eq (trim_space text) "")
      (ltb limit (len (trim_space text))) (IsText-fits limit text)

validate_drill-IsDrill :
    (i : ℕ) (d : DrillRequest) (out : DrillInput) → validate_drill i d ≡ ok out → IsDrill out
unfolding validate_drill
validate_drill-IsDrill i d out h =
    let trimmed : out.title ≡ trim_space d.title = ground arith in
    record {
      title = rw trimmed (IsText-fits 200 d.title (ground arith) (ground arith));
      duration = ground arith;
    }

validate_each-cons :
    (i : ℕ) (d : DrillRequest) (drills : List DrillRequest) (out : List DrillInput)
    → validate_each i (d ∷ drills) ≡ ok out
    → (input : DrillInput) × (rest : List DrillInput) × (validate_drill i d ≡ ok input)
      × (validate_each (suc i) drills ≡ ok rest)
      × (out ≡ input ∷ rest)
unfolding validate_each
validate_each-cons i d drills out h = ground arith

validate_each-nil : (i : ℕ) (out : List DrillInput) → validate_each i [] ≡ ok out → out ≡ []
unfolding validate_each
validate_each-nil i out h = ground arith

validate_each-IsDrill :
    (i : ℕ) (drills : List DrillRequest) (out : List DrillInput)
    → validate_each i drills ≡ ok out
    → All IsDrill out × (length out ≡ length drills)
validate_each-IsDrill i [] out h = rw (validate_each-nil i out h) (tt, refl)
validate_each-IsDrill i (d ∷ drills) out h =
    let (input, rest, first, others, e) = validate_each-cons i d drills out h in
    let (each, same) = validate_each-IsDrill (suc i) drills rest others in
    rw e ((validate_drill-IsDrill i d input first, each), omega (arith, same))

validate_drills-each :
    (drills : List DrillRequest) (out : List DrillInput)
    → validate_drills drills ≡ ok out
    → (validate_each 0 drills ≡ ok out) × (length drills ≤ 20)
unfolding validate_drills
validate_drills-each drills out h = ground arith

-- A queue that validateDrills lets through has at most 20 drills, each of at most 7200 seconds and with a title of 1
-- to 200 bytes that neither begins nor ends with a space.
pub validate_drills-IsQueue :
    (drills : List DrillRequest) (out : List DrillInput)
    → validate_drills drills ≡ ok out
    → IsQueue out
validate_drills-IsQueue drills out h =
    let (each, few) = validate_drills-each drills out h in
    let (good, same) = validate_each-IsDrill 0 drills out each in
    record { each = good; few = omega (arith, few, same) }

-- The parts of a body that was let through.
record Parts (parse_time : String → Option Time) (req : CreateRequest) (c : Checked) : Type 0 where
  opponents : clean_opponents req.opponents ≡ ok c.opponents
  partner_name :
      optional_text 100 "partner_name must be 100 characters or fewer" req.partner_name
      ≡ ok c.partner_name
  court : optional_text 50 "court must be 50 characters or fewer" req.court ≡ ok c.court
  note : optional_text 200 "note must be 200 characters or fewer" req.note ≡ ok c.note
  drills : validate_drills req.drills ≡ ok c.drills

validate_create-Parts :
    (parse_time : String → Option Time) (req : CreateRequest) (c : Checked)
    → validate_create parse_time req ≡ ok c
    → Parts parse_time req c
unfolding validate_create
validate_create-Parts parse_time req c h = record {
  opponents = ground arith;
  partner_name = ground arith;
  court = ground arith;
  note = ground arith;
  drills = ground arith;
}

-- A body that validateCreate lets through has at most three opponents, each named by 1 to 100 bytes, a partner
-- of at most 100 bytes, a court of at most 50 and a note of at most 200, each left out or not empty, and a
-- queue that validateDrills lets through. None of these texts begins or ends with a space, so none is blank.
pub validate_create-IsChecked :
    (parse_time : String → Option Time) (req : CreateRequest) (c : Checked)
    → validate_create parse_time req ≡ ok c
    → IsChecked c
validate_create-IsChecked parse_time req c h =
    let p = validate_create-Parts parse_time req c h in
    let (names, three) = clean_opponents-trim req.opponents c.opponents p.opponents in
    record {
      opponents = Yields-ok (All (IsText 100)) (trim_opponents-Yields req.opponents) names;
      three = three;
      partner_name =
          Yields-ok (IsOptionalText 100) (optional_text-Yields 100 _ req.partner_name)
            p.partner_name;
      court = Yields-ok (IsOptionalText 50) (optional_text-Yields 50 _ req.court) p.court;
      note = Yields-ok (IsOptionalText 200) (optional_text-Yields 200 _ req.note) p.note;
      drills = validate_drills-IsQueue req.drills c.drills p.drills;
    }
