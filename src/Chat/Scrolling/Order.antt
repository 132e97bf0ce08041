-- ===== src/Chat/Scrolling/Order.antt =====
-- The query of GetHistory of internal/chat/store.go: its order, its filter and its limit.
use marco_api.Base.{
  ℕ, zero, suc, ◌≤◌, ◌≡◌, refl, ap, arith, Bool, true, false, Option, none, some, List, [], ◌∷◌,
  map, ◌&&◌, ltb, length, take, drop, Time, keep, order_by, insert_in, All, Bool-cases, inl, inr,
}
use marco_api.Chat.{MessageRow, cut_page, cut_before}
use marco_api.Chat.Store.{is_before, before_message}
use marco_api.Chat.Paging.{IsDescending}

module _ {ℓ} {A : Type ℓ} where
  pub keep-and : (p q : A → Bool) (xs : List A) → keep (λ x. p x && q x) xs ≡ keep q (keep p xs)
  unfolding keep
  keep-and p q [] = refl
  keep-and p q (x ∷ xs) = let rest = keep-and p q xs in ground arith

  drop-take : (n : ℕ) (xs : List A) → drop n (take (suc n) xs) ≡ take 1 (drop n xs)
  unfolding take drop
  drop-take zero [] = refl
  drop-take zero (x ∷ xs) = refl
  drop-take (suc n) [] = refl
  drop-take (suc n) (x ∷ xs) = drop-take n xs

  take-take : (n : ℕ) (xs : List A) → take n (take (suc n) xs) ≡ take n xs
  unfolding take
  take-take zero xs = refl
  take-take (suc n) [] = refl
  take-take (suc n) (x ∷ xs) = ap {B = List A} (λ l. x ∷ l) (take-take n xs)

  longer-take : (n : ℕ) (xs : List A) → ltb n (length (take (suc n) xs)) ≡ ltb n (length xs)
  unfolding take
  longer-take zero [] = refl
  longer-take zero (x ∷ xs) = ground arith
  longer-take (suc n) [] = ground arith
  longer-take (suc n) (x ∷ xs) = let rest = longer-take n xs in ground arith

  take-all : (n : ℕ) (xs : List A) → length xs ≤ n → take (suc n) xs ≡ xs
  unfolding take
  take-all n [] h = refl
  take-all zero (x ∷ xs) h = ground arith
  take-all (suc n) (x ∷ xs) h = ap {B = List A} (λ l. x ∷ l) (take-all n xs (omega (arith, h)))

cut_before-take :
    {A : Type 0} (key : A → Time) (page rest : List A)
    → cut_before key page (take 1 rest) ≡ cut_before key page rest
unfolding take
cut_before-take key page [] = refl
cut_before-take key page (x ∷ rest) = refl

-- One message past the limit decides the page as all of them would.
pub cut_page-take :
    {A : Type 0} (key : A → Time) (limit : ℕ) (xs : List A)
    → cut_page key limit (take (suc limit) xs) ≡ cut_page key limit xs
unfolding cut_page
cut_page-take key limit xs = elim (Bool-cases (ltb limit (length xs))) [
  | inl e ↦
      let same = longer-take limit xs in
      let page = take-take limit xs in
      let next = drop-take limit xs in
      let cut = cut_before-take key (take limit xs) (drop limit xs) in ground arith
  | inr e ↦ let whole = take-all limit xs (ground arith) in ap (cut_page key limit) whole
]

pub map-take :
    {A B : Type 0} (f : A → B) (n : ℕ) (xs : List A) → map f (take n xs) ≡ take n (map f xs)
unfolding take
map-take f zero xs = refl
map-take f (suc n) [] = refl
map-take f (suc n) (x ∷ xs) = ap (λ l. f x ∷ l) (map-take f n xs)

pub map-keep :
    {A B : Type 0} (f : A → B) (p : B → Bool) (xs : List A)
    → map f (keep (λ x. p (f x)) xs) ≡ keep p (map f xs)
unfolding keep
map-keep f p [] = refl
map-keep f p (x ∷ xs) = let rest = map-keep f p xs in ground arith

-- The order of the query goes down in time, and filtering by time goes past it.
keep-insert_in :
    (t : Option Time) (x : MessageRow) (ys : List MessageRow)
    → is_before t x.created_at ≡ true
    → keep (λ m. is_before t m.created_at) (insert_in before_message x ys)
      ≡ insert_in before_message x (keep (λ m. is_before t m.created_at) ys)
unfolding keep insert_in
keep-insert_in t x [] h = ground arith
keep-insert_in none x (y ∷ ys) h = let rest = keep-insert_in none x ys h in ground arith
keep-insert_in (some b) x (y ∷ ys) h = let rest = keep-insert_in (some b) x ys h in ground arith

keep-insert_in-out :
    (t : Option Time) (x : MessageRow) (ys : List MessageRow)
    → is_before t x.created_at ≡ false
    → keep (λ m. is_before t m.created_at) (insert_in before_message x ys)
      ≡ keep (λ m. is_before t m.created_at) ys
unfolding keep insert_in
keep-insert_in-out t x [] h = ground arith
keep-insert_in-out t x (y ∷ ys) h = let rest = keep-insert_in-out t x ys h in ground arith

pub keep-order_by :
    (t : Option Time) (xs : List MessageRow)
    → order_by before_message (keep (λ m. is_before t m.created_at) xs)
      ≡ keep (λ m. is_before t m.created_at) (order_by before_message xs)
unfolding keep order_by
keep-order_by t [] = refl
keep-order_by t (x ∷ xs) =
    let rest = keep-order_by t xs in
    elim (Bool-cases (is_before t x.created_at)) [
      | inl e ↦ let placed = keep-insert_in t x (order_by before_message xs) e in ground arith
      | inr e ↦ let placed = keep-insert_in-out t x (order_by before_message xs) e in ground arith
    ]

abbrev pub time_of : MessageRow → Time
time_of m = m.created_at

before_message-le : (x y : MessageRow) → before_message x y ≡ true → y.created_at ≤ x.created_at
before_message-le x y e = ground arith

not-before_message-le :
    (x y : MessageRow) → before_message x y ≡ false → x.created_at ≤ y.created_at
not-before_message-le x y e = ground arith

insert_in-top :
    (t : Time) (x : MessageRow) (ys : List MessageRow)
    → x.created_at ≤ t
    → All (λ (y : MessageRow). y.created_at ≤ t) ys
    → All (λ (y : MessageRow). y.created_at ≤ t) (insert_in before_message x ys)
unfolding insert_in
insert_in-top t x [] le h = (le, tt)
insert_in-top t x (y ∷ ys) le (k, h) = elim (Bool-cases (before_message x y)) [
  | inl e ↦ rw e (le, (k, h))
  | inr e ↦ rw e (k, insert_in-top t x ys le h)
]

before-lower :
    (t : Time) (ys : List MessageRow) (u : Time)
    → t ≤ u
    → All (λ (z : MessageRow). z.created_at ≤ t) ys
    → All (λ (z : MessageRow). z.created_at ≤ u) ys
before-lower t [] u le h = tt
before-lower t (z ∷ ys) u le (k, h) = (omega (arith, le, k), before-lower t ys u le h)

insert_in-IsDescending :
    (x : MessageRow) (ys : List MessageRow)
    → IsDescending time_of ys
    → IsDescending time_of (insert_in before_message x ys)
unfolding insert_in
insert_in-IsDescending x [] d = (tt, tt)
insert_in-IsDescending x (y ∷ ys) (top, d) = elim (Bool-cases (before_message x y)) [
  | inl e ↦
      let le = before_message-le x y e in
      rw e ((le, before-lower y.created_at ys x.created_at le top), (top, d))
  | inr e ↦ rw e (
    insert_in-top y.created_at x ys (not-before_message-le x y e) top,
    insert_in-IsDescending x ys d,
  )
]

pub order_by-IsDescending :
    (xs : List MessageRow) → IsDescending time_of (order_by before_message xs)
unfolding order_by
order_by-IsDescending [] = tt
order_by-IsDescending (x ∷ xs) =
    insert_in-IsDescending x (order_by before_message xs) (order_by-IsDescending xs)
