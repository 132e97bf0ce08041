-- ===== src/Chat/Paging/Step.antt =====
-- One page of a history: what it takes, and where the next request begins.
use mathlib.Core.List.{append-nil}
use mathlib.Core.Path.{subst}
use marco_api.Base.{
  ℕ, zero, suc, ◌+◌, ◌≤◌, ◌<◌, ◌≡◌, ◌≢◌, ◌⊎◌, refl, ap, sym, ◌∙◌, arith, Bool, true, false, List,
  [], ◌∷◌, ◌++◌, reverse, ◌==◌, ltb, not, length, length-append, take, drop, if◌then◌else◌, Time,
  keep, count_where, All, Bool-cases, inl, inr,
}
use marco_api.Chat.{drop_trailing, cut_page}
use marco_api.Chat.Paging.{
  IsDescending, newer, older, keep-none-newer, keep-none-older, drop_trailing-keep, take-drop,
  keep-split, keep-append, Descending-left, Descending-tops, last_of, reverse_aux-last_of,
  last_of-oldest, All-last_of,
}

module _ {A : Type 0} (key : A → Time) where
  -- The page of a full history, its oldest message, and the messages that a request before that one meets.
  pub record Step (limit : ℕ) (ms : List A) : Type 0 where
    pub page : List A
    pub oldest : A
    pub others : List A
    pub cut : cut_page key limit ms ≡ (page, true)
    pub ascending : reverse page ≡ oldest ∷ others
    pub covers : ms ≡ page ++ keep (older key (key oldest)) ms
    pub shorter : length (keep (older key (key oldest)) ms) < length ms
    pub inside : (t : Time) → All (λ m. key m < t) ms → key oldest < t

  List-cases : (xs : List A) → (xs ≡ []) ⊎ ((x : A) × (ys : List A) × (xs ≡ x ∷ ys))
  List-cases [] = inl refl
  List-cases (x ∷ xs) = inr (x, xs, refl)

  drop-cons : (n : ℕ) (xs : List A) → n < length xs → (b : A) × (r : List A) × (drop n xs ≡ b ∷ r)
  unfolding drop
  drop-cons n [] h = ground arith
  drop-cons zero (x ∷ xs) h = (x, xs, refl)
  drop-cons (suc n) (x ∷ xs) h = drop-cons n xs (omega (arith, h))

  length-take : (n : ℕ) (xs : List A) → n < length xs → length (take n xs) ≡ n
  unfolding take
  length-take n [] h = ground arith
  length-take zero (x ∷ xs) h = refl
  length-take (suc n) (x ∷ xs) h = omega (arith, length-take n xs (omega (arith, h)))

  count-all :
      (t : Time) (xs : List A)
      → All (λ y. t ≤ key y) xs
      → keep (newer key t) xs ≡ []
      → count_where (λ x. key x == t) xs ≡ length xs
  unfolding count_where keep
  count-all t [] h e = refl
  count-all t (x ∷ xs) (le, h) e = elim (Bool-cases (ltb t (key x))) [
    | inl k ↦ ground arith
    | inr k ↦ let rest = count-all t xs h (ground arith) in ground arith
  ]

  count-append :
      (p : A → Bool) (xs ys : List A)
      → count_where p (xs ++ ys) ≡ count_where p xs + count_where p ys
  unfolding count_where
  count-append p [] ys = omega arith
  count-append p (x ∷ xs) ys = let rest = count-append p xs ys in ground arith

  All-if :
      (P : A → Type 0) (b : Bool) (x : A) (rest : List A)
      → (b ≡ true → P x)
      → All P rest
      → All P (if b then x ∷ rest else rest)
  All-if P true x rest k h = (k refl, h)
  All-if P false x rest k h = h

  pub All-keep :
      (P : A → Type 0) (p : A → Bool)
      → ((x : A) → p x ≡ true → P x)
      → (xs : List A) → All P (keep p xs)
  unfolding keep
  All-keep P p f [] = tt
  All-keep P p f (x ∷ xs) = All-if P (p x) x (keep p xs) (f x) (All-keep P p f xs)

  All-newer : (t : Time) (xs : List A) → All (λ y. t < key y) (keep (newer key t) xs)
  All-newer t = All-keep (λ y. t < key y) (newer key t) (λ x e. ground arith)

  All-rest : (t : Time) (xs : List A) → All (λ y. key y ≤ t) (keep (λ x. not (newer key t x)) xs)
  All-rest t = All-keep (λ y. key y ≤ t) (λ x. not (newer key t x)) (λ x e. ground arith)

  All-keep-of : (P : A → Type 0) (p : A → Bool) (xs : List A) → All P xs → All P (keep p xs)
  unfolding keep
  All-keep-of P p [] h = tt
  All-keep-of P p (x ∷ xs) (k, h) = All-if P (p x) x (keep p xs) (λ e. k) (All-keep-of P p xs h)

  Descending-if :
      (b : Bool) (x : A) (rest : List A)
      → All (λ y. key y ≤ key x) rest
      → IsDescending key rest
      → IsDescending key (if b then x ∷ rest else rest)
  Descending-if true x rest top d = (top, d)
  Descending-if false x rest top d = d

  pub Descending-keep :
      (p : A → Bool) (xs : List A) → IsDescending key xs → IsDescending key (keep p xs)
  unfolding keep
  Descending-keep p [] d = tt
  Descending-keep p (x ∷ xs) (top, d) =
      Descending-if (p x) x (keep p xs) (All-keep-of (λ y. key y ≤ key x) p xs top)
        (Descending-keep p xs d)

  keep-older :
      (t u : Time) (xs : List A) → t < u → All (λ y. key y ≤ t) xs → keep (older key u) xs ≡ xs
  unfolding keep
  keep-older t u [] lt h = refl
  keep-older t u (x ∷ xs) lt (le, h) = let rest = keep-older t u xs lt h in ground arith

  All-left : (P : A → Type 0) (xs ys : List A) → All P (xs ++ ys) → All P xs
  All-left P [] ys h = tt
  All-left P (x ∷ xs) ys (k, h) = (k, All-left P xs ys h)

  count-head : (b : A) (r : List A) → 1 ≤ count_where (λ x. key x == key b) (b ∷ r)
  unfolding count_where
  count-head b r = ground arith

  -- A page that would be empty holds a whole instant, and one message more than the limit.
  page-filled :
      (limit : ℕ) (top : List A) (b : A) (r : List A)
      → length top ≡ limit
      → All (λ y. key b ≤ key y) top
      → count_where (λ x. key x == key b) (top ++ b ∷ r) ≤ limit
      → keep (newer key (key b)) top ≢ []
  page-filled limit top b r size low few e =
      let all = count-all (key b) top low e in
      let sum = count-append (λ x. key x == key b) top (b ∷ r) in
      let one = count-head b r in omega (arith, all, sum, one, size, few)

  cut_page-keep :
      (limit : ℕ) (ms : List A) (b : A) (r : List A) (p : A) (ps : List A)
      → limit < length ms
      → drop limit ms ≡ b ∷ r
      → drop_trailing key (key b) (take limit ms) ≡ p ∷ ps
      → cut_page key limit ms ≡ (p ∷ ps, true)
  unfolding cut_page
  cut_page-keep limit ms b r p ps more next kept = ground arith

  -- What comes after the newer messages is what the next request meets.
  keep-older-rest :
      (t : Time) (ms : List A) (p : A) (ps : List A)
      → IsDescending key ms
      → keep (newer key t) ms ≡ p ∷ ps
      → ms ≡ (p ∷ ps) ++ keep (older key (key (last_of key p ps))) ms
  keep-older-rest t ms p ps d e =
      let rest = keep (λ x. not (newer key t x)) ms in
      let u = key (last_of key p ps) in
      let split = ap (λ l. l ++ rest) (sym e) ∙ keep-split key t ms d in
      let low =
        last_of-oldest key p ps
          (Descending-left key (p ∷ ps) rest (subst (IsDescending key) (sym split) d)) in
      let later =
        All-last_of key (λ y. t < key y) p ps (subst (All (λ y. t < key y)) e (All-newer t ms)) in
      let met =
        ap (keep (older key u)) (sym split)
        ∙ keep-append key (older key u) (p ∷ ps) rest
        ∙ ap (λ l. l ++ keep (older key u) rest) (keep-none-older key u (p ∷ ps) low)
        ∙ keep-older t u rest later (All-rest t ms) in
      sym split ∙ ap (λ l. (p ∷ ps) ++ l) (sym met)

  Step-of :
      (limit : ℕ) (ms : List A) (p : A) (ps : List A)
      → cut_page key limit ms ≡ (p ∷ ps, true)
      → ms ≡ (p ∷ ps) ++ keep (older key (key (last_of key p ps))) ms
      → Step limit ms
  Step-of limit ms p ps cut covers =
      let (others, ascending) = reverse_aux-last_of key p ps [] in
      let sizes =
        ap length covers ∙ length-append (p ∷ ps) (keep (older key (key (last_of key p ps))) ms) in
      record {
        page = p ∷ ps;
        oldest = last_of key p ps;
        others = others;
        cut = cut;
        ascending = ascending;
        covers = covers;
        shorter = omega (arith, sizes);
        inside = λ t h.
            All-last_of key (λ m. key m < t) p ps
              (All-left (λ m. key m < t) (p ∷ ps) _ (subst (All (λ m. key m < t)) covers h));
      }

  -- Messages in descending order, more of them than the limit, and no more than the limit of one instant.
  pub step :
      (limit : ℕ) (ms : List A)
      → IsDescending key ms
      → limit < length ms
      → ((t : Time) → count_where (λ m. key m == t) ms ≤ limit)
      → Step limit ms
  step limit ms d more few =
      let (b, r, next) = drop-cons limit ms more in
      let top = take limit ms in
      let halves = ap (λ l. top ++ l) (sym next) ∙ take-drop key limit ms in
      let d' = subst (IsDescending key) (sym halves) d in
      let (low, high) = Descending-tops key top b r d' in
      let dropped = drop_trailing-keep key (key b) top (Descending-left key top (b ∷ r) d') low in
      let newest =
        ap (keep (newer key (key b))) (sym halves)
        ∙ keep-append key (newer key (key b)) top (b ∷ r)
        ∙ ap (λ l. keep (newer key (key b)) top ++ l) (keep-none-newer key (key b) (b ∷ r) high)
        ∙ append-nil (keep (newer key (key b)) top) in
      let filled =
        page-filled limit top b r (length-take limit ms more) low
          (subst (λ l. count_where (λ m. key m == key b) l ≤ limit) (sym halves) (few (key b))) in
      elim (List-cases (keep (newer key (key b)) top)) [
        | inl none_left ↦ absurd (filled none_left)
        | inr (p, ps, e) ↦
            Step-of limit ms p ps (cut_page-keep limit ms b r p ps more next (dropped ∙ e))
              (keep-older-rest (key b) ms p ps d (newest ∙ e))
      ]
