-- ===== src/Chat/Paging.antt =====
-- The cut of a page at the end of GetHistory of internal/chat/store.go, on messages in descending order.
pub mod Step
use mathlib.Core.List.{reverse_aux}
use marco_api.Base.{
  ℕ, zero, suc, ◌+◌, ◌≤◌, ◌<◌, ◌≡◌, refl, ap, sym, ◌∙◌, arith, Bool, true, false, List, [], ◌∷◌,
  ◌++◌, reverse, ◌==◌, ◌&&◌, ltb, leb, not, length, length-append, take, drop, if◌then◌else◌, Time,
  keep, count_where, All, All-append, Bool-cases, inl, inr, ltb→lt,
}
use marco_api.Chat.{drop_trailing, unless_empty, cut_page}

module _ {A : Type 0} (key : A → Time) where
  abbrev pub IsDescending : List A → Type 0
  IsDescending [] = Unit
  IsDescending (x ∷ xs) = All (λ y. key y ≤ key x) xs × IsDescending xs

  abbrev pub newer : Time → A → Bool
  newer t x = ltb t (key x)

  abbrev pub older : Time → A → Bool
  older t x = ltb (key x) t

  pub keep-none-newer : (t : Time) (xs : List A) → All (λ y. key y ≤ t) xs → keep (newer t) xs ≡ []
  unfolding keep
  keep-none-newer t [] h = refl
  keep-none-newer t (x ∷ xs) (le, h) = let rest = keep-none-newer t xs h in ground arith

  pub keep-none-older : (t : Time) (xs : List A) → All (λ y. t ≤ key y) xs → keep (older t) xs ≡ []
  unfolding keep
  keep-none-older t [] h = refl
  keep-none-older t (x ∷ xs) (le, h) = let rest = keep-none-older t xs h in ground arith

  pub All-le :
      (t u : Time) (xs : List A) → t ≤ u → All (λ y. key y ≤ t) xs → All (λ y. key y ≤ u) xs
  All-le t u [] le h = tt
  All-le t u (x ∷ xs) le (k, h) = (omega (arith, le, k), All-le t u xs le h)

  -- Of messages that are not older than t, the trailing ones at t are dropped.
  pub drop_trailing-keep :
      (t : Time) (xs : List A)
      → IsDescending xs
      → All (λ y. t ≤ key y) xs
      → drop_trailing key t xs ≡ keep (newer t) xs
  unfolding drop_trailing keep
  drop_trailing-keep t [] d h = refl
  drop_trailing-keep t (x ∷ xs) (top, d) (le, h) =
      let rest = drop_trailing-keep t xs d h in
      elim (Bool-cases (ltb t (key x))) [
        | inl e ↦ ground arith
        | inr e ↦
            let gone = keep-none-newer t xs (All-le (key x) t xs (ground arith) top) in ground arith
      ]

  pub take-drop : (n : ℕ) (xs : List A) → take n xs ++ drop n xs ≡ xs
  unfolding take drop
  take-drop zero xs = refl
  take-drop (suc n) [] = refl
  take-drop (suc n) (x ∷ xs) = ap {B = List A} (λ l. x ∷ l) (take-drop n xs)

  -- A descending list is what is newer than t, and then the rest.
  pub keep-split :
      (t : Time) (xs : List A)
      → IsDescending xs
      → keep (newer t) xs ++ keep (λ x. not (newer t x)) xs ≡ xs
  unfolding keep
  keep-split t [] d = refl
  keep-split t (x ∷ xs) (top, d) =
      let rest = keep-split t xs d in
      elim (Bool-cases (ltb t (key x))) [
        | inl e ↦ ground arith
        | inr e ↦
            let gone = keep-none-newer t xs (All-le (key x) t xs (ground arith) top) in ground arith
      ]

  pub keep-append : (p : A → Bool) (xs ys : List A) → keep p (xs ++ ys) ≡ keep p xs ++ keep p ys
  unfolding keep
  keep-append p [] ys = refl
  keep-append p (x ∷ xs) ys = let rest = keep-append p xs ys in ground arith

  pub Descending-left : (xs ys : List A) → IsDescending (xs ++ ys) → IsDescending xs
  Descending-left [] ys d = tt
  Descending-left (x ∷ xs) ys (top, d) = (All-left xs ys top, Descending-left xs ys d)
    where
      All-left :
          (xs ys : List A) → All (λ y. key y ≤ key x) (xs ++ ys) → All (λ y. key y ≤ key x) xs
      All-left [] ys h = tt
      All-left (z ∷ xs) ys (k, h) = (k, All-left xs ys h)

  pub Descending-tops :
      (xs : List A) (b : A) (ys : List A)
      → IsDescending (xs ++ b ∷ ys)
      → All (λ y. key b ≤ key y) xs × All (λ y. key y ≤ key b) (b ∷ ys)
  Descending-tops [] b ys (top, d) = (tt, (omega arith, top))
  Descending-tops (x ∷ xs) b ys (top, d) =
      let (low, high) = Descending-tops xs b ys d in ((All-at xs b ys top, low), high)
    where
      All-at :
          (xs : List A) (b : A) (ys : List A)
          → All (λ y. key y ≤ key x) (xs ++ b ∷ ys)
          → key b ≤ key x
      All-at [] b ys (k, h) = k
      All-at (z ∷ xs) b ys (k, h) = All-at xs b ys h

  abbrev pub last_of : A → List A → A
  last_of x [] = x
  last_of x (y ∷ ys) = last_of y ys

  pub reverse_aux-last_of :
      (x : A) (xs acc : List A) → (r : List A) × (reverse_aux (x ∷ xs) acc ≡ last_of x xs ∷ r)
  reverse_aux-last_of x [] acc = (acc, refl)
  reverse_aux-last_of x (y ∷ ys) acc = reverse_aux-last_of y ys (x ∷ acc)

  -- The last of a descending list is the oldest.
  pub last_of-oldest :
      (x : A) (xs : List A) → IsDescending (x ∷ xs) → All (λ y. key (last_of x xs) ≤ key y) (x ∷ xs)
  last_of-oldest x [] d = (omega arith, tt)
  last_of-oldest x (y ∷ ys) (top, d) =
      let rest = last_of-oldest y ys d in (omega (arith, rest.0, top.0), rest)

  pub All-last_of : (P : A → Type 0) (x : A) (xs : List A) → All P (x ∷ xs) → P (last_of x xs)
  All-last_of P x [] (k, h) = k
  All-last_of P x (y ∷ ys) (k, h) = All-last_of P y ys h
