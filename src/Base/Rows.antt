-- ===== src/Base/Rows.antt =====
-- Rows of a table under filters, updates and the search for the first: what the statements of several packages need.
use marco_api.Base.{
  ◌≡◌, refl, ap, arith, Bool, true, false, none, some, List, [], ◌∷◌, ◌++◌, not, is_some, keep,
  count_where, find_first, update_where, Bool-cases, inl, inr,
}

module _ {ℓ} {A : Type ℓ} (q : A → Bool) where
  -- An update that misses the rows of a filter.
  pub keep-update_where :
      (hit : A → Bool) (f : A → A)
      → ((x : A) → hit x ≡ true → q x ≡ false)
      → ((x : A) → q (f x) ≡ q x)
      → (xs : List A) → keep q (update_where hit f xs) ≡ keep q xs
  unfolding keep update_where
  keep-update_where hit f apart same [] = refl
  keep-update_where hit f apart same (x ∷ xs) =
      let rest = keep-update_where hit f apart same xs in
      let far = apart x in let k = same x in ground arith

  pub keep-add : (x : A) → q x ≡ false → (xs : List A) → keep q (xs ++ x ∷ []) ≡ keep q xs
  unfolding keep
  keep-add x h [] = ground arith
  keep-add x h (y ∷ xs) = let rest = keep-add x h xs in ground arith

  pub find_first-keep :
      (p : A → Bool)
      → ((x : A) → p x ≡ true → q x ≡ true)
      → (xs : List A) → find_first p xs ≡ find_first p (keep q xs)
  unfolding keep find_first
  find_first-keep p within [] = refl
  find_first-keep p within (x ∷ xs) =
      let rest = find_first-keep p within xs in let k = within x in ground arith

module _ {ℓ} {A : Type ℓ} (p : A → Bool) where
  -- A filter that no row passes.
  pub update_where-none :
      (f : A → A) (xs : List A) → find_first p xs ≡ none → update_where p f xs ≡ xs
  unfolding update_where find_first
  update_where-none f [] h = refl
  update_where-none f (x ∷ xs) h = elim (Bool-cases (p x)) [
    | inl e ↦ ground arith
    | inr e ↦ let rest = update_where-none f xs (ground arith) in ground arith
  ]

  pub keep-none : (xs : List A) → find_first p xs ≡ none → keep (λ x. not (p x)) xs ≡ xs
  unfolding keep find_first
  keep-none [] h = refl
  keep-none (x ∷ xs) h = elim (Bool-cases (p x)) [
    | inl e ↦ ground arith
    | inr e ↦ let rest = keep-none xs (ground arith) in ground arith
  ]

  pub count_where-none : (xs : List A) → find_first p xs ≡ none → count_where p xs ≡ 0
  unfolding count_where find_first
  count_where-none [] h = refl
  count_where-none (x ∷ xs) h = elim (Bool-cases (p x)) [
    | inl e ↦ ground arith
    | inr e ↦ let rest = count_where-none xs (ground arith) in ground arith
  ]

module _ {ℓ} {A : Type ℓ} where
  pub find_first-also :
      (p q : A → Bool) (x : A) (xs : List A)
      → find_first p xs ≡ some x
      → q x ≡ true
      → is_some (find_first q xs) ≡ true
  unfolding find_first
  find_first-also p q x [] h k = ground arith
  find_first-also p q x (y ∷ xs) h k = elim (Bool-cases (p y)) [
    | inl e ↦ ground arith
    | inr e ↦ let rest = find_first-also p q x xs (ground arith) k in ground arith
  ]

  pub find_first-added :
      (p : A → Bool) (x : A) (xs : List A)
      → find_first p xs ≡ none
      → p x ≡ true
      → find_first p (xs ++ x ∷ []) ≡ some x
  unfolding find_first
  find_first-added p x [] h k = ground arith
  find_first-added p x (y ∷ xs) h k = elim (Bool-cases (p y)) [
    | inl e ↦ ground arith
    | inr e ↦ let rest = find_first-added p x xs (ground arith) k in ground arith
  ]

  pub find_first-changed :
      (p : A → Bool) (f : A → A)
      → ((y : A) → p (f y) ≡ p y)
      → (x : A) (xs : List A) → find_first p xs ≡ some x
      → find_first p (update_where p f xs) ≡ some (f x)
  unfolding find_first update_where
  find_first-changed p f same x [] h = ground arith
  find_first-changed p f same x (y ∷ xs) h = elim (Bool-cases (p y)) [
    | inl e ↦
        rw (e, same y, e)
          (let k : some y ≡ some x = ground arith in
            ap (λ o. elim o [ none ↦ none | some z ↦ some (f z) ]) k)
    | inr e ↦ let rest = find_first-changed p f same x xs (ground arith) in rw (e, e) rest
  ]
