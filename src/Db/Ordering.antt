-- ===== src/Db/Ordering.antt =====
-- What `ORDER BY` promises: every row once, and the keys in order. Rows with equal keys may stand in
-- any order.
use bksd.Base.Pages.{take-All, All-map_list}
use bksd.Base.{
  zero, map, take, drop, ℕ, suc, ◌≤◌, ◌≡◌, ◌∙◌, Bool, false, List, [], ◌∷◌, arith, All, count_if,
  count_if-zero, inl, inr, string_eq, Bool-cases,
}
use bksd.Db.{Sqlite}

module _ {A : Type 0} where
  abbrev pub IsDescending : (A → ℕ) → List A → Type 0
  IsDescending key [] = Unit
  IsDescending key (x ∷ xs) = All (λ y. key y ≤ key x) xs × IsDescending key xs

  abbrev pub IsAscending : (A → ℕ) → List A → Type 0
  IsAscending key [] = Unit
  IsAscending key (x ∷ xs) = All (λ y. key x ≤ key y) xs × IsAscending key xs

  -- The same rows, each as often: every test holds of as many.
  abbrev pub SameRows : List A → List A → Type 0
  SameRows xs ys = (p : A → Bool) → count_if p xs ≡ count_if p ys

pub record IsOrdering (S : Sqlite) : Type 1 where
  pub newest-rows :
      {A : Type 0} (limit offset : ℕ) (key : A → ℕ) (xs : List A)
      → SameRows (S.newest_first limit offset key xs) xs
  pub newest-IsDescending :
      {A : Type 0} (limit offset : ℕ) (key : A → ℕ) (xs : List A)
      → IsDescending key (S.newest_first limit offset key xs)
  pub oldest-rows : {A : Type 0} (key : A → ℕ) (xs : List A) → SameRows (S.oldest_first key xs) xs
  pub oldest-IsAscending :
      {A : Type 0} (key : A → ℕ) (xs : List A) → IsAscending key (S.oldest_first key xs)

module _ {A : Type 0} where
  pub drop-IsDescending :
      (key : A → ℕ) (n : ℕ) (xs : List A) → IsDescending key xs → IsDescending key (drop n xs)
  drop-IsDescending key zero xs h = h
  drop-IsDescending key (suc n) [] h = tt
  drop-IsDescending key (suc n) (x ∷ xs) h = drop-IsDescending key n xs h.1

  pub take-IsDescending :
      (key : A → ℕ) (n : ℕ) (xs : List A) → IsDescending key xs → IsDescending key (take n xs)
  take-IsDescending key zero xs h = tt
  take-IsDescending key (suc n) [] h = tt
  take-IsDescending key (suc n) (x ∷ xs) h = (take-All _ n xs h.0, take-IsDescending key n xs h.1)

  pub map-IsDescending :
      {B : Type 0} (f : A → B) (key : B → ℕ) (xs : List A)
      → IsDescending (λ x. key (f x)) xs
      → IsDescending key (map f xs)
  map-IsDescending f key [] h = tt
  map-IsDescending f key (x ∷ xs) h = (All-map_list _ f xs h.0, map-IsDescending f key xs h.1)

  All-false : (p : A → Bool) (xs : List A) → count_if p xs ≡ 0 → All (λ x. p x ≡ false) xs
  All-false p [] h = tt
  All-false p (x ∷ xs) h = elim (Bool-cases (p x)) [
    | inl e ↦ absurd (ground arith)
    | inr e ↦ (e, All-false p xs (ground arith))
  ]

  -- A test that no row passes is passed by none in another order.
  pub none_in_order :
      (p : A → Bool) (xs ys : List A)
      → SameRows ys xs
      → All (λ x. p x ≡ false) xs
      → All (λ x. p x ≡ false) ys
  none_in_order p xs ys same h = All-false p ys (same p ∙ count_if-zero p xs h)
