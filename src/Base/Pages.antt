-- ===== src/Base/Pages.antt =====
-- Pages of a list: what `take` and `drop` leave of it.
use bksd.Base.{
  ℕ, suc, zero, ◌≡◌, refl, ap, Bool, false, List, [], ◌∷◌, map, arith, count_if, select, All, any,
  take, drop, inl, inr, Bool-cases,
}

module _ {A : Type 0} where
  pub take-All : (P : A → Type 0) (n : ℕ) (xs : List A) → All P xs → All P (take n xs)
  take-All P zero xs h = tt
  take-All P (suc n) [] h = tt
  take-All P (suc n) (x ∷ xs) h = (h.0, take-All P n xs h.1)

  pub drop-All : (P : A → Type 0) (n : ℕ) (xs : List A) → All P xs → All P (drop n xs)
  drop-All P zero xs h = h
  drop-All P (suc n) [] h = tt
  drop-All P (suc n) (x ∷ xs) h = drop-All P n xs h.1

  pub All-map_list :
      {B : Type 0} (P : B → Type 0) (f : A → B) (xs : List A)
      → All (λ x. P (f x)) xs
      → All P (map f xs)
  All-map_list P f [] h = tt
  All-map_list P f (x ∷ xs) h = (h.0, All-map_list P f xs h.1)

  pub All-differ : (p : A → Bool) (xs : List A) → any p xs ≡ false → All (λ x. p x ≡ false) xs
  All-differ p [] h = tt
  All-differ p (x ∷ xs) h = elim (Bool-cases (p x)) [
    | inl e ↦ absurd (ground arith)
    | inr e ↦ (e, All-differ p xs (ground arith))
  ]

module _ {A B : Type 0} (f : A → B) where
  pub count_if-map :
      (p : B → Bool) (xs : List A) → count_if p (map f xs) ≡ count_if (λ x. p (f x)) xs
  count_if-map p [] = refl
  count_if-map p (x ∷ xs) = ground (arith, count_if-map p xs)

  pub take-map : (n : ℕ) (xs : List A) → map f (take n xs) ≡ take n (map f xs)
  take-map zero xs = refl
  take-map (suc n) [] = refl
  take-map (suc n) (x ∷ xs) = ap (λ ys. f x ∷ ys) (take-map n xs)

  pub drop-map : (n : ℕ) (xs : List A) → map f (drop n xs) ≡ drop n (map f xs)
  drop-map zero xs = refl
  drop-map (suc n) [] = refl
  drop-map (suc n) (x ∷ xs) = drop-map n xs

  pub select-map :
      (p : B → Bool) (q : A → Bool) (xs : List A)
      → ((x : A) → p (f x) ≡ q x)
      → select p (map f xs) ≡ map f (select q xs)
  select-map p q [] h = refl
  select-map p q (x ∷ xs) h = ground (arith, h x, select-map p q xs h)
