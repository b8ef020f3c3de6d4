-- ===== src/Examples/Sorting.antt =====
-- Insertion sort as an instance of `ORDER BY`.
use bksd.Base.{
  ℕ, ◌≤◌, refl, List, [], ◌∷◌, leb, leb→le, if◌then◌else◌, arith, All, All-map, Bool-cases, inl,
  inr,
}
use bksd.Db.{Sqlite}
use bksd.Db.Ordering.{IsDescending, IsAscending, SameRows, IsOrdering}

module _ {A : Type 0} (key : A → ℕ) where
  abbrev insert_newest : A → List A → List A
  insert_newest x [] = x ∷ []
  insert_newest x (y ∷ ys) = if leb (key y) (key x) then x ∷ y ∷ ys else y ∷ insert_newest x ys

  abbrev pub newest_first : List A → List A
  newest_first [] = []
  newest_first (x ∷ xs) = insert_newest x (newest_first xs)

  abbrev insert_oldest : A → List A → List A
  insert_oldest x [] = x ∷ []
  insert_oldest x (y ∷ ys) = if leb (key x) (key y) then x ∷ y ∷ ys else y ∷ insert_oldest x ys

  abbrev pub oldest_first : List A → List A
  oldest_first [] = []
  oldest_first (x ∷ xs) = insert_oldest x (oldest_first xs)

  insert_newest-rows : (x : A) (ys : List A) → SameRows (insert_newest x ys) (x ∷ ys)
  insert_newest-rows x [] p = refl
  insert_newest-rows x (y ∷ ys) p = ground (arith, insert_newest-rows x ys p)

  newest_first-rows : (xs : List A) → SameRows (newest_first xs) xs
  newest_first-rows [] p = refl
  newest_first-rows (x ∷ xs) p =
      ground (arith, insert_newest-rows x (newest_first xs) p, newest_first-rows xs p)

  insert_oldest-rows : (x : A) (ys : List A) → SameRows (insert_oldest x ys) (x ∷ ys)
  insert_oldest-rows x [] p = refl
  insert_oldest-rows x (y ∷ ys) p = ground (arith, insert_oldest-rows x ys p)

  oldest_first-rows : (xs : List A) → SameRows (oldest_first xs) xs
  oldest_first-rows [] p = refl
  oldest_first-rows (x ∷ xs) p =
      ground (arith, insert_oldest-rows x (oldest_first xs) p, oldest_first-rows xs p)

  -- A bound on all rows holds of one more that satisfies it.
  insert_newest-All :
      (P : A → Type 0) (x : A) (ys : List A) → P x → All P ys → All P (insert_newest x ys)
  insert_newest-All P x [] h hs = (h, tt)
  insert_newest-All P x (y ∷ ys) h hs = elim (Bool-cases (leb (key y) (key x))) [
    | inl e ↦ rw e (h, hs)
    | inr e ↦ rw e (hs.0, insert_newest-All P x ys h hs.1)
  ]

  insert_newest-IsDescending :
      (x : A) (ys : List A) → IsDescending key ys → IsDescending key (insert_newest x ys)
  insert_newest-IsDescending x [] h = (tt, tt)
  insert_newest-IsDescending x (y ∷ ys) h = elim (Bool-cases (leb (key y) (key x))) [
    | inl e ↦ rw e (
      (
        leb→le (key y) (key x) e,
        All-map ys (λ z below. omega (arith, leb→le (key y) (key x) e)) h.0,
      ),
      h,
    )
    | inr e ↦ rw e (
      insert_newest-All (λ z. key z ≤ key y) x ys (ground arith) h.0,
      insert_newest-IsDescending x ys h.1,
    )
  ]

  newest_first-IsDescending : (xs : List A) → IsDescending key (newest_first xs)
  newest_first-IsDescending [] = tt
  newest_first-IsDescending (x ∷ xs) =
      insert_newest-IsDescending x (newest_first xs) (newest_first-IsDescending xs)

  insert_oldest-All :
      (P : A → Type 0) (x : A) (ys : List A) → P x → All P ys → All P (insert_oldest x ys)
  insert_oldest-All P x [] h hs = (h, tt)
  insert_oldest-All P x (y ∷ ys) h hs = elim (Bool-cases (leb (key x) (key y))) [
    | inl e ↦ rw e (h, hs)
    | inr e ↦ rw e (hs.0, insert_oldest-All P x ys h hs.1)
  ]

  insert_oldest-IsAscending :
      (x : A) (ys : List A) → IsAscending key ys → IsAscending key (insert_oldest x ys)
  insert_oldest-IsAscending x [] h = (tt, tt)
  insert_oldest-IsAscending x (y ∷ ys) h = elim (Bool-cases (leb (key x) (key y))) [
    | inl e ↦ rw e (
      (
        leb→le (key x) (key y) e,
        All-map ys (λ z above. omega (arith, leb→le (key x) (key y) e)) h.0,
      ),
      h,
    )
    | inr e ↦ rw e (
      insert_oldest-All (λ z. key y ≤ key z) x ys (ground arith) h.0,
      insert_oldest-IsAscending x ys h.1,
    )
  ]

  oldest_first-IsAscending : (xs : List A) → IsAscending key (oldest_first xs)
  oldest_first-IsAscending [] = tt
  oldest_first-IsAscending (x ∷ xs) =
      insert_oldest-IsAscending x (oldest_first xs) (oldest_first-IsAscending xs)

abbrev pub sorting : Sqlite
sorting = record {
  newest_first = λ limit offset key xs. newest_first key xs;
  oldest_first = λ key xs. oldest_first key xs;
  binds_u64 = λ n. leb n 9223372036854775807;
  show_error = λ e. "sql error";
}

pub sorting-IsOrdering : IsOrdering sorting
sorting-IsOrdering = record {
  newest-rows = λ limit offset key xs. newest_first-rows key xs;
  newest-IsDescending = λ limit offset key xs. newest_first-IsDescending key xs;
  oldest-rows = λ key xs. oldest_first-rows key xs;
  oldest-IsAscending = λ key xs. oldest_first-IsAscending key xs;
}
