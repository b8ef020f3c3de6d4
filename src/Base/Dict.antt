-- ===== src/Base/Dict.antt =====
-- A `HashMap` as an association list with at most one entry for a key.
use bksd.Base.Tests.{if◌then◌else◌, is_some, Bool-cases}
use mathlib.Core.Logic.{◌≢◌, ◌⊎◌, inl, inr}
use bksd.Base.Lists.{length, All}
use bksd.Base.Equality.{PartialEq, ◌==◌}
use Prim.Native.Nat.{suc}
use mathlib.Core.Path.{◌≡◌, refl, subst}
use mathlib.Core.Bool.{Bool, true, false}
use mathlib.Core.Option.{Option, none, some}
use mathlib.Core.List.{List, [], ◌∷◌}
use native.Mathlib.Omega.{arith}

abbrev pub Dict {ℓ κ} : Type ℓ → Type κ → Type (ℓ ⊔ κ)
Dict K V = List (K × V)

module _ {ℓ κ} {K : Type ℓ} {V : Type κ} ⦃e : PartialEq K⦄ where
  unfoldable pub lookup : K → Dict K V → Option V
  lookup k [] = none
  lookup k ((j, v) ∷ d) = if j == k then some v else lookup k d

  unfoldable pub insert : K → V → Dict K V → Dict K V
  insert k v [] = (k, v) ∷ []
  insert k v ((j, w) ∷ d) = if j == k then (k, v) ∷ d else (j, w) ∷ insert k v d

  unfoldable pub erase : K → Dict K V → Dict K V
  erase k [] = []
  erase k ((j, w) ∷ d) = if j == k then d else (j, w) ∷ erase k d

  abbrev pub NodupKeys : Dict K V → Type κ
  NodupKeys [] = Unit
  NodupKeys ((k, _) ∷ d) = (lookup k d ≡ none) × NodupKeys d

  pub lookup-insert :
      (j k : K) (v : V) (d : Dict K V)
      → lookup j (insert k v d) ≡ (if k == j then some v else lookup j d)
  unfolding lookup insert
  lookup-insert j k v [] = refl
  lookup-insert j k v ((i, w) ∷ d) =
      ground (arith, e.eq_reflects i k, e.eq_reflects i j, e.eq_reflects k j, lookup-insert j k v d)

  pub lookup-erase :
      (j k : K) (d : Dict K V)
      → NodupKeys d
      → lookup j (erase k d) ≡ (if k == j then none else lookup j d)
  unfolding lookup erase
  lookup-erase j k [] h = ground arith
  lookup-erase j k ((i, w) ∷ d) h =
      ground
        (arith, e.eq_reflects i k, e.eq_reflects i j, e.eq_reflects k j, lookup-erase j k d h.1)

  pub insert-NodupKeys : (k : K) (v : V) (d : Dict K V) → NodupKeys d → NodupKeys (insert k v d)
  unfolding lookup insert
  insert-NodupKeys k v [] h = (refl, tt)
  insert-NodupKeys k v ((i, w) ∷ d) h = ground (
    arith,
    e.eq_reflects i k,
    e.eq_reflects k i,
    insert-NodupKeys k v d h.1,
    lookup-insert i k v d,
  )

  pub erase-NodupKeys : (k : K) (d : Dict K V) → NodupKeys d → NodupKeys (erase k d)
  unfolding lookup erase
  erase-NodupKeys k [] h = tt
  erase-NodupKeys k ((i, w) ∷ d) h = ground (arith, erase-NodupKeys k d h.1, lookup-erase i k d h.1)

  pub erase-insert_new :
      (k : K) (v : V) (d : Dict K V) → lookup k d ≡ none → erase k (insert k v d) ≡ d
  unfolding lookup insert erase
  erase-insert_new k v [] h = ground (arith, e.eq_reflects k k)
  erase-insert_new k v ((i, w) ∷ d) h = ground (arith, erase-insert_new k v d)

  pub lookup-insert_self : (k : K) (v : V) (d : Dict K V) → lookup k (insert k v d) ≡ some v
  lookup-insert_self k v d = ground (arith, lookup-insert k k v d, e.eq_reflects k k)

  pub length-insert :
      (k : K) (v : V) (d : Dict K V)
      → length (insert k v d) ≡ (if is_some (lookup k d) then length d else suc (length d))
  unfolding lookup insert
  length-insert k v [] = refl
  length-insert k v ((i, w) ∷ d) = ground (arith, length-insert k v d)

  pub length-erase :
      (k : K) (d : Dict K V)
      → length d ≡ (if is_some (lookup k d) then suc (length (erase k d)) else length (erase k d))
  unfolding lookup erase
  length-erase k [] = refl
  length-erase k ((i, w) ∷ d) = ground (arith, length-erase k d)

-- What holds of every entry still does.
pub All-insert {ℓ κ ι} :
    {K : Type ℓ} {V : Type κ} ⦃e : PartialEq K⦄ (P : K × V → Type ι) (k : K) (v : V) (d : Dict K V)
    → P (k, v)
    → All P d
    → All P (insert k v d)
unfolding insert
All-insert P k v [] h hs = (h, tt)
All-insert ⦃e⦄ P k v ((j, w) ∷ d) h hs = go (e.eq j k) (All-insert P k v d h hs.1)
  where
    go : (b : Bool) → All P (insert k v d) → All P (if b then (k, v) ∷ d else (j, w) ∷ insert k v d)
    go true _ = (h, hs.1)
    go false rest = (hs.0, rest)

pub All-erase {ℓ κ ι} :
    {K : Type ℓ} {V : Type κ} ⦃e : PartialEq K⦄ (P : K × V → Type ι) (k : K) (d : Dict K V)
    → All P d
    → All P (erase k d)
unfolding erase
All-erase P k [] hs = tt
All-erase ⦃e⦄ P k ((j, w) ∷ d) hs = go (e.eq j k) (All-erase P k d hs.1)
  where
    go : (b : Bool) → All P (erase k d) → All P (if b then d else (j, w) ∷ erase k d)
    go true _ = hs.1
    go false rest = (hs.0, rest)

-- What holds of an entry with another key.
All-others {ℓ κ ι ζ} :
    {K : Type ℓ} {V : Type κ} ⦃e : PartialEq K⦄ (P : K × V → Type ι) (Q : K × V → Type ζ) (k : K)
    (d : Dict K V)
    → ((j : K) (v : V) → j ≢ k → P (j, v) → Q (j, v))
    → lookup k d ≡ none
    → All P d
    → All Q d
unfolding lookup
All-others P Q k [] f h hs = tt
All-others ⦃e⦄ P Q k ((j, w) ∷ d) f h hs =
    let new : e.eq j k ≡ false = ground arith in
    (f j w (λ x. cc ((e.eq_reflects j k).1 x, new)) hs.0, All-others P Q k d f (ground arith) hs.1)

pub All-erase_others {ℓ κ ι ζ} :
    {K : Type ℓ} {V : Type κ} ⦃e : PartialEq K⦄ (P : K × V → Type ι) (Q : K × V → Type ζ) (k : K)
    (d : Dict K V)
    → ((j : K) (v : V) → j ≢ k → P (j, v) → Q (j, v))
    → NodupKeys d
    → All P d
    → All Q (erase k d)
unfolding erase
All-erase_others P Q k [] f nodup hs = tt
All-erase_others ⦃e⦄ P Q k ((j, w) ∷ d) f nodup hs =
    go (All-erase_others P Q k d f nodup.1 hs.1) (Bool-cases (e.eq j k))
  where
    go :
        All Q (erase k d)
        → (e.eq j k ≡ true) ⊎ (e.eq j k ≡ false)
        → All Q (if e.eq j k then d else (j, w) ∷ erase k d)
    go rest (inl same) = rw same (
        All-others P Q k d f (subst (λ i. lookup i d ≡ none) ((e.eq_reflects j k).0 same) nodup.0)
          hs.1)
    go rest (inr new) = rw new (f j w (λ x. cc ((e.eq_reflects j k).1 x, new)) hs.0, rest)

pub All-lookup {ℓ κ ι} :
    {K : Type ℓ} {V : Type κ} ⦃e : PartialEq K⦄ (P : K × V → Type ι) (k : K) (d : Dict K V) {v : V}
    → All P d
    → lookup k d ≡ some v
    → P (k, v)
unfolding lookup
All-lookup P k [] hs h = absurd (cc h)
All-lookup ⦃e⦄ P k ((j, w) ∷ d) {v} hs h = go (All-lookup P k d hs.1) (Bool-cases (e.eq j k)) h
  where
    go :
        (lookup k d ≡ some v → P (k, v))
        → (e.eq j k ≡ true) ⊎ (e.eq j k ≡ false)
        → (if e.eq j k then some w else lookup k d) ≡ some v
        → P (k, v)
    go rest (inl same) found =
        let value : w ≡ v = ground arith in
        subst (λ i. P (i, v)) ((e.eq_reflects j k).0 same) (subst (λ x. P (j, x)) value hs.0)
    go rest (inr new) found = rest (rw new at found)
