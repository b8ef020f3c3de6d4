-- ===== src/Base/Equality.antt =====
-- `==` for every type with an instance; `eq_reflects` is what makes a Boolean test an equation.
use Prim.Native.Nat.{ℕ}
use Prim.Native.String.{String}
use mathlib.Core.Path.{◌≡◌, refl}
use mathlib.Core.Logic.{◌↔◌}
use mathlib.Core.Bool.{Bool, true, false, ◌&&◌}
use mathlib.Core.Option.{Option, none, some}
use mathlib.Core.List.{List, [], ◌∷◌}
use native.Mathlib.Omega.{arith}
use text.Mathlib.Text.{◌==◌ as str_eq}
use text.Mathlib.TextEquality.{eq_iff}
use bksd.Base.Tests.{nat_beq, nat_beq_iff}

pub record PartialEq {ℓ} (A : Type ℓ) : Type ℓ where
  pub eq : A → A → Bool
  pub eq_reflects : (left right : A) → (eq left right ≡ true) ↔ (left ≡ right)

infix 50 ◌==◌
abbrev pub ◌==◌ {ℓ} : {K : Type ℓ} ⦃equality : PartialEq K⦄ → K → K → Bool
◌==◌ ⦃equality⦄ = equality.eq

module _ {ℓ} {A : Type ℓ} ⦃e : PartialEq A⦄ where
  pub ==_iff : (a b : A) → ((a == b) ≡ true) ↔ (a ≡ b)
  ==_iff = e.eq_reflects

  pub ==_self : (a : A) → (a == a) ≡ true
  ==_self a = (e.eq_reflects a a).1 refl

  abbrev pub list_beq : List A → List A → Bool
  list_beq [] [] = true
  list_beq (x ∷ xs) (y ∷ ys) = e.eq x y && list_beq xs ys
  list_beq _ _ = false

  pub list_beq_iff : (xs ys : List A) → (list_beq xs ys ≡ true) ↔ (xs ≡ ys)
  list_beq_iff [] [] = (λ _. refl, λ _. refl)
  list_beq_iff (x ∷ xs) (y ∷ ys) = ground (arith, e.eq_reflects x y, list_beq_iff xs ys)
  list_beq_iff [] (y ∷ ys) = (λ h. cc, λ h. cc)
  list_beq_iff (x ∷ xs) [] = (λ h. cc, λ h. cc)

  abbrev pub option_beq : Option A → Option A → Bool
  option_beq none none = true
  option_beq (some x) (some y) = e.eq x y
  option_beq _ _ = false

  pub option_beq_iff : (a b : Option A) → (option_beq a b ≡ true) ↔ (a ≡ b)
  option_beq_iff none none = (λ _. refl, λ _. refl)
  option_beq_iff (some x) (some y) = ground (arith, e.eq_reflects x y)
  option_beq_iff none (some y) = (λ h. cc, λ h. cc)
  option_beq_iff (some x) none = (λ h. cc, λ h. cc)

instance abbrev pub string_eq : PartialEq String
string_eq = record { eq = str_eq; eq_reflects = eq_iff }

instance abbrev pub nat_eq : PartialEq ℕ
nat_eq = record { eq = nat_beq; eq_reflects = nat_beq_iff }

instance abbrev pub list_eq {ℓ} : {A : Type ℓ} ⦃e : PartialEq A⦄ → PartialEq (List A)
list_eq = record { eq = list_beq; eq_reflects = list_beq_iff }

instance abbrev pub option_eq {ℓ} : {A : Type ℓ} ⦃e : PartialEq A⦄ → PartialEq (Option A)
option_eq = record { eq = option_beq; eq_reflects = option_beq_iff }
