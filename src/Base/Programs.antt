-- ===== src/Base/Programs.antt =====
-- Calls that change a state and may fail; the state comes back beside an error too.
use mathlib.Core.Path.{◌≡◌, refl}
use bksd.Base.Results.{Result, ok, err}

abbrev pub Program : Type 0 → Type 0 → Type 0 → Type 0
Program S E A = S → Result E A × S

module _ {S E A B : Type 0} where
  abbrev pub continue : Result E A × S → (A → Program S E B) → Result E B × S
  continue (ok a, s) f = f a s
  continue (err e, s) f = (err e, s)

  infixl 5 ◌>>=◌
  abbrev pub ◌>>=◌ : Program S E A → (A → Program S E B) → Program S E B
  ◌>>=◌ m f s = continue (m s) f

abbrev pub return : {S E A : Type 0} → A → Program S E A
return a s = (ok a, s)

abbrev pub fail : {S E A : Type 0} → E → Program S E A
fail e s = (err e, s)

-- A result that does not depend on the state's change.
abbrev pub lift : {S E A : Type 0} → Result E A → Program S E A
lift r s = (r, s)

-- What `context` shows of an error.
abbrev pub context_of : {E A : Type 0} → E → Result E A → Result E A
context_of shown (ok a) = ok a
context_of shown (err e) = err shown

abbrev pub context : {S E A : Type 0} → E → Program S E A → Program S E A
context shown m s = (context_of shown (m s).0, (m s).1)

-- What holds of every result of a program, by the state that it leaves.
abbrev pub Ensures {ℓ} : {S E A : Type 0} → (A → S → Type ℓ) → Result E A × S → Type ℓ
Ensures P (ok a, s) = P a s
Ensures P (err e, s) = Unit

-- The rule of a chain.
pub Ensures-bind {ℓ κ} :
    {S E A B : Type 0} (P : A → S → Type ℓ) (Q : B → S → Type κ) (m : Program S E A)
    (f : A → Program S E B) (s : S)
    → Ensures P (m s)
    → ((a : A) (t : S) → P a t → Ensures Q (f a t))
    → Ensures Q ((m >>= f) s)
Ensures-bind P Q m f s h k = go (m s) h
  where
    go : (r : Result _ _ × _) → Ensures P r → Ensures Q (continue r f)
    go (ok a, t) p = k a t p
    go (err e, t) p = tt

module _ {S E A : Type 0} where
  pub Ensures-context :
      (P : A → S → Type 0) (shown : E) (m : Program S E A) (s : S)
      → Ensures P (m s)
      → Ensures P (context shown m s)
  Ensures-context P shown m s h = go (m s) h
    where
      go : (r : Result E A × S) → Ensures P r → Ensures P (context_of shown r.0, r.1)
      go (ok a, t) p = p
      go (err e, t) p = tt

  pub Ensures-both :
      (P Q : A → S → Type 0) (r : Result E A × S)
      → Ensures P r
      → ((a : A) → Q a r.1)
      → Ensures (λ a t. P a t × Q a t) r
  Ensures-both P Q (ok a, t) p q = (p, q a)
  Ensures-both P Q (err e, t) p q = tt

  pub Ensures-lift : (r : Result E A) (s : S) → Ensures (λ a t. (r ≡ ok a) × (t ≡ s)) (lift r s)
  Ensures-lift (ok a) s = (refl, refl)
  Ensures-lift (err e) s = tt

  pub Ensures-unit : (r : Result E A × S) → Ensures (λ a t. Unit {0}) r
  Ensures-unit (ok a, t) = tt
  Ensures-unit (err e, t) = tt
