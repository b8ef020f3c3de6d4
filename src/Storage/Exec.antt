-- ===== src/Storage/Exec.antt =====
-- Calls that change the disk and may fail. What was written before a failure stays written, so the
-- disk comes back beside the error too.
use bksd.Base.{◌≡◌, refl, ap, Result, ok, err}
use bksd.Storage.{Disk}

abbrev pub Exec : Type 0 → Type 0 → Type 0
Exec E A = Disk → Result E A × Disk

module _ {E A : Type 0} where
  unfoldable pub pure : A → Exec E A
  pure a disk = (ok a, disk)

  unfoldable pub fail : E → Exec E A
  fail e disk = (err e, disk)

module _ {E A B : Type 0} where
  abbrev pub continue : Result E A × Disk → (A → Exec E B) → Result E B × Disk
  continue (ok a, disk) f = f a disk
  continue (err e, disk) f = (err e, disk)

  infixl 10 ◌>>=◌
  unfoldable pub ◌>>=◌ : Exec E A → (A → Exec E B) → Exec E B
  ◌>>=◌ m f disk = continue (m disk) f

  -- A successful chain is two successful calls.
  pub bind-eq-ok :
      (m : Exec E A) (f : A → Exec E B) (disk : Disk) {b : B} {disk' : Disk}
      → (m >>= f) disk ≡ (ok b, disk')
      → (a : A) × (between : Disk) × (m disk ≡ (ok a, between)) × (f a between ≡ (ok b, disk'))
  unfolding ◌>>=◌
  bind-eq-ok m f disk {b} {disk'} h = go (m disk) refl h
    where
      go :
          (r : Result E A × Disk)
          → m disk ≡ r
          → continue r f ≡ (ok b, disk')
          → (a : A) × (between : Disk) × (m disk ≡ (ok a, between)) × (f a between ≡ (ok b, disk'))
      go (ok a, between) e k = (a, between, e, k)
      go (err x, between) e k = absurd (cc (ap (λ (t : Result E B × Disk). t.0) k))

module _ {E : Type 0} where
  unfoldable pub update : (Disk → Disk) → Exec E Unit
  update change disk = (ok tt, change disk)

infixl 10 ◌>>◌
abbrev pub ◌>>◌ : {E B : Type 0} → Exec E Unit → Exec E B → Exec E B
m >> k = m >>= λ _. k

-- What a successful run of a single call says.
pub pure-eq-ok :
    {E A : Type 0} (a b : A) (disk : Disk) {disk' : Disk}
    → pure {E = E} a disk ≡ (ok b, disk')
    → (a ≡ b) × (disk ≡ disk')
unfolding pure
pure-eq-ok {E} {A} a b disk {disk'} h =
    (ap (λ (t : Result E A × Disk). from_ok t.0) h, ap (λ (t : Result E A × Disk). t.1) h)
  where
    from_ok : Result E A → A
    from_ok (ok x) = x
    from_ok (err e) = a

pub fail-ne-ok :
    {E A : Type 0} (e : E) (b : A) (disk : Disk) {disk' : Disk} → fail e disk ≡ (ok b, disk') → ⊥
unfolding fail
fail-ne-ok {E} {A} e b disk h = cc (ap (λ (t : Result E A × Disk). t.0) h)

pub update-eq-ok :
    {E : Type 0} (change : Disk → Disk) (disk : Disk) {disk' : Disk}
    → update {E = E} change disk ≡ (ok tt, disk')
    → change disk ≡ disk'
unfolding update
update-eq-ok {E} change disk h = ap (λ (t : Result E Unit × Disk). t.1) h
