-- ===== src/NativeCopy/Estimate.antt =====
-- The percentage of `copy_files_with_progress` and `calculate_eta`, in
-- src/core/transfer_engine/native_copy.rs, over floating-point numbers that are a parameter.
use bksd.Base.{
  ℕ, ◌≤◌, ◌<◌, ◌≡◌, refl, ap, subst, ◌∙◌, Bool-cases, inl, inr, ltb→lt, ◌||◌, Option, none, some,
  arith, ltb, leb, ◌==◌, nat_eq, if◌then◌else◌, sub_u64,
}
use bksd.Storage.Host.{Float, IsIeee}

module _ (F : Float) where
  -- `((bytes_copied as f64 / total_bytes as f64) * 100.0) as u8`
  abbrev pub percent_of : ℕ → ℕ → ℕ
  percent_of bytes_copied total_bytes =
      F.to_u8 (F.mul (F.div (F.of_u64 bytes_copied) (F.of_u64 total_bytes)) F.hundred)

  unfoldable pub percentage : ℕ → ℕ → ℕ
  percentage bytes_copied total_bytes =
      if ltb 0 total_bytes then percent_of bytes_copied total_bytes else 100

  -- `elapsed_secs` is what `start_time.elapsed().as_secs_f64()` gives.
  unfoldable pub calculate_eta : F.F64 → ℕ → ℕ → Option ℕ
  calculate_eta elapsed_secs bytes_copied total_bytes =
      if bytes_copied == 0 || leb total_bytes bytes_copied
      then none
      else if F.lt elapsed_secs F.one
      then none
      else let bytes_per_sec = F.div (F.of_u64 bytes_copied) elapsed_secs in
        if F.le bytes_per_sec F.zero_f64
        then none
        else some
            (F.to_u64 (F.ceil (F.div (F.of_u64 (sub_u64 total_bytes bytes_copied)) bytes_per_sec)))

module _ (F : Float) (L : IsIeee F) where
  -- With the laws of IEEE 754 that are assumed: the percentage is at most 100 while no more than
  -- the scanned total has been copied, and it is 100 when all of it has, also where the total is
  -- 0.
  pub percentage_bounds :
      (bytes_copied total_bytes : ℕ)
      → bytes_copied ≤ total_bytes
      → (percentage F bytes_copied total_bytes ≤ 100) × (percentage F total_bytes total_bytes ≡ 100)
  unfolding percentage
  percentage_bounds b t h = elim (Bool-cases (ltb 0 t)) [
    | inr empty ↦ rw empty (omega arith, refl)
    | inl some_bytes ↦ rw some_bytes (
        let pos : 0 < t = ltb→lt 0 t some_bytes in
        let whole : percent_of F t t ≡ 100 = full t pos in
        (
          subst (λ k. percent_of F b t ≤ k) whole
              (L.to_u8-le _ _ (L.mul-le _ _ (L.div-le _ _ t pos (L.of_u64-le b t h)))),
          whole,
        ))
  ]
    where
      full : (n : ℕ) → 0 < n → percent_of F n n ≡ 100
      full n pos =
          ap (λ x. F.to_u8 (F.mul x F.hundred)) (L.div_self n pos)
          ∙ ap F.to_u8 L.one-mul
          ∙ L.to_u8-hundred

  -- With the laws of IEEE 754 that are assumed: more bytes never show a smaller percentage.
  pub percentage-le :
      (a b total_bytes : ℕ) → a ≤ b → percentage F a total_bytes ≤ percentage F b total_bytes
  unfolding percentage
  percentage-le a b t h = elim (Bool-cases (ltb 0 t)) [
    | inr empty ↦ rw empty (omega arith)
    | inl some_bytes ↦
        rw some_bytes (
          L.to_u8-le _ _
            (L.mul-le _ _ (L.div-le _ _ t (ltb→lt 0 t some_bytes) (L.of_u64-le a b h))))
  ]
