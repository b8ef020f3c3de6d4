-- ===== src/NativeCopy/Files/Frame.antt =====
-- What the loop over the files leaves alone: files that are no destination, and collected errors.
use bksd.Base.{
  ℕ, String, ◌≡◌, refl, sym, ap, ◌∙◌, ◌≢◌, some, List, [], ◌∷◌, ◌++◌, Result, ok, err, Option-cases,
  Bool-cases, inl, inr, arith, ==_iff, string_eq, list_eq, All,
}
use bksd.Storage.{FilePath, Bytes, get_file, join, strip_prefix}
use bksd.Storage.Host.{Host, Blake3, Float}
use bksd.NativeCopy.Scan.{FileInfo}
use bksd.NativeCopy.File.{FileCopyError, copy_single_file}
use bksd.NativeCopy.File.Frame.{copy_single_file-Spares}
use bksd.NativeCopy.Files.{
  CopyError, CopyOptions, CopyState, and_continue, file_done, copy_file, copy_loop,
}
use bksd.NativeCopy.Files.Rounds.{send_progress_keeps}

module _ (F : Float) (elapsed : FilePath → F.F64) (total_bytes : ℕ) where
  disk-file_done :
      (relative : FilePath) (result : Result FileCopyError (ℕ × Bytes)) (s : CopyState)
      → (file_done F elapsed total_bytes relative result s).1.disk ≡ s.disk
  unfolding file_done
  disk-file_done relative (ok (n, h)) s = (send_progress_keeps F elapsed total_bytes relative _).0
  disk-file_done relative (err e) s = ground arith

  errors-file_done :
      (relative : FilePath) (result : Result FileCopyError (ℕ × Bytes)) (s : CopyState)
      → (file_done F elapsed total_bytes relative result s).1.errors ≡ []
      → s.errors ≡ []
  unfolding file_done
  errors-file_done relative (ok (n, h)) s e =
      sym (send_progress_keeps F elapsed total_bytes relative _).2 ∙ e
  errors-file_done relative (err x) s e = elim (Bool-cases x.is_device_removed) [
    | inl gone ↦ rw gone at e
    | inr stays ↦ nil_of_append s.errors _ (rw stays at e)
  ]
    where
      nil_of_append : (xs : List CopyError) (x : CopyError) → xs ++ x ∷ [] ≡ [] → xs ≡ []
      nil_of_append [] x k = refl
      nil_of_append (y ∷ ys) x k = cc

module _ (B : Blake3) (F : Float) (host : Host) (elapsed : FilePath → F.F64)
    (source destination : FilePath) (options : CopyOptions) (total_bytes : ℕ) where
  abbrev round : FileInfo → CopyState → Result String (Unit {0}) × CopyState
  round = copy_file B F host elapsed source destination options total_bytes

  abbrev loop : List FileInfo → CopyState → Result String (Unit {0}) × CopyState
  loop = copy_loop B F host elapsed source destination options total_bytes

  -- The file at `q` is no destination of this source file.
  abbrev pub IsElsewhere : FilePath → FileInfo → Type 0
  IsElsewhere q info =
      (relative : FilePath)
      → strip_prefix source info.path ≡ some relative
      → join destination relative ≢ q

  get_file-copy_file :
      (q : FilePath) (info : FileInfo) (s : CopyState)
      → IsElsewhere q info
      → get_file q (round info s).1.disk ≡ get_file q s.disk
  unfolding copy_file
  get_file-copy_file q info s away = elim (Option-cases (strip_prefix source info.path)) [
    | inl outside ↦ rw (outside, copy_file)
    | inr (relative, below) ↦
        rw (below, copy_file)
          (ap (get_file q) (
              disk-file_done F elapsed total_bytes relative
                (copy_single_file B host info.path (join destination relative) options.sync_files
                  options.owner_ids s.disk).0
                _)
            ∙ (copy_single_file-Spares B host q (join destination relative)
                  (λ e. away relative below ((==_iff (join destination relative) q).0 e)) info.path
                  options.sync_files options.owner_ids).at
                s.disk)
  ]

  errors-copy_file :
      (info : FileInfo) (s : CopyState) → (round info s).1.errors ≡ [] → s.errors ≡ []
  unfolding copy_file
  errors-copy_file info s e = elim (Option-cases (strip_prefix source info.path)) [
    | inl outside ↦ rw (outside, copy_file) at e
    | inr (relative, below) ↦
        errors-file_done F elapsed total_bytes relative
          (copy_single_file B host info.path (join destination relative) options.sync_files
            options.owner_ids s.disk).0
          _ (rw (below, copy_file) at e)
  ]

  -- A run, whether it ends or is cut short, leaves every file alone that is no destination of it.
  pub get_file-copy_loop :
      (q : FilePath) (files : List FileInfo) (s : CopyState)
      → All (IsElsewhere q) files
      → get_file q (loop files s).1.disk ≡ get_file q s.disk
  unfolding copy_loop
  get_file-copy_loop q [] s away = refl
  get_file-copy_loop q (info ∷ files) s away =
      go (λ t. get_file-copy_loop q files t away.1) (round info s)
        (get_file-copy_file q info s away.0)
    where
      go :
          ((t : CopyState) → get_file q (loop files t).1.disk ≡ get_file q t.disk)
          → (r : Result String (Unit {0}) × CopyState) → get_file q r.1.disk ≡ get_file q s.disk
          → get_file q (and_continue r (λ t. loop files t)).1.disk ≡ get_file q s.disk
      go rest (ok _, t) e = rest t ∙ e
      go rest (err m, t) e = e

  pub errors-copy_loop :
      (files : List FileInfo) (s : CopyState) → (loop files s).1.errors ≡ [] → s.errors ≡ []
  unfolding copy_loop
  errors-copy_loop [] s e = e
  errors-copy_loop (info ∷ files) s e =
      errors-copy_file info s (go (λ t k. errors-copy_loop files t k) (round info s) e)
    where
      go :
          ((t : CopyState) → (loop files t).1.errors ≡ [] → t.errors ≡ [])
          → (r : Result String (Unit {0}) × CopyState)
          → (and_continue r (λ t. loop files t)).1.errors ≡ []
          → r.1.errors ≡ []
      go rest (ok _, t) k = rest t k
      go rest (err m, t) k = k
