-- ===== src/NativeCopy/Files/Rounds.antt =====
-- One round of the loop over the files, by the result of the copy.
use bksd.Base.{
  ℕ, String, ◌≡◌, refl, sym, ap, ◌∙◌, ◌≢◌, some, List, [], ◌∷◌, ◌++◌, Result, ok, err, Option-cases,
  Bool-cases, inl, inr, arith, string_eq, list_eq, add_u64,
}
use bksd.Storage.{FilePath, Bytes, Disk, join, strip_prefix}
use bksd.Storage.Host.{Host, Blake3, Float}
use bksd.NativeCopy.Scan.{FileInfo}
use bksd.NativeCopy.File.{FileCopyError, copy_single_file}
use bksd.NativeCopy.Files.{CopyOptions, CopyState, send_progress, file_done, copy_file}

-- The state behind a file whose copy succeeded.
abbrev pub after_copy : FilePath → ℕ → Bytes → Disk → CopyState → CopyState
after_copy relative file_bytes hash disk s = record s {
  disk = disk;
  bytes_copied = add_u64 s.bytes_copied file_bytes;
  file_hashes =
      s.file_hashes ++ (record { relative_path = relative; hash = hash; size = file_bytes }) ∷ [];
}

append-ne-nil {ℓ} : {A : Type ℓ} (xs : List A) (x : A) → xs ++ x ∷ [] ≢ []
append-ne-nil [] x e = cc
append-ne-nil (y ∷ xs) x e = cc

module _ (F : Float) (elapsed : FilePath → F.F64) (total_bytes : ℕ) where
  -- A progress update changes nothing but what it is about.
  pub send_progress_keeps :
      (relative : FilePath) (s : CopyState)
      → let t = send_progress F elapsed total_bytes relative s in
        (t.disk ≡ s.disk)
        × (t.bytes_copied ≡ s.bytes_copied)
        × (t.errors ≡ s.errors)
        × (t.file_hashes ≡ s.file_hashes)
  unfolding send_progress
  send_progress_keeps relative s = ground arith

module _ (B : Blake3) (F : Float) (host : Host) (elapsed : FilePath → F.F64)
    (source destination : FilePath) (options : CopyOptions) (total_bytes : ℕ) where
  -- A round that goes on and leaves no error has copied its file.
  pub record Succeeded (info : FileInfo) (s t : CopyState) : Type 0 where
    pub relative : FilePath
    pub file_bytes : ℕ
    pub hash : Bytes
    pub disk : Disk
    pub below : strip_prefix source info.path ≡ some relative
    pub copied :
        copy_single_file B host info.path
          (join destination relative)
          options.sync_files
          options.owner_ids
          s.disk
        ≡ (ok (file_bytes, hash), disk)
    pub state :
        t
        ≡ send_progress F elapsed total_bytes relative (after_copy relative file_bytes hash disk s)

  done_cases :
      (info : FileInfo) (s t : CopyState) (relative : FilePath)
      (result : Result FileCopyError (ℕ × Bytes)) (disk : Disk)
      → strip_prefix source info.path ≡ some relative
      → copy_single_file B host info.path
          (join destination relative)
          options.sync_files
          options.owner_ids
          s.disk
        ≡ (result, disk)
      → file_done F elapsed total_bytes relative result (record s { disk = disk }) ≡ (ok tt, t)
      → t.errors ≡ []
      → Succeeded info s t
  unfolding file_done
  done_cases info s t relative (ok (n, h)) disk below copied e clean = record {
    relative = relative;
    file_bytes = n;
    hash = h;
    disk = disk;
    below = below;
    copied = copied;
    state = sym (ap (λ (r : Result String (Unit {0}) × CopyState). r.1) e);
  }
  done_cases info s t relative (err x) disk below copied e clean =
      elim (Bool-cases x.is_device_removed) [
        | inl gone ↦ absurd (stopped (rw gone at e))
        | inr stays ↦ absurd (append-ne-nil s.errors _ (collected (rw stays at e)))
      ]
    where
      stopped :
          {m : String} {u : CopyState}
          → ◌≡◌ {A = Result String (Unit {0}) × CopyState} (err m, u) (ok tt, t)
          → ⊥
      stopped k = cc (ap (λ (r : Result String (Unit {0}) × CopyState). r.0) k)

      collected :
          {u : CopyState}
          → ◌≡◌ {A = Result String (Unit {0}) × CopyState} (ok tt, u) (ok tt, t)
          → u.errors ≡ []
      collected k = ap (λ (r : Result String (Unit {0}) × CopyState). r.1.errors) k ∙ clean

  pub copy_file-Succeeded :
      (info : FileInfo) (s t : CopyState)
      → copy_file B F host elapsed source destination options total_bytes info s ≡ (ok tt, t)
      → t.errors ≡ []
      → Succeeded info s t
  unfolding copy_file
  copy_file-Succeeded info s t e clean = elim (Option-cases (strip_prefix source info.path)) [
    | inl outside ↦ absurd (panicked (rw (outside, copy_file) at e))
    | inr (relative, below) ↦
        done_cases info s t relative _ _ below refl (rw (below, copy_file) at e) clean
  ]
    where
      panicked :
          {m : String} {u : CopyState}
          → ◌≡◌ {A = Result String (Unit {0}) × CopyState} (err m, u) (ok tt, t)
          → ⊥
      panicked k = cc (ap (λ (r : Result String (Unit {0}) × CopyState). r.0) k)
