-- ===== src/NativeCopy/File/Frame.antt =====
-- A copy writes its destination and nothing else.
use bksd.Base.{
  ℕ, String, ◌≡◌, refl, ◌≢◌, ◌∙◌, Bool, true, false, Option, none, some, List, [], ◌∷◌, Result, ok,
  err, Result-cases, Option-cases, inl, inr, arith, ◌==◌, string_eq, list_eq, add_u64, length,
}
use bksd.Storage.{
  FilePath, IoError, Bytes, OwnerIds, Disk, DiskFile, get_file, create_file, modify_file,
}
use bksd.Storage.Laws.{get_file-create_file, get_file-modify_file_ne}
use bksd.Storage.Exec.{Exec, pure, fail, update, continue, ◌>>=◌}
use bksd.Storage.Host.{Host, Blake3}
use bksd.NativeCopy.File.{
  file_error, check, from_io, append_bytes, open_files, finish_file, try_modify,
  preserve_timestamps, set_owner, preserve, copy_chunks, copy_single_file,
}

-- Whatever `m` returns, the file at `q` is what it was.
pub record Spares {E A : Type 0} (q : FilePath) (m : Exec E A) : Type 0 where
  pub at : (disk : Disk) → get_file q (m disk).1 ≡ get_file q disk

-- A change of the disk that leaves the file at `q` alone.
pub record SparesChange (q : FilePath) (change : Disk → Disk) : Type 0 where
  pub at : (disk : Disk) → get_file q (change disk) ≡ get_file q disk

module _ {E A : Type 0} (q : FilePath) where
  Spares-pure : (a : A) → Spares q (pure {E = E} a)
  unfolding pure
  Spares-pure a = record { at = λ disk. refl }

  Spares-fail : (e : E) → Spares q (fail {A = A} e)
  unfolding fail
  Spares-fail e = record { at = λ disk. refl }

module _ {E A B : Type 0} (q : FilePath) where
  Spares-bind :
      (m : Exec E A) (f : A → Exec E B)
      → Spares q m
      → ((a : A) → Spares q (f a))
      → Spares q (m >>= f)
  unfolding ◌>>=◌
  Spares-bind m f hm hf = record { at = λ disk. go (m disk) ∙ hm.at disk }
    where
      go : (r : Result E A × Disk) → get_file q (continue r f).1 ≡ get_file q r.1
      go (ok a, disk) = (hf a).at disk
      go (err e, disk) = refl

module _ {E : Type 0} (q : FilePath) where
  Spares-update : (change : Disk → Disk) → SparesChange q change → Spares q (update {E = E} change)
  unfolding update
  Spares-update change h = record { at = h.at }

module _ (q : FilePath) where
  Spares-check : (doing : String) (o : Option IoError) → Spares q (check doing o)
  unfolding check
  Spares-check doing none = Spares-pure q tt
  Spares-check doing (some e) = Spares-fail q (file_error doing e)

  Spares-from_io : {A : Type 0} (doing : String) (r : Result IoError A) → Spares q (from_io doing r)
  unfolding from_io
  Spares-from_io doing (ok a) = Spares-pure q a
  Spares-from_io doing (err e) = Spares-fail q (file_error doing e)

module _ (q dest : FilePath) (other : (dest == q) ≢ true) where
  SparesChange-create_file : SparesChange q (create_file dest)
  SparesChange-create_file = record {
    at = λ disk. ground (arith, get_file-create_file dest q disk);
  }

  SparesChange-modify_file :
      (change : DiskFile → DiskFile) → SparesChange q (modify_file dest change)
  SparesChange-modify_file change = record {
    at = λ disk. get_file-modify_file_ne dest q change disk other;
  }

ruleset sparing =
    (Spares-pure, Spares-fail, Spares-bind, Spares-update, Spares-check, Spares-from_io)

module _ (host : Host) (q dest : FilePath) (other : (dest == q) ≢ true) where
  Spares-open_files : (source : FilePath) → Spares q (open_files host source dest)
  unfolding open_files
  Spares-open_files source = search (sparing, SparesChange-create_file q dest other) depth 9

  Spares-finish_file : (sync : Bool) → Spares q (finish_file host dest sync)
  unfolding finish_file
  Spares-finish_file false = search sparing
  Spares-finish_file true = search sparing depth 7

  SparesChange-try_modify :
      (o : Option IoError) (change : DiskFile → DiskFile)
      → SparesChange q (try_modify host o dest change)
  unfolding try_modify
  SparesChange-try_modify none change = SparesChange-modify_file q dest other change
  SparesChange-try_modify (some e) change = record { at = λ disk. refl }

  get_file-preserve_timestamps :
      (source : FilePath) (disk : Disk)
      → get_file q (preserve_timestamps host source dest disk).1 ≡ get_file q disk
  unfolding preserve_timestamps
  get_file-preserve_timestamps source disk = elim (Result-cases (host.times source)) [
    | inr (e, h) ↦ rw (h, preserve_timestamps)
    | inl (t, h) ↦
        rw (h, preserve_timestamps)
          (elim (Option-cases (host.set_file_times dest)) [
            | inl k ↦
                rw (k, preserve_timestamps)
                  ((SparesChange-modify_file q dest other
                      (λ file. record file { times = some t })).at
                    disk)
            | inr (e, k) ↦ rw (k, preserve_timestamps)
          ])
  ]

  SparesChange-set_owner : (ids : Option OwnerIds) → SparesChange q (set_owner host dest ids)
  unfolding set_owner
  SparesChange-set_owner none = record { at = λ disk. refl }
  SparesChange-set_owner (some ids) =
      SparesChange-try_modify (host.chown dest) (λ file. record file { owner = some ids })

  SparesChange-preserve :
      (source : FilePath) (permissions : ℕ) (ids : Option OwnerIds)
      → SparesChange q (preserve host source dest permissions ids)
  unfolding preserve
  SparesChange-preserve source permissions ids = record {
    at = λ disk.
        (SparesChange-set_owner ids).at _
        ∙ get_file-preserve_timestamps source _
        ∙ (SparesChange-try_modify (host.set_permissions dest)
              (λ file. record file { mode = some permissions })).at
            disk;
  }

module _ (B : Blake3) (host : Host) (q dest : FilePath) (other : (dest == q) ≢ true) where
  Spares-copy_chunks :
      (reads : List (Result IoError Bytes)) (written : ℕ) (hasher : B.Hasher)
      → Spares q (copy_chunks B host dest reads written hasher)
  unfolding copy_chunks
  Spares-copy_chunks [] written hasher = Spares-pure q (written, hasher)
  Spares-copy_chunks (err e ∷ rest) written hasher =
      Spares-fail q (file_error "Failed to read from source" e)
  Spares-copy_chunks (ok [] ∷ rest) written hasher = Spares-pure q (written, hasher)
  Spares-copy_chunks (ok (b ∷ bs) ∷ rest) written hasher =
      Spares-bind q _ _ (Spares-check q _ (host.write dest written)) λ _.
        Spares-bind q _ _
          (Spares-update q _ (SparesChange-modify_file q dest other (append_bytes (b ∷ bs))))
          λ _.
            Spares-copy_chunks rest (add_u64 written (length (b ∷ bs))) (B.update hasher (b ∷ bs))

  -- Whether the copy of a file succeeds or fails, a path other than its destination keeps its file.
  pub copy_single_file-Spares :
      (source : FilePath) (sync_file : Bool) (owner_ids : Option OwnerIds)
      → Spares q (copy_single_file B host source dest sync_file owner_ids)
  unfolding copy_single_file
  copy_single_file-Spares source sync_file owner_ids =
      Spares-bind q _ _ (Spares-open_files host q dest other source) λ opened.
        Spares-bind q _ _ (Spares-copy_chunks opened.1 0 B.new) λ copied.
          Spares-bind q _ _ (Spares-finish_file host q dest other sync_file) λ _.
            Spares-bind q _ _
              (Spares-update q _
                (SparesChange-preserve host q dest other source opened.0 owner_ids))
              λ _. Spares-pure q (copied.0, B.finalize copied.1)
