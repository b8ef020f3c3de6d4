-- ===== src/Verifier/Backup.antt =====
-- The transfer and its verification together.
use bksd.Base.{
  ℕ, ◌≡◌, refl, ap, ◌∙◌, none, List, [], ◌∷◌, ok, arith, ==_self, list_eq, nat_eq, length,
}
use bksd.Storage.{FilePath, Disk}
use bksd.Storage.Host.{Host, Blake3, Float, IsStreaming, hash_of}
use bksd.Transfer.{FileHash}
use bksd.NativeCopy.Scan.{FileInfo}
use bksd.NativeCopy.Scan.Names.{DistinctPaths}
use bksd.NativeCopy.Files.{CopyOptions, CopyState, copy_files_with_progress}
use bksd.NativeCopy.Files.Backup.{IsBackedUp, AllBackedUp, copy_files-AllBackedUp}
use bksd.Verifier.{Reader, verify_from_hashes}
use bksd.Verifier.Files.{IsFaithful, judge}
use bksd.Verifier.Outcome.{mismatches_of, verify_from_hashes_lem}

module _ (B : Blake3) (host : Host) (source destination : FilePath) (disk : Disk) where
  judge-IsBackedUp :
      (info : FileInfo) (fh : FileHash)
      → IsBackedUp B host source destination disk info fh
      → judge B disk destination fh ≡ none
  unfolding judge
  judge-IsBackedUp info fh b =
      let (file, there, bytes) = b.holds in
      rw (there, judge) (ground (arith, ==_self fh.hash, b.hashed, ap (hash_of B) bytes))

  mismatches_of-AllBackedUp :
      (files : List FileInfo) (hashes : List FileHash)
      → AllBackedUp B host source destination disk files hashes
      → mismatches_of B disk destination hashes ≡ []
  unfolding mismatches_of
  mismatches_of-AllBackedUp [] [] b = refl
  mismatches_of-AllBackedUp (info ∷ files) (fh ∷ hashes) b =
      rw (judge-IsBackedUp info fh b.0) (mismatches_of-AllBackedUp files hashes b.1)
  mismatches_of-AllBackedUp [] (fh ∷ hashes) b = absurd b
  mismatches_of-AllBackedUp (info ∷ files) [] b = absurd b

module _ (B : Blake3) (F : Float) (host : Host) (elapsed : FilePath → F.F64)
    (source destination : FilePath) (options : CopyOptions) (total_bytes : ℕ) (S : IsStreaming B)
    (reader : Reader) (R : IsFaithful reader) where
  -- With a hasher that hashes the concatenation of its updates: a transfer of files with distinct
  -- paths that succeeds passes its verification, if the destination is unchanged and can be read:
  -- all files are counted, and the verified bytes are the copied bytes.
  pub verify-copy_files :
      (files : List FileInfo) (disk : Disk) {n : ℕ} {hashes : List FileHash} {t : CopyState}
      → DistinctPaths files
      → copy_files_with_progress B F host elapsed source destination files total_bytes options disk
        ≡ (ok (n, hashes), t)
      → verify_from_hashes B reader t.disk destination hashes
        ≡ ok (record { files_verified = length files; bytes_verified = n })
  verify-copy_files files disk {n} {hashes} {t} distinct ran =
      let (backed, counted) =
        copy_files-AllBackedUp B F host elapsed source destination options total_bytes S files disk
          distinct ran in
      verify_from_hashes_lem B S reader R t.disk destination hashes
      ∙ rw (mismatches_of-AllBackedUp B host source destination t.disk files hashes backed)
          (ap ok (rw (← counted, lengths t.disk files hashes backed) refl))
    where
      lengths :
          (d : Disk) (fs : List FileInfo) (hs : List FileHash)
          → AllBackedUp B host source destination d fs hs
          → length hs ≡ length fs
      lengths d [] [] b = refl
      lengths d (f ∷ fs) (h ∷ hs) b = omega (arith, lengths d fs hs b.1)
      lengths d [] (h ∷ hs) b = absurd b
      lengths d (f ∷ fs) [] b = absurd b
