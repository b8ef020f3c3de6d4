-- ===== src/Verifier/Files.antt =====
-- How one file is judged: against what stands on the disk, where reading works.
use bksd.Base.{
  ◌≡◌, sym, ap, ◌∙◌, Option, none, some, List, [], ◌∷◌, ◌++◌, Result, ok, err, ok-injective,
  Result-cases, Option-cases, inl, inr, arith, ◌==◌, list_eq, nat_eq, add_u64, if◌then◌else◌,
}
use bksd.Storage.{FilePath, IoError, Bytes, Disk, DiskFile, get_file, path_exists, join}
use bksd.Storage.Host.{Blake3, IsStreaming, hash_of}
use bksd.Transfer.{FileHash}
use bksd.NativeCopy.File.Content.{read_all}
use bksd.Verifier.{
  Reader, MismatchReason, VerifyState, hash_reads, hash_file_sync, compare_hash, verify_file,
  push_mismatch, hash_mismatch, missing_in_destination,
}

-- Reading works: every file opens, and its reads give its bytes.
pub record IsFaithful (reader : Reader) : Type 0 where
  pub opens : (path : FilePath) → reader.open_error path ≡ none
  pub reads_all :
      (path : FilePath) (content : Bytes) → read_all (reader.reads path content) ≡ ok content

module _ (B : Blake3) (S : IsStreaming B) where
  update_of_nil :
      (content : Bytes) (hasher : B.Hasher) → [] ≡ content → B.update hasher content ≡ hasher
  update_of_nil content hasher e = ap (B.update hasher) (sym e) ∙ S.update-nil hasher

  pub hash_reads-read_all :
      (reads : List (Result IoError Bytes)) (content : Bytes) (hasher : B.Hasher)
      → read_all reads ≡ ok content
      → hash_reads B reads hasher ≡ ok (B.finalize (B.update hasher content))
  unfolding hash_reads read_all
  hash_reads-read_all [] content hasher e =
      ap (λ h. ok (B.finalize h)) (sym (update_of_nil content hasher (ok-injective [] content e)))
  hash_reads-read_all (err x ∷ rest) content hasher e = cc
  hash_reads-read_all (ok [] ∷ rest) content hasher e =
      ap (λ h. ok (B.finalize h)) (sym (update_of_nil content hasher (ok-injective [] content e)))
  hash_reads-read_all (ok (b ∷ bs) ∷ rest) content hasher e = elim (Result-cases (read_all rest)) [
    | inl (tail, k) ↦
        hash_reads-read_all rest tail (B.update hasher (b ∷ bs)) k
        ∙ ap (λ h. ok (B.finalize h))
            (S.update-append hasher (b ∷ bs) tail
              ∙ ap (B.update hasher)
                  (ok-injective {E = IoError} ((b ∷ bs) ++ tail) content (rw (k, read_all) at e)))
    | inr (x, k) ↦ absurd (err_case (rw (k, read_all) at e))
  ]
    where
      err_case : {x : IoError} → ◌≡◌ {A = Result IoError Bytes} (err x) (ok content) → ⊥
      err_case q = cc

-- The judgement on the file that an entry names, by what stands on the disk.
unfoldable pub judge : (B : Blake3) → Disk → FilePath → FileHash → Option MismatchReason
judge B disk destination fh = elim (get_file (join destination fh.relative_path) disk) [
  | some file ↦ if hash_of B file.content == fh.hash then none else some hash_mismatch
  | none ↦
      if path_exists (join destination fh.relative_path) disk
      then some hash_mismatch
      else some missing_in_destination
]

unfoldable pub record_verdict : FileHash → Option MismatchReason → VerifyState → VerifyState
record_verdict fh none s = record s { bytes_verified = add_u64 s.bytes_verified fh.size }
record_verdict fh (some reason) s = push_mismatch fh.relative_path reason s

module _ (B : Blake3) (S : IsStreaming B) (reader : Reader) (R : IsFaithful reader) (disk : Disk)
    (destination : FilePath) where
  hash_file_sync-file :
      (path : FilePath) (file : DiskFile)
      → get_file path disk ≡ some file
      → hash_file_sync B reader disk path ≡ ok (hash_of B file.content)
  unfolding hash_file_sync
  hash_file_sync-file path file there =
      rw (R.opens path, hash_file_sync)
        (rw (there, hash_file_sync)
          (hash_reads-read_all B S (reader.reads path file.content) file.content B.new
            (R.reads_all path file.content)))

  hash_file_sync-none :
      (path : FilePath)
      → get_file path disk ≡ none
      → hash_file_sync B reader disk path ≡ err reader.no_file.message
  unfolding hash_file_sync
  hash_file_sync-none path missing =
      rw (R.opens path, hash_file_sync) (rw (missing, hash_file_sync))

  -- Where reading works, a round of the verification judges its entry by the disk alone.
  pub verify_file-judge :
      (fh : FileHash) (s : VerifyState)
      → verify_file B reader disk destination fh s
        ≡ record_verdict fh (judge B disk destination fh) s
  unfolding verify_file compare_hash judge record_verdict path_exists
  verify_file-judge fh s = elim (Option-cases (get_file (join destination fh.relative_path) disk)) [
    | inl missing ↦
        ground (arith, missing, hash_file_sync-none (join destination fh.relative_path) missing)
    | inr (file, there) ↦
        ground (arith, hash_file_sync-file (join destination fh.relative_path) file there)
  ]
