-- ===== src/Verifier/Outcome.antt =====
-- The result of a verification, described without its loop.
use bksd.Base.{
  ℕ, suc, ◌+◌, ◌%◌, ◌<◌, String, ◌≡◌, refl, ap, ◌∙◌, false, Option, none, some, List, [], ◌∷◌, ◌++◌,
  Result, ok, err, Option-cases, inl, inr, arith, ◌==◌, list_eq, nat_eq, append-nil, append_assoc,
  length, is_empty, add_u64, u64_mod, if◌then◌else◌,
}
use bksd.Storage.{FilePath, Disk}
use bksd.Storage.Host.{Blake3, IsStreaming}
use bksd.Transfer.{FileHash}
use bksd.NativeCopy.Files.Backup.{sum_hashed}
use bksd.Verifier.{
  Reader, VerifyState, VerifyResult, FileMismatch, MismatchReason, verify_loop, push_mismatch,
  report_mismatches, format_mismatch_error, verify_from_hashes,
}
use bksd.Verifier.Files.{IsFaithful, judge, record_verdict, verify_file-judge}

suc_not_zero : (n : ℕ) → (suc n == 0) ≡ false
suc_not_zero n = ground arith

module _ (B : Blake3) (disk : Disk) (destination : FilePath) where
  abbrev add_verdict : FilePath → Option MismatchReason → List FileMismatch → List FileMismatch
  add_verdict relative none ms = ms
  add_verdict relative (some reason) ms =
      (record { relative_path = relative; reason = reason }) ∷ ms

  -- All entries whose file is missing or has another hash, in order.
  unfoldable pub mismatches_of : List FileHash → List FileMismatch
  mismatches_of [] = []
  mismatches_of (fh ∷ hashes) =
      add_verdict fh.relative_path (judge B disk destination fh) (mismatches_of hashes)

  abbrev size_if : FileHash → Option MismatchReason → ℕ
  size_if fh none = fh.size
  size_if fh (some reason) = 0

  -- The sizes of the entries whose file is right.
  unfoldable matched_bytes : List FileHash → ℕ
  matched_bytes [] = 0
  matched_bytes (fh ∷ hashes) = size_if fh (judge B disk destination fh) + matched_bytes hashes

  matched_bytes-all :
      (hashes : List FileHash)
      → mismatches_of hashes ≡ []
      → matched_bytes hashes ≡ sum_hashed hashes
  unfolding mismatches_of matched_bytes sum_hashed
  matched_bytes-all [] e = refl
  matched_bytes-all (fh ∷ hashes) e = ground (arith, matched_bytes-all hashes)

module _ (B : Blake3) (S : IsStreaming B) (reader : Reader) (R : IsFaithful reader) (disk : Disk)
    (destination : FilePath) where
  verify_loop-mismatches :
      (hashes : List FileHash) (s : VerifyState)
      → s.bytes_verified < u64_mod
      → verify_loop B reader disk destination hashes s ≡ record {
        mismatches = s.mismatches ++ mismatches_of B disk destination hashes;
        bytes_verified = (s.bytes_verified + matched_bytes B disk destination hashes) % u64_mod;
      }
  unfolding verify_loop mismatches_of matched_bytes record_verdict
  verify_loop-mismatches [] s small = ground (arith, append-nil s.mismatches)
  verify_loop-mismatches (fh ∷ hashes) s small = elim (Option-cases (judge B disk destination fh)) [
    | inl fine ↦ rw (verify_file-judge B S reader R disk destination fh s) (
        rw (fine, record_verdict)
          (verify_loop-mismatches hashes
              (record s { bytes_verified = add_u64 s.bytes_verified fh.size }) (omega arith)
            ∙ ground arith))
    | inr (reason, bad) ↦ rw (verify_file-judge B S reader R disk destination fh s) (
        rw (bad, record_verdict)
          (verify_loop-mismatches hashes (push_mismatch fh.relative_path reason s) small
            ∙ ground (
              arith,
              append_assoc s.mismatches
                  ((record { relative_path = fh.relative_path; reason = reason }) ∷ [])
                  (mismatches_of B disk destination hashes),
            )))
  ]

  abbrev expected : List FileHash → Result String VerifyResult
  expected hashes =
      if is_empty (mismatches_of B disk destination hashes)
      then ok
          (record { files_verified = length hashes; bytes_verified = sum_hashed hashes % u64_mod })
      else err (format_mismatch_error (mismatches_of B disk destination hashes))

  report_loop :
      (hashes : List FileHash)
      → report_mismatches (length hashes) (
          verify_loop B reader disk destination hashes
            (record { mismatches = []; bytes_verified = 0 }))
        ≡ expected hashes
  report_loop hashes =
      rw
        (verify_loop-mismatches hashes (record { mismatches = []; bytes_verified = 0 })
          (omega arith))
        (go (mismatches_of B disk destination hashes) refl)
    where
      go :
          (bad : List FileMismatch)
          → mismatches_of B disk destination hashes ≡ bad
          → report_mismatches (length hashes) (record {
            mismatches = mismatches_of B disk destination hashes;
            bytes_verified = (0 + matched_bytes B disk destination hashes) % u64_mod;
          })
            ≡ expected hashes
      go [] e = rw e (
          ap (λ k. ok (record { files_verified = length hashes; bytes_verified = k }))
            (omega (arith, matched_bytes-all B disk destination hashes e)))
      go (m ∷ ms) e = rw e

  -- With a hasher that hashes the concatenation of its updates: where the destination can be
  -- read, a verification succeeds exactly when no entry's file is missing or has another hash,
  -- and then counts all entries and the sum of their sizes as a 64-bit number. Otherwise it fails
  -- with the message about all such entries, in order.
  pub verify_from_hashes_lem :
      (hashes : List FileHash)
      → let bad = mismatches_of B disk destination hashes in
        verify_from_hashes B reader disk destination hashes ≡ (
          if is_empty bad
          then ok (record {
            files_verified = length hashes;
            bytes_verified = sum_hashed hashes % u64_mod;
          })
          else err (format_mismatch_error bad))
  unfolding verify_from_hashes mismatches_of sum_hashed
  verify_from_hashes_lem [] = refl
  verify_from_hashes_lem (fh ∷ hashes) =
      rw (suc_not_zero (length hashes)) (report_loop (fh ∷ hashes))
