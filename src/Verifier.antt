-- ===== src/Verifier.antt =====
-- src/core/verifier.rs: the check of the destination against the hashes of the transfer. `job_id` is only
-- logged and is left out.
pub mod Files
pub mod Outcome
pub mod Backup
use bksd.Base.{
  ℕ, ◌-◌, String, ◌<>◌, Bool, true, false, not, Option, none, some, List, [], ◌∷◌, ◌++◌, Result, ok,
  err, length, take, is_empty, ltb, ◌==◌, nat_eq, list_eq, if◌then◌else◌, add_u64, show_nat,
}
use bksd.Storage.{
  FilePath, IoError, Bytes, Disk, DiskFile, get_file, path_exists, join, show_path, show_relative,
}
use bksd.Storage.Host.{Blake3}
use bksd.Transfer.{FileHash}

pub record VerifyResult : Type 0 where
  pub files_verified : ℕ
  pub bytes_verified : ℕ

pub data MismatchReason : Type 0 where
  hash_mismatch missing_in_destination : MismatchReason

pub record FileMismatch : Type 0 where
  pub relative_path : FilePath
  pub reason : MismatchReason

-- How the system answers when the destination is read: whether a file can be opened, what the calls
-- of `read` give for a file with given bytes, and the error for a path that is no file.
pub record Reader : Type 0 where
  pub open_error : FilePath → Option IoError
  pub reads : FilePath → Bytes → List (Result IoError Bytes)
  pub no_file : IoError

module _ (B : Blake3) where
  -- The loop of reads of `hash_file_sync`.
  unfoldable pub hash_reads : List (Result IoError Bytes) → B.Hasher → Result String Bytes
  hash_reads [] hasher = ok (B.finalize hasher)
  hash_reads (err e ∷ rest) hasher = err e.message
  hash_reads (ok [] ∷ rest) hasher = ok (B.finalize hasher)
  hash_reads (ok (b ∷ bs) ∷ rest) hasher = hash_reads rest (B.update hasher (b ∷ bs))

module _ (B : Blake3) (reader : Reader) (disk : Disk) where
  abbrev hash_opened : FilePath → Option DiskFile → Result String Bytes
  hash_opened path none = err reader.no_file.message
  hash_opened path (some file) = hash_reads B (reader.reads path file.content) B.new

  unfoldable pub hash_file_sync : FilePath → Result String Bytes
  hash_file_sync path = elim (reader.open_error path) [
    | some e ↦ err ("Failed to open " <> (show_path path <> (": " <> e.message)))
    | none ↦ hash_opened path (get_file path disk)
  ]

-- The variables of the verification loop.
pub record VerifyState : Type 0 where
  pub mismatches : List FileMismatch
  pub bytes_verified : ℕ

abbrev pub push_mismatch : FilePath → MismatchReason → VerifyState → VerifyState
push_mismatch relative reason s = record s {
  mismatches = s.mismatches ++ (record { relative_path = relative; reason = reason }) ∷ [];
}

-- The match on the result of `hash_file_sync`.
unfoldable pub compare_hash : FileHash → Result String Bytes → VerifyState → VerifyState
compare_hash fh (ok dest_hash) s =
    if not (dest_hash == fh.hash)
    then push_mismatch fh.relative_path hash_mismatch s
    else record s { bytes_verified = add_u64 s.bytes_verified fh.size }
compare_hash fh (err e) s = push_mismatch fh.relative_path hash_mismatch s

module _ (B : Blake3) (reader : Reader) (disk : Disk) (destination : FilePath) where
  -- The body of the loop.
  unfoldable pub verify_file : FileHash → VerifyState → VerifyState
  verify_file fh s =
      if not (path_exists (join destination fh.relative_path) disk)
      then push_mismatch fh.relative_path missing_in_destination s
      else compare_hash fh (hash_file_sync B reader disk (join destination fh.relative_path)) s

  unfoldable pub verify_loop : List FileHash → VerifyState → VerifyState
  verify_loop [] s = s
  verify_loop (fh ∷ hashes) s = verify_loop hashes (verify_file fh s)

abbrev pub reason_text : MismatchReason → String
reason_text hash_mismatch = "hash mismatch"
reason_text missing_in_destination = "missing in destination"

-- The lines for the first mismatches.
unfoldable pub mismatch_lines : List FileMismatch → String
mismatch_lines [] = ""
mismatch_lines (m ∷ ms) =
    "\n  - "
    <> (show_relative m.relative_path <> (": " <> (reason_text m.reason <> mismatch_lines ms)))

unfoldable pub format_mismatch_error : List FileMismatch → String
format_mismatch_error mismatches =
    "Verification failed: "
    <> (show_nat (length mismatches)
        <> (" file(s) did not match"
            <> (mismatch_lines (take 10 mismatches)
                <> (if ltb 10 (length mismatches)
                    then "\n  ... and " <> (show_nat (length mismatches - 10) <> " more")
                    else ""))))

-- Behind the loop.
abbrev pub report_mismatches : ℕ → VerifyState → Result String VerifyResult
report_mismatches total s =
    if not (is_empty s.mismatches)
    then err (format_mismatch_error s.mismatches)
    else ok (record { files_verified = total; bytes_verified = s.bytes_verified })

unfoldable pub verify_from_hashes :
    (B : Blake3) → Reader → Disk → FilePath → List FileHash → Result String VerifyResult
verify_from_hashes B reader disk destination hashes =
    if length hashes == 0
    then ok (record { files_verified = 0; bytes_verified = 0 })
    else report_mismatches (length hashes) (
        verify_loop B reader disk destination hashes
          (record { mismatches = []; bytes_verified = 0 }))
