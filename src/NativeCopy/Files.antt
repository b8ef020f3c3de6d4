-- ===== src/NativeCopy/Files.antt =====
-- `copy_files_with_progress` of src/core/transfer_engine/native_copy.rs: the loop over the scanned files.
pub mod Rounds
pub mod Frame
pub mod Backup
use bksd.Base.{
  ℕ, ◌-◌, String, ◌<>◌, Bool, true, false, ◌||◌, Option, none, some, List, [], ◌∷◌, ◌++◌, map,
  Result, ok, err, length, take, is_empty, ltb, leb, ◌==◌, nat_eq, if◌then◌else◌, add_u64, sub_u64,
  show_nat,
}
use bksd.Storage.{FilePath, Bytes, OwnerIds, Disk, join, strip_prefix, show_relative}
use bksd.Storage.Host.{Host, Blake3, Float}
use bksd.Transfer.{FileHash, TransferStatus, in_progress}
use bksd.NativeCopy.Scan.{FileInfo}
use bksd.NativeCopy.File.{FileCopyError, copy_single_file}
use bksd.NativeCopy.Estimate.{percentage, calculate_eta}

abbrev pub progress_update_interval : ℕ
progress_update_interval = 1048576

-- An error that did not end the loop.
pub record CopyError : Type 0 where
  pub file : String
  pub message : String

pub record CopyOptions : Type 0 where
  pub sync_files : Bool
  pub owner_ids : Option OwnerIds

-- The loop's variables, with the disk and the statuses sent so far.
pub record CopyState : Type 0 where
  pub disk : Disk
  pub bytes_copied : ℕ
  pub last_progress_update : ℕ
  pub errors : List CopyError
  pub file_hashes : List FileHash
  pub sent : List TransferStatus

unfoldable pub initial : Disk → CopyState
initial disk = record {
  disk = disk;
  bytes_copied = 0;
  last_progress_update = 0;
  errors = [];
  file_hashes = [];
  sent = [];
}

-- Goes on unless the loop has been left by a `return`.
abbrev pub and_continue :
    Result String (Unit {0}) × CopyState
    → (CopyState → Result String (Unit {0}) × CopyState)
    → Result String (Unit {0}) × CopyState
and_continue (ok _, s) next = next s
and_continue (err message, s) next = (err message, s)

module _ (F : Float) (elapsed : FilePath → F.F64) (total_bytes : ℕ) where
  -- The progress update behind a copied file; `elapsed` is the time that has passed at that file.
  unfoldable pub send_progress : FilePath → CopyState → CopyState
  send_progress relative s =
      if leb progress_update_interval (sub_u64 s.bytes_copied s.last_progress_update)
        || s.bytes_copied == total_bytes
      then record s {
        sent =
            s.sent
            ++ in_progress total_bytes s.bytes_copied (show_relative relative)
                (percentage F s.bytes_copied total_bytes)
                (calculate_eta F (elapsed relative) s.bytes_copied total_bytes)
              ∷ [];
        last_progress_update = s.bytes_copied;
      }
      else s

  -- The match on the result of `copy_single_file`.
  unfoldable pub file_done :
      FilePath → Result FileCopyError (ℕ × Bytes) → CopyState → Result String (Unit {0}) × CopyState
  file_done relative (ok (file_bytes, hash)) s = (
    ok tt,
    send_progress relative (record s {
      bytes_copied = add_u64 s.bytes_copied file_bytes;
      file_hashes =
          s.file_hashes
          ++ (record { relative_path = relative; hash = hash; size = file_bytes }) ∷ [];
    }),
  )
  file_done relative (err e) s =
      if e.is_device_removed
      then (err ("Device removed during transfer at file: " <> show_relative relative), s)
      else (
        ok tt,
        record s {
          errors = s.errors ++ (record { file = show_relative relative; message = e.message }) ∷ [];
        },
      )

module _ (B : Blake3) (F : Float) (host : Host) (elapsed : FilePath → F.F64)
    (source destination : FilePath) (options : CopyOptions) (total_bytes : ℕ) where
  -- One round. A path outside the source is the panic of `expect`, which ends the blocking task.
  unfoldable pub copy_file : FileInfo → CopyState → Result String (Unit {0}) × CopyState
  copy_file info s = elim (strip_prefix source info.path) [
    | none ↦ (err "task panicked: file should be under source", s)
    | some relative ↦
        let (result, disk) =
          copy_single_file B host info.path (join destination relative) options.sync_files
            options.owner_ids s.disk in
        file_done F elapsed total_bytes relative result (record s { disk = disk })
  ]

  unfoldable pub copy_loop : List FileInfo → CopyState → Result String (Unit {0}) × CopyState
  copy_loop [] s = (ok tt, s)
  copy_loop (info ∷ files) s = and_continue (copy_file info s) (λ t. copy_loop files t)

-- `join("\n")`
unfoldable pub join_lines : List String → String
join_lines [] = ""
join_lines (l ∷ []) = l
join_lines (l ∷ k ∷ ls) = l <> ("\n" <> join_lines (k ∷ ls))

unfoldable pub error_summary : List CopyError → String
error_summary errors =
    "Transfer completed with "
    <> (show_nat (length errors)
        <> (" error(s):\n"
            <> join_lines (
                map (λ (e : CopyError). "  - " <> (e.file <> (": " <> e.message)))
                  (take 10 errors))))

-- Behind the loop: any error that was collected makes the transfer fail.
unfoldable pub report_errors : CopyState → Result String (ℕ × List FileHash)
report_errors s =
    if is_empty s.errors
    then ok (s.bytes_copied, s.file_hashes)
    else if ltb 10 (length s.errors)
    then err (
        error_summary s.errors
        <> ("\n  ... and " <> (show_nat (length s.errors - 10) <> " more errors")))
    else err (error_summary s.errors)

abbrev pub loop_result :
    Result String (Unit {0}) × CopyState → Result String (ℕ × List FileHash) × CopyState
loop_result (ok _, s) = (report_errors s, s)
loop_result (err message, s) = (err message, s)

-- The final state carries the disk and the statuses that were sent.
unfoldable pub copy_files_with_progress :
    (B : Blake3) (F : Float)
    → Host
    → (FilePath → F.F64)
    → FilePath
    → FilePath
    → List FileInfo
    → ℕ
    → CopyOptions
    → Disk
    → Result String (ℕ × List FileHash) × CopyState
copy_files_with_progress B F host elapsed source destination files total_bytes options disk =
    loop_result
      (copy_loop B F host elapsed source destination options total_bytes files (initial disk))
