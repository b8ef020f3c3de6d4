-- ===== src/NativeCopy/Engine/Protocol.antt =====
-- The statuses that the engine sends, in relation to what it returns.
use bksd.Base.{
  ℕ, String, ◌≡◌, refl, Bool, true, false, some, List, [], ◌∷◌, ◌++◌, Result, ok, err, Option-cases,
  Bool-cases, inl, inr, All, All-append, if◌then◌else◌,
}
use bksd.Storage.{FilePath, Bytes, Disk, join, strip_prefix, path_exists, show_relative}
use bksd.Storage.Host.{Host, Blake3, Float}
use bksd.Transfer.{
  FileHash, TransferRequest, TransferResult, TransferStatus, ready, in_progress, failed,
}
use bksd.NativeCopy.Scan.{FileInfo, Listing, ScanResult}
use bksd.NativeCopy.File.{FileCopyError, copy_single_file}
use bksd.NativeCopy.Files.{
  CopyOptions, CopyState, initial, and_continue, send_progress, file_done, copy_file, copy_loop,
  loop_result, copy_files_with_progress,
}
use bksd.NativeCopy.Estimate.{percentage, calculate_eta}
use bksd.NativeCopy.Engine.{
  NativeCopyEngine, fail_run, copied_run, copy_phase, scanned_phase, transfer,
}

abbrev pub IsProgress : TransferStatus → Type 0
IsProgress (in_progress total copied file percentage eta) = Unit
IsProgress _ = ⊥

-- What has been sent when a transfer returns: `Ready`, progress updates, and one failure with the
-- text of the error exactly if it returns an error. A transfer that succeeds returns hashes.
abbrev pub FollowsProtocol : Result String TransferResult → List TransferStatus → Type 0
FollowsProtocol (ok r) sent =
    (updates : List TransferStatus) × (sent ≡ ready ∷ updates)
    × All IsProgress updates
    × ((hashes : List FileHash) × (r.file_hashes ≡ some hashes))
FollowsProtocol (err msg) sent =
    (updates : List TransferStatus) × (sent ≡ ready ∷ (updates ++ failed msg ∷ []))
    × All IsProgress updates

module _ (F : Float) (elapsed : FilePath → F.F64) (total_bytes : ℕ) where
  IsProgress-send_progress :
      (relative : FilePath) (s : CopyState)
      → All IsProgress s.sent
      → All IsProgress (send_progress F elapsed total_bytes relative s).sent
  unfolding send_progress
  IsProgress-send_progress relative s h =
      either _ (record s { sent = s.sent ++ update ∷ []; last_progress_update = s.bytes_copied }) s
        (All-append IsProgress s.sent (update ∷ []) h (tt, tt)) h
    where
      update : TransferStatus
      update =
          in_progress total_bytes s.bytes_copied (show_relative relative)
            (percentage F s.bytes_copied total_bytes)
            (calculate_eta F (elapsed relative) s.bytes_copied total_bytes)

      either :
          (b : Bool) (x y : CopyState)
          → All IsProgress x.sent
          → All IsProgress y.sent
          → All IsProgress (if b then x else y).sent
      either true x y hx hy = hx
      either false x y hx hy = hy

  IsProgress-file_done :
      (relative : FilePath) (result : Result FileCopyError (ℕ × Bytes)) (s : CopyState)
      → All IsProgress s.sent
      → All IsProgress (file_done F elapsed total_bytes relative result s).1.sent
  unfolding file_done
  IsProgress-file_done relative (ok (n, h)) s sent = IsProgress-send_progress relative _ sent
  IsProgress-file_done relative (err e) s sent = elim (Bool-cases e.is_device_removed) [
    | inl gone ↦ rw gone sent
    | inr stays ↦ rw stays sent
  ]

module _ (B : Blake3) (F : Float) (host : Host) (elapsed : FilePath → F.F64)
    (source destination : FilePath) (options : CopyOptions) (total_bytes : ℕ) where
  IsProgress-copy_file :
      (info : FileInfo) (s : CopyState)
      → All IsProgress s.sent
      → All IsProgress
          (copy_file B F host elapsed source destination options total_bytes info s).1.sent
  unfolding copy_file
  IsProgress-copy_file info s sent = elim (Option-cases (strip_prefix source info.path)) [
    | inl outside ↦ rw (outside, copy_file) sent
    | inr (relative, below) ↦
        rw (below, copy_file)
          (IsProgress-file_done F elapsed total_bytes relative
            (copy_single_file B host info.path (join destination relative) options.sync_files
              options.owner_ids s.disk).0
            _ sent)
  ]

  IsProgress-and_continue :
      (r : Result String (Unit {0}) × CopyState)
      (next : CopyState → Result String (Unit {0}) × CopyState)
      → All IsProgress r.1.sent
      → ((t : CopyState) → All IsProgress t.sent → All IsProgress (next t).1.sent)
      → All IsProgress (and_continue r next).1.sent
  IsProgress-and_continue (ok _, t) next h keep = keep t h
  IsProgress-and_continue (err m, t) next h keep = h

  IsProgress-copy_loop :
      (files : List FileInfo) (s : CopyState)
      → All IsProgress s.sent
      → All IsProgress
          (copy_loop B F host elapsed source destination options total_bytes files s).1.sent
  unfolding copy_loop
  IsProgress-copy_loop [] s sent = sent
  IsProgress-copy_loop (info ∷ files) s sent =
      IsProgress-and_continue _ _ (IsProgress-copy_file info s sent)
        (λ t h. IsProgress-copy_loop files t h)

  sent-loop_result : (r : Result String (Unit {0}) × CopyState) → (loop_result r).1.sent ≡ r.1.sent
  sent-loop_result (ok _, t) = refl
  sent-loop_result (err m, t) = refl

  IsProgress-copy_files :
      (files : List FileInfo) (disk : Disk)
      → All IsProgress
          (copy_files_with_progress B F host elapsed source destination files total_bytes options
            disk).1.sent
  unfolding copy_files_with_progress initial
  IsProgress-copy_files files disk =
      rw
        (sent-loop_result
          (copy_loop B F host elapsed source destination options total_bytes files (initial disk)))
        (IsProgress-copy_loop files (initial disk) tt)

fail_run-FollowsProtocol :
    (msg : String) (disk : Disk)
    → let run = fail_run msg disk (ready ∷ []) in FollowsProtocol run.result run.sent
fail_run-FollowsProtocol msg disk = ([], refl, tt)

copied_run-FollowsProtocol :
    (duration_secs : ℕ) (r : Result String (ℕ × List FileHash) × CopyState)
    → All IsProgress r.1.sent
    → let run = copied_run duration_secs r in FollowsProtocol run.result run.sent
copied_run-FollowsProtocol duration_secs (ok (n, hashes), s) h = (s.sent, refl, h, (hashes, refl))
copied_run-FollowsProtocol duration_secs (err e, s) h = (s.sent, refl, h)

module _ (B : Blake3) (F : Float) (host : Host) (elapsed : FilePath → F.F64) (duration_secs : ℕ)
    (engine : NativeCopyEngine) (req : TransferRequest) where
  copy_phase-FollowsProtocol :
      (scan : ScanResult) (made : Result String (Unit {0}) × Disk)
      → let run = copy_phase B F host elapsed duration_secs engine req scan made in
        FollowsProtocol run.result run.sent
  unfolding copy_phase
  copy_phase-FollowsProtocol scan (err e, disk) = fail_run-FollowsProtocol _ disk
  copy_phase-FollowsProtocol scan (ok _, disk) = copied_run-FollowsProtocol duration_secs _ (
      IsProgress-copy_files B F host elapsed req.source req.destination _ scan.total_bytes
        scan.files disk)

  scanned_phase-FollowsProtocol :
      (disk : Disk) (scan : Result String ScanResult)
      → let run = scanned_phase B F host elapsed duration_secs engine req disk scan in
        FollowsProtocol run.result run.sent
  unfolding scanned_phase
  scanned_phase-FollowsProtocol disk (err e) = fail_run-FollowsProtocol _ disk
  scanned_phase-FollowsProtocol disk (ok scan) = copy_phase-FollowsProtocol scan _

  -- Every transfer first sends `Ready`, then only progress updates. If it returns an error it has
  -- sent, last and once, a failure with the error's text; if it succeeds it has sent no failure and
  -- returns the hashes of the files.
  pub transfer-FollowsProtocol :
      (device : Listing) (disk : Disk)
      → let run = transfer B F host elapsed duration_secs engine req device disk in
        FollowsProtocol run.result run.sent
  unfolding transfer
  transfer-FollowsProtocol device disk = elim (Bool-cases (path_exists req.destination disk)) [
    | inl there ↦ rw there (fail_run-FollowsProtocol _ disk)
    | inr free ↦ rw free (elim (Option-cases (host.create_dir_all req.destination)) [
      | inl made ↦ rw (made, transfer) (scanned_phase-FollowsProtocol _ _)
      | inr (e, refused) ↦ rw (refused, transfer) (fail_run-FollowsProtocol _ disk)
    ])
  ]
