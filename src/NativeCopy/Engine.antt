-- ===== src/NativeCopy/Engine.antt =====
-- `NativeCopyEngine::transfer` of src/core/transfer_engine/native_copy.rs: its phases, and the statuses
-- that it sends. The channel never stops the engine: the results of `send` are dropped.
pub mod Protocol
pub mod Success
pub mod Safety
use bksd.Base.{
  ℕ, String, ◌<>◌, Bool, true, false, Option, none, some, List, [], ◌∷◌, ◌++◌, Result, ok, err,
  if◌then◌else◌,
}
use bksd.Storage.{FilePath, OwnerIds, Disk, path_exists, add_dirs, show_path}
use bksd.Storage.Host.{Host, Blake3, Float}
use bksd.Transfer.{
  FileHash, FileOwner, TransferRequest, TransferResult, TransferStatus, ready, failed,
}
use bksd.NativeCopy.Scan.{Listing, ScanResult, scan_directory}
use bksd.NativeCopy.Dirs.{resolve_owner, create_directory_structure}
use bksd.NativeCopy.Files.{CopyOptions, CopyState, copy_files_with_progress}

-- What a transfer returns, the disk that it leaves and the statuses that it has sent.
pub record EngineRun : Type 0 where
  pub result : Result String TransferResult
  pub disk : Disk
  pub sent : List TransferStatus

-- An error is reported on the channel and returned.
abbrev pub fail_run : String → Disk → List TransferStatus → EngineRun
fail_run msg disk sent = record { result = err msg; disk = disk; sent = sent ++ failed msg ∷ [] }

abbrev ids_or_none : Result String OwnerIds → Option OwnerIds
ids_or_none (ok ids) = some ids
ids_or_none (err e) = none

-- An owner that cannot be resolved is logged and left out.
unfoldable pub owner_ids_of : Host → Option FileOwner → Option OwnerIds
owner_ids_of host none = none
owner_ids_of host (some owner) = ids_or_none (resolve_owner host owner)

-- Behind the copy of the files; `duration_secs` is `start_time.elapsed().as_secs()`.
abbrev pub copied_run : ℕ → Result String (ℕ × List FileHash) × CopyState → EngineRun
copied_run duration_secs (ok (bytes_copied, file_hashes), s) = record {
  result = ok (record {
    total_bytes = bytes_copied;
    duration_secs = duration_secs;
    file_hashes = some file_hashes;
  });
  disk = s.disk;
  sent = ready ∷ s.sent;
}
copied_run duration_secs (err e, s) = fail_run ("Transfer failed: " <> e) s.disk (ready ∷ s.sent)

-- A default engine has `sync_files` set.
pub record NativeCopyEngine : Type 0 where
  pub sync_files : Bool

abbrev pub default_engine : NativeCopyEngine
default_engine = record { sync_files = true }

module _ (B : Blake3) (F : Float) (host : Host) (elapsed : FilePath → F.F64) (duration_secs : ℕ)
    (engine : NativeCopyEngine) (req : TransferRequest) where
  abbrev pub options_of : CopyOptions
  options_of = record { sync_files = engine.sync_files; owner_ids = owner_ids_of host req.owner }

  -- Phase 3, if phase 2 succeeded.
  unfoldable pub copy_phase : ScanResult → Result String (Unit {0}) × Disk → EngineRun
  copy_phase scan (err e, disk) =
      fail_run ("Failed to create directory structure: " <> e) disk (ready ∷ [])
  copy_phase scan (ok _, disk) = copied_run duration_secs (
      copy_files_with_progress B F host elapsed req.source req.destination scan.files
        scan.total_bytes options_of disk)

  -- Phase 2, if phase 1 succeeded.
  unfoldable pub scanned_phase : Disk → Result String ScanResult → EngineRun
  scanned_phase disk (err e) = fail_run ("Failed to scan source directory: " <> e) disk (ready ∷ [])
  scanned_phase disk (ok scan) = copy_phase scan (
      create_directory_structure host req.source req.destination (owner_ids_of host req.owner)
        scan.directories disk)

  -- `device` is the tree that the scan reads.
  unfoldable pub transfer : Listing → Disk → EngineRun
  transfer device disk =
      if path_exists req.destination disk
      then fail_run
          ("Destination already exists: "
            <> (show_path req.destination <> ". Refusing to overwrite."))
          disk (ready ∷ [])
      else elim (host.create_dir_all req.destination) [
        | some e ↦
            fail_run ("Failed to create destination directory: " <> e.message) disk (ready ∷ [])
        | none ↦ scanned_phase (add_dirs req.destination disk) (scan_directory req.source device)
      ]
