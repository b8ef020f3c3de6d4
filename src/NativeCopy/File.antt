-- ===== src/NativeCopy/File.antt =====
-- `copy_single_file` and `preserve_timestamps` of src/core/transfer_engine/native_copy.rs.
pub mod Frame
pub mod Content
use bksd.Base.{
  ℕ, String, ◌<>◌, Bool, true, false, Option, none, some, List, [], ◌∷◌, ◌++◌, Result, ok, err,
  length, add_u64,
}
use bksd.Storage.{FilePath, IoError, Bytes, OwnerIds, Disk, DiskFile, create_file, modify_file}
use bksd.Storage.Exec.{Exec, pure, fail, update, ◌>>=◌, ◌>>◌}
use bksd.Storage.Host.{Host, Blake3}
use bksd.NativeCopy.Errors.{is_device_removed_error}

pub record FileCopyError : Type 0 where
  pub message : String
  pub is_device_removed : Bool

-- The closures of the calls of `map_err`.
unfoldable pub file_error : String → IoError → FileCopyError
file_error doing e = record {
  message = doing <> (": " <> e.message);
  is_device_removed = is_device_removed_error e;
}

unfoldable pub check : String → Option IoError → Exec FileCopyError Unit
unfolding pure fail
check doing none = pure tt
check doing (some e) = fail (file_error doing e)

unfoldable pub from_io : {A : Type 0} → String → Result IoError A → Exec FileCopyError A
unfolding pure fail
from_io doing (ok a) = pure a
from_io doing (err e) = fail (file_error doing e)

unfoldable pub append_bytes : Bytes → DiskFile → DiskFile
append_bytes bytes file = record file { content = file.content ++ bytes }

module _ (host : Host) where
  -- Up to the creation of the destination file: the permissions and the results of the reads.
  unfoldable pub open_files :
      FilePath → FilePath → Exec FileCopyError (ℕ × List (Result IoError Bytes))
  open_files source dest = do
    permissions ← from_io "Failed to read source metadata" (host.metadata source)
    reads ← from_io "Failed to open source file" (host.open_file source)
    check "Failed to create destination file" (host.create dest)
    update (create_file dest)
    pure (permissions, reads)

  -- Behind the loop: the flush, and the sync if it is asked for.
  unfoldable pub finish_file : FilePath → Bool → Exec FileCopyError Unit
  finish_file dest false = check "Failed to flush destination file" (host.flush dest)
  finish_file dest true = do
    check "Failed to flush destination file" (host.flush dest)
    check "Failed to get inner file handle" (host.into_inner dest)
    check "Failed to sync file" (host.sync_all dest)

  -- Sets an attribute unless the call for it fails; the failure is logged and dropped.
  unfoldable pub try_modify : Option IoError → FilePath → (DiskFile → DiskFile) → Disk → Disk
  try_modify none dest change disk = modify_file dest change disk
  try_modify (some e) dest change disk = disk

  unfoldable pub preserve_timestamps : FilePath → FilePath → Exec IoError Unit
  preserve_timestamps source dest disk = elim (host.times source) [
    | err e ↦ (err e, disk)
    | ok t ↦ elim (host.set_file_times dest) [
      | some e ↦ (err e, disk)
      | none ↦ (ok tt, modify_file dest (λ file. record file { times = some t }) disk)
    ]
  ]

  unfoldable pub set_owner : FilePath → Option OwnerIds → Disk → Disk
  set_owner dest none disk = disk
  set_owner dest (some ids) disk =
      try_modify (host.chown dest) dest (λ file. record file { owner = some ids }) disk

  -- Permissions, times and owner.
  unfoldable pub preserve : FilePath → FilePath → ℕ → Option OwnerIds → Disk → Disk
  preserve source dest permissions owner_ids disk =
      let permitted =
        try_modify (host.set_permissions dest) dest
          (λ file. record file { mode = some permissions }) disk in
      set_owner dest owner_ids (preserve_timestamps source dest permitted).1

module _ (B : Blake3) (host : Host) where
  -- The loop of reads. An empty read is the end of the file.
  unfoldable pub copy_chunks :
      FilePath → List (Result IoError Bytes) → ℕ → B.Hasher → Exec FileCopyError (ℕ × B.Hasher)
  copy_chunks dest [] written hasher = pure (written, hasher)
  copy_chunks dest (err e ∷ rest) written hasher = fail (file_error "Failed to read from source" e)
  copy_chunks dest (ok [] ∷ rest) written hasher = pure (written, hasher)
  copy_chunks dest (ok (b ∷ bs) ∷ rest) written hasher = do
    check "Failed to write to destination" (host.write dest written)
    update (modify_file dest (append_bytes (b ∷ bs)))
    copy_chunks dest rest (add_u64 written (length (b ∷ bs))) (B.update hasher (b ∷ bs))

  -- The number of bytes written and their hash.
  unfoldable pub copy_single_file :
      FilePath → FilePath → Bool → Option OwnerIds → Exec FileCopyError (ℕ × Bytes)
  copy_single_file source dest sync_file owner_ids = do
    (permissions, reads) ← open_files host source dest
    (bytes_written, hasher) ← copy_chunks dest reads 0 B.new
    finish_file host dest sync_file
    update (preserve host source dest permissions owner_ids)
    pure (bytes_written, B.finalize hasher)
