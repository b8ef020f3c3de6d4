-- ===== src/NativeCopy/Engine/Safety.antt =====
-- What a transfer never touches.
use bksd.Base.{
  ℕ, String, ◌≡◌, refl, sym, ap, ◌∙◌, Option, none, some, List, [], ◌∷◌, Result, ok, err,
  Option-cases, Bool-cases, inl, inr, arith, All, string_eq, list_eq,
}
use bksd.Base.Dict
use bksd.Storage.{
  FilePath, IoError, OwnerIds, Disk, DiskDir, get_file, join, strip_prefix, path_exists, modify_dir,
}
use bksd.Storage.Laws.{files-add_dirs_from}
use bksd.Storage.Host.{Host, Blake3, Float}
use bksd.Transfer.{FileHash, TransferRequest}
use bksd.NativeCopy.Scan.{FileInfo, Listing, ScanResult}
use bksd.NativeCopy.Scan.Order.{IsUnder}
use bksd.NativeCopy.Dirs.{
  chown_dir, permit_dir, make_dir, mirror_dir, create_directory, go_on, create_directory_structure,
}
use bksd.NativeCopy.Files.{CopyState, initial, loop_result, copy_files_with_progress}
use bksd.NativeCopy.Files.Frame.{IsElsewhere, get_file-copy_loop}
use bksd.NativeCopy.Engine.{
  NativeCopyEngine, copied_run, options_of, owner_ids_of, copy_phase, scanned_phase, transfer,
}

files-modify_dir :
    (path : FilePath) (change : DiskDir → DiskDir) (disk : Disk)
    → (modify_dir path change disk).files ≡ disk.files
unfolding modify_dir
files-modify_dir path change disk = ground arith

module _ (host : Host) where
  files-chown_dir :
      (path : FilePath) (ids : Option OwnerIds) (disk : Disk)
      → (chown_dir host path ids disk).files ≡ disk.files
  unfolding chown_dir
  files-chown_dir path none disk = refl
  files-chown_dir path (some ids) disk = elim (Option-cases (host.chown path)) [
    | inl fine ↦ rw (fine, chown_dir) (files-modify_dir path _ disk)
    | inr (e, refused) ↦ rw (refused, chown_dir)
  ]

  files-permit_dir :
      (path : FilePath) (mode : ℕ) (ids : Option OwnerIds) (o : Option IoError) (disk : Disk)
      → (permit_dir host path mode ids o disk).1.files ≡ disk.files
  unfolding permit_dir
  files-permit_dir path mode ids (some e) disk = refl
  files-permit_dir path mode ids none disk =
      files-chown_dir path ids _ ∙ files-modify_dir path _ disk

  files-make_dir :
      (path : FilePath) (mode : ℕ) (ids : Option OwnerIds) (o : Option IoError) (disk : Disk)
      → (make_dir host path mode ids o disk).1.files ≡ disk.files
  unfolding make_dir
  files-make_dir path mode ids (some e) disk = refl
  files-make_dir path mode ids none disk =
      files-permit_dir path mode ids (host.set_dir_permissions path) _
      ∙ files-add_dirs_from [] path disk

  files-mirror_dir :
      (path : FilePath) (ids : Option OwnerIds) (r : Result IoError ℕ) (disk : Disk)
      → (mirror_dir host path ids r disk).1.files ≡ disk.files
  unfolding mirror_dir
  files-mirror_dir path ids (err e) disk = refl
  files-mirror_dir path ids (ok mode) disk =
      files-make_dir path mode ids (host.create_dir_all path) disk

  files-create_directory :
      (source destination : FilePath) (ids : Option OwnerIds) (dir_path : FilePath) (disk : Disk)
      → (create_directory host source destination ids dir_path disk).1.files ≡ disk.files
  unfolding create_directory
  files-create_directory source destination ids dir_path disk =
      elim (Option-cases (strip_prefix source dir_path)) [
        | inl outside ↦ rw (outside, create_directory)
        | inr (relative, below) ↦
            rw (below, create_directory)
              (files-mirror_dir (join destination relative) ids (host.dir_metadata dir_path) disk)
      ]

  files-go_on :
      (r : Result String (Unit {0}) × Disk) (next : Disk → Result String (Unit {0}) × Disk)
      → ((d : Disk) → (next d).1.files ≡ d.files)
      → (go_on host r next).1.files ≡ r.1.files
  files-go_on (ok _, disk) next keep = keep disk
  files-go_on (err e, disk) next keep = refl

  files-create_directory_structure :
      (source destination : FilePath) (ids : Option OwnerIds) (dirs : List FilePath) (disk : Disk)
      → (create_directory_structure host source destination ids dirs disk).1.files ≡ disk.files
  unfolding create_directory_structure
  files-create_directory_structure source destination ids [] disk = refl
  files-create_directory_structure source destination ids (d ∷ dirs) disk =
      files-go_on _ _ (λ x. files-create_directory_structure source destination ids dirs x)
      ∙ files-create_directory source destination ids d disk

module _ (B : Blake3) (F : Float) (host : Host) (elapsed : FilePath → F.F64) (duration_secs : ℕ)
    (engine : NativeCopyEngine) (req : TransferRequest) (q : FilePath)
    (outside : ¬ IsUnder req.destination q) where
  All-IsElsewhere :
      (total : ℕ) (files : List FileInfo)
      → All
          (IsElsewhere B F host elapsed req.source req.destination
            (options_of B F host elapsed duration_secs engine req)
            total
            q)
          files
  All-IsElsewhere total [] = tt
  All-IsElsewhere total (f ∷ files) =
      (λ relative below same. outside (relative, sym same), All-IsElsewhere total files)

  get_file-copied_run :
      (r : Result String (ℕ × List FileHash) × CopyState)
      → get_file q (copied_run duration_secs r).disk ≡ get_file q r.1.disk
  get_file-copied_run (ok (n, hs), s) = refl
  get_file-copied_run (err e, s) = refl

  disk-loop_result : (r : Result String (Unit {0}) × CopyState) → (loop_result r).1.disk ≡ r.1.disk
  disk-loop_result (ok _, s) = refl
  disk-loop_result (err e, s) = refl

  get_file-copy_files :
      (files : List FileInfo) (total : ℕ) (disk : Disk)
      → get_file q
          (copy_files_with_progress B F host elapsed req.source req.destination files total
            (options_of B F host elapsed duration_secs engine req)
            disk).1.disk
        ≡ get_file q disk
  unfolding copy_files_with_progress initial
  get_file-copy_files files total disk =
      ap (get_file q) (disk-loop_result _)
      ∙ get_file-copy_loop B F host elapsed req.source req.destination
          (options_of B F host elapsed duration_secs engine req) total q files (initial disk)
          (All-IsElsewhere total files)

  get_file-copy_phase :
      (scan : ScanResult) (made : Result String (Unit {0}) × Disk)
      → get_file q (copy_phase B F host elapsed duration_secs engine req scan made).disk
        ≡ get_file q made.1
  unfolding copy_phase
  get_file-copy_phase scan (ok _, disk) =
      get_file-copied_run _ ∙ get_file-copy_files scan.files scan.total_bytes disk
  get_file-copy_phase scan (err e, disk) = refl

  get_file-scanned_phase :
      (disk : Disk) (scanned : Result String ScanResult)
      → get_file q (scanned_phase B F host elapsed duration_secs engine req disk scanned).disk
        ≡ get_file q disk
  unfolding scanned_phase
  get_file-scanned_phase disk (err e) = refl
  get_file-scanned_phase disk (ok scan) =
      get_file-copy_phase scan _
      ∙ ap (Dict.lookup q) (
          files-create_directory_structure host req.source req.destination
            (owner_ids_of host req.owner) scan.directories disk)

  -- However a transfer ends, a file that does not lie below its destination is untouched.
  pub get_file-transfer :
      (device : Listing) (disk : Disk)
      → get_file q (transfer B F host elapsed duration_secs engine req device disk).disk
        ≡ get_file q disk
  unfolding transfer
  get_file-transfer device disk = elim (Bool-cases (path_exists req.destination disk)) [
    | inl there ↦ rw there
    | inr free ↦ rw free (elim (Option-cases (host.create_dir_all req.destination)) [
      | inl made ↦
          rw (made, transfer)
            (get_file-scanned_phase _ _
              ∙ ap (Dict.lookup q) (files-add_dirs_from [] req.destination disk))
      | inr (e, refused) ↦ rw (refused, transfer)
    ])
  ]
