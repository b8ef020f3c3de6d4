-- ===== src/NativeCopy/Dirs.antt =====
-- `resolve_owner` and `create_directory_structure` of src/core/transfer_engine/native_copy.rs.
use bksd.Base.{ℕ, String, ◌<>◌, Option, none, some, List, [], ◌∷◌, Result, ok, err}
use bksd.Storage.{FilePath, IoError, OwnerIds, Disk, join, strip_prefix, add_dirs, modify_dir}
use bksd.Storage.Host.{Host}
use bksd.Transfer.{FileOwner}

-- The number of a user or a group, or the text for a lookup that fails or finds nothing.
abbrev lookup_id : String → String → String → Result String (Option ℕ) → Result String ℕ
lookup_id kind title name (err e) =
    err ("Failed to lookup " <> (kind <> (" '" <> (name <> ("': " <> e)))))
lookup_id kind title name (ok none) = err (title <> (" '" <> (name <> "' not found")))
lookup_id kind title name (ok (some id)) = ok id

abbrev pair_ids : Result String ℕ → Result String ℕ → Result String OwnerIds
pair_ids (err e) group = err e
pair_ids (ok uid) (err e) = err e
pair_ids (ok uid) (ok gid) = ok (record { uid = uid; gid = gid })

unfoldable pub resolve_owner : Host → FileOwner → Result String OwnerIds
resolve_owner host owner =
    pair_ids (lookup_id "user" "User" owner.user (host.user_from_name owner.user))
      (lookup_id "group" "Group" owner.group (host.group_from_name owner.group))

module _ (host : Host) where
  -- `chown`, whose failure is logged and dropped.
  unfoldable pub chown_dir : FilePath → Option OwnerIds → Disk → Disk
  chown_dir dest_dir none disk = disk
  chown_dir dest_dir (some ids) disk = elim (host.chown dest_dir) [
    | none ↦ modify_dir dest_dir (λ dir. record dir { owner = some ids }) disk
    | some e ↦ disk
  ]

  -- `set_permissions`, by its error, and what follows.
  unfoldable pub permit_dir :
      FilePath → ℕ → Option OwnerIds → Option IoError → Disk → Result String (Unit {0}) × Disk
  permit_dir dest_dir permissions owner_ids (some e) disk = (err e.message, disk)
  permit_dir dest_dir permissions owner_ids none disk = (
    ok tt,
    chown_dir dest_dir owner_ids
        (modify_dir dest_dir (λ dir. record dir { mode = some permissions }) disk),
  )

  -- `create_dir_all`, by its error, and what follows.
  unfoldable pub make_dir :
      FilePath → ℕ → Option OwnerIds → Option IoError → Disk → Result String (Unit {0}) × Disk
  make_dir dest_dir permissions owner_ids (some e) disk = (err e.message, disk)
  make_dir dest_dir permissions owner_ids none disk =
      permit_dir dest_dir permissions owner_ids (host.set_dir_permissions dest_dir)
        (add_dirs dest_dir disk)

  -- `fs::metadata` of the source directory, by its result, and what follows.
  unfoldable pub mirror_dir :
      FilePath → Option OwnerIds → Result IoError ℕ → Disk → Result String (Unit {0}) × Disk
  mirror_dir dest_dir owner_ids (err e) disk = (err e.message, disk)
  mirror_dir dest_dir owner_ids (ok permissions) disk =
      make_dir dest_dir permissions owner_ids (host.create_dir_all dest_dir) disk

  -- The body of the loop: the result, and the disk as the calls before a failure left it.
  unfoldable pub create_directory :
      FilePath → FilePath → Option OwnerIds → FilePath → Disk → Result String (Unit {0}) × Disk
  create_directory source destination owner_ids dir_path disk =
      elim (strip_prefix source dir_path) [
        | none ↦ (err "task panicked: directory should be under source", disk)
        | some relative ↦
            mirror_dir (join destination relative) owner_ids (host.dir_metadata dir_path) disk
      ]

  abbrev pub go_on :
      Result String (Unit {0}) × Disk
      → (Disk → Result String (Unit {0}) × Disk)
      → Result String (Unit {0}) × Disk
  go_on (ok _, disk) next = next disk
  go_on (err e, disk) next = (err e, disk)

  unfoldable pub create_directory_structure :
      FilePath → FilePath → Option OwnerIds → List FilePath → Disk → Result String (Unit {0}) × Disk
  create_directory_structure source destination owner_ids [] disk = (ok tt, disk)
  create_directory_structure source destination owner_ids (dir_path ∷ dirs) disk =
      go_on (create_directory source destination owner_ids dir_path disk)
        (λ d. create_directory_structure source destination owner_ids dirs d)
