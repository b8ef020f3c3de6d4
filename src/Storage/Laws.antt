-- ===== src/Storage/Laws.antt =====
-- How the disk's operations act on one path, and what `strip_prefix` undoes.
use bksd.Base.{
  ◌≡◌, refl, ◌≢◌, true, Option, none, some, [], ◌∷◌, ◌++◌, arith, ◌==◌, ==_iff, ==_self, string_eq,
  list_eq, if◌then◌else◌,
}
use bksd.Base.Dict.{lookup-insert}
use bksd.Storage.{
  FilePath, Disk, DiskFile, truncated, get_file, create_file, modify_file, add_dir, add_dirs_from,
  strip_prefix,
}

pub strip_prefix-append :
    (base relative : FilePath) → strip_prefix base (base ++ relative) ≡ some relative
unfolding strip_prefix
strip_prefix-append [] relative = refl
strip_prefix-append (b ∷ base) relative =
    ground (arith, ==_self b, strip_prefix-append base relative)

-- A prefix that can be taken off is there.
pub append-strip_prefix :
    (base path : FilePath) {relative : FilePath}
    → strip_prefix base path ≡ some relative
    → base ++ relative ≡ path
unfolding strip_prefix
append-strip_prefix [] path h = ground arith
append-strip_prefix (b ∷ base) [] h = cc
append-strip_prefix (b ∷ base) (p ∷ path) {relative} h =
    ground (arith, ==_iff b p, append-strip_prefix base path {relative = relative})

pub get_file-create_file :
    (path q : FilePath) (disk : Disk)
    → get_file q (create_file path disk)
      ≡ (if path == q then some (truncated (get_file path disk)) else get_file q disk)
unfolding create_file
get_file-create_file path q disk = lookup-insert q path (truncated (get_file path disk)) disk.files

pub content-truncated : (o : Option DiskFile) → (truncated o).content ≡ []
content-truncated none = refl
content-truncated (some file) = refl

pub get_file-modify_file :
    (path q : FilePath) (change : DiskFile → DiskFile) (disk : Disk) {file : DiskFile}
    → get_file path disk ≡ some file
    → get_file q (modify_file path change disk)
      ≡ (if path == q then some (change file) else get_file q disk)
unfolding modify_file
get_file-modify_file path q change disk {file} h =
    ground (arith, lookup-insert q path (change file) disk.files)

-- Another path's file does not change.
pub get_file-modify_file_ne :
    (path q : FilePath) (change : DiskFile → DiskFile) (disk : Disk)
    → (path == q) ≢ true
    → get_file q (modify_file path change disk) ≡ get_file q disk
unfolding modify_file
get_file-modify_file_ne path q change disk h = go (get_file path disk) refl
  where
    go :
        (o : Option DiskFile)
        → get_file path disk ≡ o
        → get_file q (modify_file path change disk) ≡ get_file q disk
    go none e = rw (e, modify_file)
    go (some file) e = ground (arith, lookup-insert q path (change file) disk.files)

-- Making directories touches no file.
pub files-add_dirs_from :
    (above path : FilePath) (disk : Disk) → (add_dirs_from above path disk).files ≡ disk.files
unfolding add_dirs_from add_dir
files-add_dirs_from above [] disk = refl
files-add_dirs_from above (c ∷ path) disk =
    ground (arith, files-add_dirs_from (above ++ c ∷ []) path (add_dir (above ++ c ∷ []) disk))
