-- ===== src/Storage.antt =====
-- `std::fs`, `std::path` and `std::io` as far as src/core/transfer_engine/native_copy.rs and
-- src/core/verifier.rs call them: paths, I/O errors, and the destination disk that they write.
pub mod Laws
pub mod Exec
pub mod Host
pub mod Paths
use bksd.Base.{
  ℕ, ◌-◌, String, ◌<>◌, Bool, ◌||◌, Option, none, some, List, [], ◌∷◌, ◌++◌, ◌==◌, is_some,
  if◌then◌else◌, string_eq, list_eq,
}
use bksd.Base.Dict
use bksd.Base.Dict.{Dict}

-- An absolute path, or one below such a path, by its components.
abbrev pub FilePath : Type 0
FilePath = List String

-- `base.join(relative)` for a relative path.
abbrev pub join : FilePath → FilePath → FilePath
join base relative = base ++ relative

-- `path.strip_prefix(base)`, the base first.
unfoldable pub strip_prefix : FilePath → FilePath → Option FilePath
strip_prefix [] path = some path
strip_prefix (b ∷ base) [] = none
strip_prefix (b ∷ base) (p ∷ path) = if b == p then strip_prefix base path else none

-- `relative.to_string_lossy()` and `relative.display()`.
unfoldable pub show_relative : FilePath → String
show_relative [] = ""
show_relative (c ∷ []) = c
show_relative (c ∷ d ∷ path) = c <> ("/" <> show_relative (d ∷ path))

-- `path.display()` for an absolute path.
unfoldable pub show_path : FilePath → String
unfolding show_relative
show_path path = "/" <> show_relative path

-- `io::ErrorKind`; `other_kind` stands for the kinds that the code does not name.
pub data ErrorKind : Type 0 where
  not_found permission_denied broken_pipe connection_reset connection_aborted : ErrorKind
  not_connected other_kind : ErrorKind

-- `io::Error`, with what `Display` prints.
pub record IoError : Type 0 where
  pub kind : ErrorKind
  pub raw_os_error : Option ℕ
  pub message : String

abbrev pub Bytes : Type 0
Bytes = List ℕ

-- A user's and a group's number.
pub record OwnerIds : Type 0 where
  pub uid : ℕ
  pub gid : ℕ

-- Access and modification time.
pub record FileTimes : Type 0 where
  pub atime : ℕ
  pub mtime : ℕ

-- A file of the destination. An attribute is `none` until a call sets it.
pub record DiskFile : Type 0 where
  pub content : Bytes
  pub mode : Option ℕ
  pub times : Option FileTimes
  pub owner : Option OwnerIds

pub record DiskDir : Type 0 where
  pub mode : Option ℕ
  pub owner : Option OwnerIds

-- The file system that the backups are written to.
pub record Disk : Type 0 where
  pub files : Dict FilePath DiskFile
  pub dirs : Dict FilePath DiskDir

abbrev pub new_file : Bytes → DiskFile
new_file content = record { content = content; mode = none; times = none; owner = none }

abbrev pub get_file : FilePath → Disk → Option DiskFile
get_file path disk = Dict.lookup path disk.files

-- `path.exists()`
unfoldable pub path_exists : FilePath → Disk → Bool
path_exists path disk =
    is_some (Dict.lookup path disk.files) || is_some (Dict.lookup path disk.dirs)

-- A file that is there keeps its mode and its owner when it is cut to no bytes.
abbrev pub truncated : Option DiskFile → DiskFile
truncated none = new_file []
truncated (some file) = record file { content = []; times = none }

-- `File::create`: an empty file, whatever stood there.
unfoldable pub create_file : FilePath → Disk → Disk
create_file path disk = record disk {
  files = Dict.insert path (truncated (Dict.lookup path disk.files)) disk.files;
}

-- Changes the file at a path, if there is one.
unfoldable pub modify_file : FilePath → (DiskFile → DiskFile) → Disk → Disk
modify_file path change disk = elim (Dict.lookup path disk.files) [
  | none ↦ disk
  | some file ↦ record disk { files = Dict.insert path (change file) disk.files }
]

-- A directory that is there keeps its attributes.
unfoldable pub add_dir : FilePath → Disk → Disk
add_dir path disk = elim (Dict.lookup path disk.dirs) [
  | none ↦ record disk { dirs = Dict.insert path (record { mode = none; owner = none }) disk.dirs }
  | some dir ↦ disk
]

-- `fs::create_dir_all`: the directory and those above it, from the root down.
unfoldable pub add_dirs_from : FilePath → FilePath → Disk → Disk
add_dirs_from above [] disk = disk
add_dirs_from above (c ∷ path) disk =
    add_dirs_from (above ++ c ∷ []) path (add_dir (above ++ c ∷ []) disk)

abbrev pub add_dirs : FilePath → Disk → Disk
add_dirs path disk = add_dirs_from [] path disk

unfoldable pub modify_dir : FilePath → (DiskDir → DiskDir) → Disk → Disk
modify_dir path change disk = elim (Dict.lookup path disk.dirs) [
  | none ↦ disk
  | some dir ↦ record disk { dirs = Dict.insert path (change dir) disk.dirs }
]
