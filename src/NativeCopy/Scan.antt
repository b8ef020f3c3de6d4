-- ===== src/NativeCopy/Scan.antt =====
-- `scan_directory` and `scan_directory_recursive` of src/core/transfer_engine/native_copy.rs.
-- The device is the finite tree of what `read_dir`, its iterator and `symlink_metadata` answer.
pub mod Meaning
pub mod Order
pub mod Names
pub mod Outcome
use bksd.Base.{ℕ, String, ◌<>◌, List, [], ◌∷◌, ◌++◌, Result, ok, err, if◌then◌else◌, add_u64}
use bksd.Storage.{FilePath, IoError, show_path}
use bksd.NativeCopy.Errors.{is_device_removed_error}

mutual
  -- What `fs::read_dir` answers for a directory.
  pub data Listing : Type 0 where
    unreadable : IoError → Listing
    listed : Entries → Listing

  -- The results of the iterator over a directory: an error, or an entry's name.
  pub data Entries : Type 0 where
    nil : Entries
    broken : IoError → Entries → Entries
    entry : String → Node → Entries → Entries

  -- What `symlink_metadata` tells of an entry; a file with its length, a directory with its listing.
  pub data Node : Type 0 where
    no_metadata : IoError → Node
    dir : Listing → Node
    file : ℕ → Node
    symlink special : Node

pub record FileInfo : Type 0 where
  pub path : FilePath
  pub size : ℕ

pub record ScanResult : Type 0 where
  pub files : List FileInfo
  pub directories : List FilePath
  pub total_bytes : ℕ

abbrev pub removed_message : IoError → String
removed_message e = "Device appears to have been removed: " <> e.message

unfoldable pub read_dir_message : FilePath → IoError → String
read_dir_message current e =
    if is_device_removed_error e
    then removed_message e
    else "Failed to read directory " <> (show_path current <> (": " <> e.message))

unfoldable pub read_entry_message : IoError → String
read_entry_message e =
    if is_device_removed_error e
    then removed_message e
    else "Failed to read directory entry: " <> e.message

abbrev pub and_then :
    Result String ScanResult → (ScanResult → Result String ScanResult) → Result String ScanResult
and_then (ok found) f = f found
and_then (err message) f = err message

unfoldable mutual
  -- The accumulated result stands for the three `&mut` arguments.
  pub scan_directory_recursive : FilePath → Listing → ScanResult → Result String ScanResult
  scan_directory_recursive current (unreadable e) found = err (read_dir_message current e)
  scan_directory_recursive current (listed entries) found = scan_entries current entries found

  -- The loop over the entries.
  pub scan_entries : FilePath → Entries → ScanResult → Result String ScanResult
  scan_entries current nil found = ok found
  scan_entries current (broken e rest) found = err (read_entry_message e)
  scan_entries current (entry name node rest) found =
      and_then (scan_node (current ++ name ∷ []) node found)
        (λ more. scan_entries current rest more)

  -- The loop's body behind `entry.path()`.
  pub scan_node : FilePath → Node → ScanResult → Result String ScanResult
  scan_node path (no_metadata e) found =
      if is_device_removed_error e then err (removed_message e) else ok found
  scan_node path (dir listing) found =
      scan_directory_recursive path listing
        (record found { directories = found.directories ++ path ∷ [] })
  scan_node path (file size) found = ok (record found {
    total_bytes = add_u64 found.total_bytes size;
    files = found.files ++ (record { path = path; size = size }) ∷ [];
  })
  scan_node path symlink found = ok found
  scan_node path special found = ok found

unfoldable pub scan_directory : FilePath → Listing → Result String ScanResult
unfolding scan_directory_recursive scan_entries scan_node
scan_directory source listing =
    scan_directory_recursive source listing
      (record { files = []; directories = []; total_bytes = 0 })
