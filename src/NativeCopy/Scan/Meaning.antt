-- ===== src/NativeCopy/Scan/Meaning.antt =====
-- What a scan finds, described without its accumulators: every regular file, every directory and the
-- first error that ends it.
use bksd.Base.{
  ℕ, ◌+◌, ◌%◌, ◌<◌, String, ◌≡◌, refl, ap, ◌∙◌, Option, none, some, List, [], ◌∷◌, ◌++◌, Result, ok,
  err, arith, append-nil, append_assoc, if◌then◌else◌, Bool-cases, u64_mod, add_u64, inl, inr,
}
use bksd.Storage.{FilePath}
use bksd.NativeCopy.Errors.{is_device_removed_error}
use bksd.NativeCopy.Scan.{
  Listing, unreadable, listed, Entries, nil, broken, entry, Node, no_metadata, dir, file, symlink,
  special, FileInfo, ScanResult, removed_message, read_dir_message, read_entry_message, and_then,
  scan_directory_recursive, scan_entries, scan_node, scan_directory,
}

abbrev pub first_of_two : Option String → Option String → Option String
first_of_two none o = o
first_of_two (some m) o = some m

-- The first error that ends a scan, in the order of the traversal. An entry whose metadata cannot be
-- read is one only if the error tells of a removed device.
unfoldable mutual
  pub fault_in : FilePath → Listing → Option String
  fault_in current (unreadable e) = some (read_dir_message current e)
  fault_in current (listed entries) = fault_in_entries current entries

  pub fault_in_entries : FilePath → Entries → Option String
  fault_in_entries current nil = none
  fault_in_entries current (broken e rest) = some (read_entry_message e)
  fault_in_entries current (entry name node rest) =
      first_of_two (fault_in_node (current ++ name ∷ []) node) (fault_in_entries current rest)

  pub fault_in_node : FilePath → Node → Option String
  fault_in_node path (no_metadata e) =
      if is_device_removed_error e then some (removed_message e) else none
  fault_in_node path (dir listing) = fault_in path listing
  fault_in_node path (file size) = none
  fault_in_node path symlink = none
  fault_in_node path special = none

-- The regular files below a directory.
unfoldable mutual
  pub files_in : FilePath → Listing → List FileInfo
  files_in current (unreadable e) = []
  files_in current (listed entries) = files_in_entries current entries

  pub files_in_entries : FilePath → Entries → List FileInfo
  files_in_entries current nil = []
  files_in_entries current (broken e rest) = []
  files_in_entries current (entry name node rest) =
      files_in_node (current ++ name ∷ []) node ++ files_in_entries current rest

  pub files_in_node : FilePath → Node → List FileInfo
  files_in_node path (no_metadata e) = []
  files_in_node path (dir listing) = files_in path listing
  files_in_node path (file size) = (record { path = path; size = size }) ∷ []
  files_in_node path symlink = []
  files_in_node path special = []

-- The directories below a directory.
unfoldable mutual
  pub dirs_in : FilePath → Listing → List FilePath
  dirs_in current (unreadable e) = []
  dirs_in current (listed entries) = dirs_in_entries current entries

  pub dirs_in_entries : FilePath → Entries → List FilePath
  dirs_in_entries current nil = []
  dirs_in_entries current (broken e rest) = []
  dirs_in_entries current (entry name node rest) =
      dirs_in_node (current ++ name ∷ []) node ++ dirs_in_entries current rest

  pub dirs_in_node : FilePath → Node → List FilePath
  dirs_in_node path (no_metadata e) = []
  dirs_in_node path (dir listing) = path ∷ dirs_in path listing
  dirs_in_node path (file size) = []
  dirs_in_node path symlink = []
  dirs_in_node path special = []

unfoldable pub sum_sizes : List FileInfo → ℕ
sum_sizes [] = 0
sum_sizes (f ∷ fs) = f.size + sum_sizes fs

add_sizes : ℕ → List FileInfo → ℕ
add_sizes total [] = total
add_sizes total (f ∷ fs) = add_sizes (add_u64 total f.size) fs

add_sizes-append :
    (total : ℕ) (fs gs : List FileInfo)
    → add_sizes (add_sizes total fs) gs ≡ add_sizes total (fs ++ gs)
unfolding add_sizes
add_sizes-append total [] gs = refl
add_sizes-append total (f ∷ fs) gs = add_sizes-append (add_u64 total f.size) fs gs

add_sizes-sum :
    (total : ℕ) (fs : List FileInfo)
    → total < u64_mod
    → add_sizes total fs ≡ (total + sum_sizes fs) % u64_mod
unfolding add_sizes sum_sizes
add_sizes-sum total [] h = omega arith
add_sizes-sum total (f ∷ fs) h =
    omega (arith, add_sizes-sum (add_u64 total f.size) fs (omega arith))

abbrev extend : ScanResult → List FileInfo → List FilePath → ScanResult
extend found fs ds = record {
  files = found.files ++ fs;
  directories = found.directories ++ ds;
  total_bytes = add_sizes found.total_bytes fs;
}

abbrev pub outcome : Option String → ScanResult → Result String ScanResult
outcome none found = ok found
outcome (some m) found = err m

extend-nil : (found : ScanResult) → found ≡ extend found [] []
unfolding add_sizes
extend-nil found = ground (arith, append-nil found.files, append-nil found.directories)

extend-extend :
    (found : ScanResult) (fs gs : List FileInfo) (ds es : List FilePath)
    → extend (extend found fs ds) gs es ≡ extend found (fs ++ gs) (ds ++ es)
extend-extend found fs gs ds es = simp (append_assoc, add_sizes-append)

extend-dir :
    (found : ScanResult) (path : FilePath) (fs : List FileInfo) (ds : List FilePath)
    → extend (record found { directories = found.directories ++ path ∷ [] }) fs ds
      ≡ extend found fs (path ∷ ds)
extend-dir found path fs ds = ground (arith, append_assoc found.directories (path ∷ []) ds)

-- Two parts of a scan, one after the other.
and_then-outcome :
    (o q : Option String) (found : ScanResult) (fs gs : List FileInfo) (ds es : List FilePath)
    (go : ScanResult → Result String ScanResult)
    → go (extend found fs ds) ≡ outcome q (extend (extend found fs ds) gs es)
    → and_then (outcome o (extend found fs ds)) go
      ≡ outcome (first_of_two o q) (extend found (fs ++ gs) (ds ++ es))
and_then-outcome none q found fs gs ds es go h =
    h ∙ ap (outcome q) (extend-extend found fs gs ds es)
and_then-outcome (some m) q found fs gs ds es go h = refl

mutual
  unfolding scan_directory_recursive scan_entries scan_node fault_in fault_in_entries fault_in_node
      files_in files_in_entries files_in_node dirs_in dirs_in_entries dirs_in_node add_sizes

  scan-meaning :
      (current : FilePath) (l : Listing) (found : ScanResult)
      → scan_directory_recursive current l found
        ≡ outcome (fault_in current l) (extend found (files_in current l) (dirs_in current l))
  scan-meaning current (unreadable e) found = refl
  scan-meaning current (listed entries) found = scan_entries-meaning current entries found

  scan_entries-meaning :
      (current : FilePath) (l : Entries) (found : ScanResult)
      → scan_entries current l found
        ≡ outcome
            (fault_in_entries current l)
            (extend found (files_in_entries current l) (dirs_in_entries current l))
  scan_entries-meaning current nil found = ap ok (extend-nil found)
  scan_entries-meaning current (broken e rest) found = refl
  scan_entries-meaning current (entry name node rest) found =
      rw (scan_node-meaning (current ++ name ∷ []) node found) (
        and_then-outcome (fault_in_node (current ++ name ∷ []) node) (fault_in_entries current rest)
          found (files_in_node (current ++ name ∷ []) node) (files_in_entries current rest)
          (dirs_in_node (current ++ name ∷ []) node) (dirs_in_entries current rest)
          (λ more. scan_entries current rest more)
          (scan_entries-meaning current rest (
            extend found (files_in_node (current ++ name ∷ []) node)
              (dirs_in_node (current ++ name ∷ []) node))))

  scan_node-meaning :
      (path : FilePath) (l : Node) (found : ScanResult)
      → scan_node path l found
        ≡ outcome (fault_in_node path l) (extend found (files_in_node path l) (dirs_in_node path l))
  scan_node-meaning path (no_metadata e) found = elim (Bool-cases (is_device_removed_error e)) [
    | inl removed ↦ rw removed
    | inr other ↦ rw other (ap ok (extend-nil found))
  ]
  scan_node-meaning path (dir listing) found =
      scan-meaning path listing (record found { directories = found.directories ++ path ∷ [] })
      ∙ ap (outcome (fault_in path listing))
          (extend-dir found path (files_in path listing) (dirs_in path listing))
  scan_node-meaning path (file size) found = ground (arith, append-nil found.directories)
  scan_node-meaning path symlink found = ap ok (extend-nil found)
  scan_node-meaning path special found = ap ok (extend-nil found)

-- A scan of a device ends with the first fatal error of the traversal if there is one. Otherwise it
-- returns every regular file and every directory below the source, in the order of the traversal,
-- and the sum of the files' sizes as a 64-bit number.
pub scan_directory_lem :
    (source : FilePath) (l : Listing)
    → scan_directory source l
      ≡ outcome (fault_in source l) (record {
        files = files_in source l;
        directories = dirs_in source l;
        total_bytes = sum_sizes (files_in source l) % u64_mod;
      })
unfolding scan_directory
scan_directory_lem source l =
    scan-meaning source l start ∙ ground (arith, add_sizes-sum 0 (files_in source l) (omega arith))
  where
    start : ScanResult
    start = record { files = []; directories = []; total_bytes = 0 }
