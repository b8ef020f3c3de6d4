-- ===== src/NativeCopy/Scan/Order.antt =====
-- Where a scan's paths lie: below the source, and a directory's parent before the directory.
use mathlib.Core.List.{Memᴰ}
use bksd.Base.{
  ◌≡◌, refl, sym, ◌∙◌, List, [], ◌∷◌, ◌++◌, append_assoc, append-nil, All, All-append, All-map,
  String,
}
use bksd.Storage.{FilePath}
use bksd.NativeCopy.Scan.{
  Listing, unreadable, listed, Entries, nil, broken, entry, Node, no_metadata, dir, file, symlink,
  special, FileInfo,
}
use bksd.NativeCopy.Scan.Meaning.{
  files_in, files_in_entries, files_in_node, dirs_in, dirs_in_entries, dirs_in_node,
}

abbrev pub IsUnder : FilePath → FilePath → Type 0
IsUnder base path = (relative : FilePath) × (path ≡ base ++ relative)

IsUnder-up :
    (base : FilePath) (name : String) (path : FilePath)
    → IsUnder (base ++ name ∷ []) path
    → IsUnder base path
IsUnder-up base name path (relative, e) =
    (name ∷ relative, e ∙ append_assoc base (name ∷ []) relative)

mutual
  unfolding files_in files_in_entries files_in_node

  -- Every file of a scan lies below the directory that was scanned.
  pub files_in-IsUnder :
      (current : FilePath) (l : Listing) → All (λ f. IsUnder current f.path) (files_in current l)
  files_in-IsUnder current (unreadable e) = tt
  files_in-IsUnder current (listed entries) = files_in_entries-IsUnder current entries

  pub files_in_entries-IsUnder :
      (current : FilePath) (l : Entries)
      → All (λ f. IsUnder current f.path) (files_in_entries current l)
  files_in_entries-IsUnder current nil = tt
  files_in_entries-IsUnder current (broken e rest) = tt
  files_in_entries-IsUnder current (entry name node rest) =
      All-append (λ (f : FileInfo). IsUnder current f.path)
        (files_in_node (current ++ name ∷ []) node) (files_in_entries current rest)
        (All-map (files_in_node (current ++ name ∷ []) node) (λ f. IsUnder-up current name f.path)
          (files_in_node-IsUnder (current ++ name ∷ []) node))
        (files_in_entries-IsUnder current rest)

  pub files_in_node-IsUnder :
      (path : FilePath) (l : Node) → All (λ f. IsUnder path f.path) (files_in_node path l)
  files_in_node-IsUnder path (no_metadata e) = tt
  files_in_node-IsUnder path (dir listing) = files_in-IsUnder path listing
  files_in_node-IsUnder path (file size) = (([], sym (append-nil path)), tt)
  files_in_node-IsUnder path symlink = tt
  files_in_node-IsUnder path special = tt

-- The directory's parent is one of the known directories.
abbrev pub HasParent : List FilePath → FilePath → Type 0
HasParent known path =
    (parent : FilePath) × (name : String) × (path ≡ parent ++ name ∷ []) × Memᴰ parent known

-- Each directory's parent is known already or stands before it.
abbrev pub ParentsFirst : List FilePath → List FilePath → Type 0
ParentsFirst known [] = Unit
ParentsFirst known (d ∷ ds) = HasParent known d × ParentsFirst (d ∷ known) ds

ParentsFirst-append :
    (current : FilePath) (known xs ys : List FilePath)
    → Memᴰ current known
    → ParentsFirst known xs
    → ((more : List FilePath) → Memᴰ current more → ParentsFirst more ys)
    → ParentsFirst known (xs ++ ys)
ParentsFirst-append current known [] ys m h k = k known m
ParentsFirst-append current known (x ∷ xs) ys m h k =
    (h.0, ParentsFirst-append current (x ∷ known) xs ys (Memᴰ.tail m) h.1 k)

mutual
  unfolding dirs_in dirs_in_entries dirs_in_node

  ParentsFirst-listing :
      (current : FilePath) (l : Listing) (known : List FilePath)
      → Memᴰ current known
      → ParentsFirst known (dirs_in current l)
  ParentsFirst-listing current (unreadable e) known m = tt
  ParentsFirst-listing current (listed entries) known m =
      ParentsFirst-entries current entries known m

  ParentsFirst-entries :
      (current : FilePath) (l : Entries) (known : List FilePath)
      → Memᴰ current known
      → ParentsFirst known (dirs_in_entries current l)
  ParentsFirst-entries current nil known m = tt
  ParentsFirst-entries current (broken e rest) known m = tt
  ParentsFirst-entries current (entry name node rest) known m =
      ParentsFirst-append current known (dirs_in_node (current ++ name ∷ []) node)
        (dirs_in_entries current rest) m (ParentsFirst-node current name node known m)
        (λ more m'. ParentsFirst-entries current rest more m')

  ParentsFirst-node :
      (current : FilePath) (name : String) (l : Node) (known : List FilePath)
      → Memᴰ current known
      → ParentsFirst known (dirs_in_node (current ++ name ∷ []) l)
  ParentsFirst-node current name (no_metadata e) known m = tt
  ParentsFirst-node current name (dir listing) known m = (
    (current, name, refl, m),
    ParentsFirst-listing (current ++ name ∷ []) listing ((current ++ name ∷ []) ∷ known)
        (Memᴰ.head refl),
  )
  ParentsFirst-node current name (file size) known m = tt
  ParentsFirst-node current name symlink known m = tt
  ParentsFirst-node current name special known m = tt

-- Directories are listed in an order in which they can be created: each one's parent is the source
-- or stands before it.
pub dirs_in-ParentsFirst :
    (source : FilePath) (l : Listing) → ParentsFirst (source ∷ []) (dirs_in source l)
dirs_in-ParentsFirst source l = ParentsFirst-listing source l (source ∷ []) (Memᴰ.head refl)
