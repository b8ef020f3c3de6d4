-- ===== src/NativeCopy/Scan/Names.antt =====
-- A device whose directories list each name once gives a scan with no path twice.
use bksd.Base.{
  ◌≡◌, sym, ap, ◌∙◌, ◌≢◌, Bool, true, false, ◌||◌, List, [], ◌∷◌, ◌++◌, append_assoc, All,
  All-append, All-map, String, arith, ◌==◌, ==_self, string_eq,
}
use mathlib.Core.Bool.{false≢true}
use bksd.Storage.{FilePath}
use bksd.NativeCopy.Scan.{
  Listing, unreadable, listed, Entries, nil, broken, entry, Node, no_metadata, dir, file, symlink,
  special, FileInfo,
}
use bksd.NativeCopy.Scan.Meaning.{files_in, files_in_entries, files_in_node}
use bksd.NativeCopy.Scan.Order.{IsUnder, files_in_node-IsUnder}

abbrev pub has_name : String → Entries → Bool
has_name name nil = false
has_name name (broken e rest) = has_name name rest
has_name name (entry other node rest) = name == other || has_name name rest

-- No directory lists a name twice.
abbrev mutual
  pub HasUniqueNames : Listing → Type 0
  HasUniqueNames (unreadable e) = Unit
  HasUniqueNames (listed entries) = UniqueEntries entries

  pub UniqueEntries : Entries → Type 0
  UniqueEntries nil = Unit
  UniqueEntries (broken e rest) = UniqueEntries rest
  UniqueEntries (entry name node rest) =
      (has_name name rest ≡ false) × UniqueNode node × UniqueEntries rest

  pub UniqueNode : Node → Type 0
  UniqueNode (no_metadata e) = Unit
  UniqueNode (dir listing) = HasUniqueNames listing
  UniqueNode (file size) = Unit
  UniqueNode symlink = Unit
  UniqueNode special = Unit

-- No two files of the list have the same path.
abbrev pub DistinctPaths : List FileInfo → Type 0
DistinctPaths [] = Unit
DistinctPaths (f ∷ fs) = All (λ g. f.path ≢ g.path) fs × DistinctPaths fs

DistinctPaths-append :
    (xs ys : List FileInfo)
    → DistinctPaths xs
    → DistinctPaths ys
    → All (λ f. All (λ g. f.path ≢ g.path) ys) xs
    → DistinctPaths (xs ++ ys)
DistinctPaths-append [] ys hx hy apart = hy
DistinctPaths-append (x ∷ xs) ys hx hy apart = (
  All-append (λ (g : FileInfo). x.path ≢ g.path) xs ys hx.0 apart.0,
  DistinctPaths-append xs ys hx.1 hy apart.1,
)

-- The first component behind a common prefix.
append_cancel_head :
    (base : FilePath) (x y : String) (xs ys : FilePath) → base ++ x ∷ xs ≡ base ++ y ∷ ys → x ≡ y
append_cancel_head [] x y xs ys e = cc
append_cancel_head (b ∷ base) x y xs ys e = append_cancel_head base x y xs ys (cc)

-- Below one of the names that a directory lists.
abbrev UnderName : FilePath → Entries → FileInfo → Type 0
UnderName current l f =
    (name : String) × (relative : FilePath) × (f.path ≡ current ++ name ∷ relative)
    × (has_name name l ≡ true)

UnderName-here :
    (current : FilePath) (name : String) (node : Node) (rest : Entries) (f : FileInfo)
    → IsUnder (current ++ name ∷ []) f.path
    → UnderName current (entry name node rest) f
UnderName-here current name node rest f (relative, e) =
    (name, relative, e ∙ append_assoc current (name ∷ []) relative, ground (arith, ==_self name))

UnderName-later :
    (current : FilePath) (name : String) (node : Node) (rest : Entries) (f : FileInfo)
    → UnderName current rest f
    → UnderName current (entry name node rest) f
UnderName-later current name node rest f (other, relative, e, h) =
    (other, relative, e, ground arith)

files_in_entries-UnderName :
    (current : FilePath) (l : Entries)
    → All (λ f. UnderName current l f) (files_in_entries current l)
unfolding files_in_entries
files_in_entries-UnderName current nil = tt
files_in_entries-UnderName current (broken e rest) = tt
files_in_entries-UnderName current (entry name node rest) =
    All-append (λ (f : FileInfo). UnderName current (entry name node rest) f)
      (files_in_node (current ++ name ∷ []) node) (files_in_entries current rest)
      (All-map (files_in_node (current ++ name ∷ []) node)
        (λ f. UnderName-here current name node rest f)
        (files_in_node-IsUnder (current ++ name ∷ []) node))
      (All-map (files_in_entries current rest) (λ f. UnderName-later current name node rest f)
        (files_in_entries-UnderName current rest))

apart_names :
    (current : FilePath) (name : String) (rest : Entries) (f g : FileInfo)
    → has_name name rest ≡ false
    → IsUnder (current ++ name ∷ []) f.path
    → UnderName current rest g
    → f.path ≢ g.path
apart_names current name rest f g fresh (rf, ef) (other, rg, eg, there) same =
    let heads : name ≡ other =
      append_cancel_head current name other rf rg
        (sym (append_assoc current (name ∷ []) rf) ∙ sym ef ∙ same ∙ eg) in
    false≢true (sym fresh ∙ ap (λ n. has_name n rest) heads ∙ there)

mutual
  unfolding files_in files_in_entries files_in_node

  distinct_listing :
      (current : FilePath) (l : Listing) → HasUniqueNames l → DistinctPaths (files_in current l)
  distinct_listing current (unreadable e) u = tt
  distinct_listing current (listed entries) u = distinct_entries current entries u

  distinct_entries :
      (current : FilePath) (l : Entries)
      → UniqueEntries l
      → DistinctPaths (files_in_entries current l)
  distinct_entries current nil u = tt
  distinct_entries current (broken e rest) u = tt
  distinct_entries current (entry name node rest) u =
      DistinctPaths-append (files_in_node (current ++ name ∷ []) node)
        (files_in_entries current rest) (distinct_node (current ++ name ∷ []) node u.1)
        (distinct_entries current rest u.2)
        (All-map (files_in_node (current ++ name ∷ []) node)
          (λ f under.
            All-map (files_in_entries current rest)
              (λ g named. apart_names current name rest f g u.0 under named)
              (files_in_entries-UnderName current rest))
          (files_in_node-IsUnder (current ++ name ∷ []) node))

  distinct_node : (path : FilePath) (l : Node) → UniqueNode l → DistinctPaths (files_in_node path l)
  distinct_node path (no_metadata e) u = tt
  distinct_node path (dir listing) u = distinct_listing path listing u
  distinct_node path (file size) u = (tt, tt)
  distinct_node path symlink u = tt
  distinct_node path special u = tt

-- If no directory of the device lists a name twice, no path is scanned twice.
pub files_in-DistinctPaths :
    (source : FilePath) (l : Listing) → HasUniqueNames l → DistinctPaths (files_in source l)
files_in-DistinctPaths source l u = distinct_listing source l u
