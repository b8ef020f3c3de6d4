-- ===== src/NativeCopy/Scan/Outcome.antt =====
-- What the later phases rely on in the result of `scan_directory`.
use bksd.Base.{
  String, ◌≡◌, refl, sym, ap, subst, ◌∙◌, Option, none, some, [], ◌∷◌, ok, ok-injective, ◌%◌,
  u64_mod,
}
use bksd.Storage.{FilePath}
use bksd.NativeCopy.Scan.{Listing, ScanResult, scan_directory}
use bksd.NativeCopy.Scan.Meaning.{fault_in, sum_sizes, outcome, scan_directory_lem}
use bksd.NativeCopy.Scan.Order.{ParentsFirst, dirs_in-ParentsFirst}
use bksd.NativeCopy.Scan.Names.{HasUniqueNames, DistinctPaths, files_in-DistinctPaths}

pub outcome-eq-ok :
    (o : Option String) (found scan : ScanResult)
    → outcome o found ≡ ok scan
    → (o ≡ none) × (found ≡ scan)
outcome-eq-ok none found scan e = (refl, ok-injective {E = String} found scan e)
outcome-eq-ok (some m) found scan e = cc

-- A scan that succeeds lists the directories so that they can be created in this order: each one's
-- parent is the source or stands before it. If no directory of the device lists a name twice, it
-- lists no file twice. The total is the sum of the listed sizes as a 64-bit number.
pub scan_directory-ParentsFirst :
    (source : FilePath) (l : Listing) (scan : ScanResult)
    → scan_directory source l ≡ ok scan
    → ParentsFirst (source ∷ []) scan.directories
      × (HasUniqueNames l → DistinctPaths scan.files)
      × (scan.total_bytes ≡ sum_sizes scan.files % u64_mod)
scan_directory-ParentsFirst source l scan e =
    let (clean, same) =
      outcome-eq-ok (fault_in source l) _ scan (sym (scan_directory_lem source l) ∙ e) in
    (
      subst (ParentsFirst (source ∷ [])) (ap (λ (s : ScanResult). s.directories) same)
          (dirs_in-ParentsFirst source l),
      λ unique.
          subst DistinctPaths (ap (λ (s : ScanResult). s.files) same)
            (files_in-DistinctPaths source l unique),
      sym (ap (λ (s : ScanResult). s.total_bytes) same)
          ∙ ap (λ fs. sum_sizes fs % u64_mod) (ap (λ (s : ScanResult). s.files) same),
    )
